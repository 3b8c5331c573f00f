-- ===== src/External/Tokio.antt =====
-- A tokio channel that holds one value: tokio::sync::oneshot and tokio::sync::watch.
use channel_loader_rs.Base.{◌≡◌, ◌≢◌, Bool, true, false}

-- The receiver sees `started a` of a new channel and `sent m` once `m` is sent. The store holds all channels
-- of a kind; the sender and the receiver of a channel share its handle.
pub record Channel {Start Msg View : Type 0} (started : Start → View) (sent : Msg → View)
    : Type 1 where
  pub Store : Type 0
  pub Handle : Type 0
  pub Handle-discrete : Discrete Handle
  -- `channel()`
  pub channel : Start → Store → Handle × Store
  -- `tx.is_closed()`: the receivers are gone.
  pub is_closed : Store → Handle → Bool
  -- `tx.send(msg).ok()`
  pub send : Handle → Msg → Store → Store
  -- dropping the last receiver
  pub close : Handle → Store → Store
  -- what the receiver sees
  pub view : Store → Handle → View
  -- The channel has been made.
  pub is_made : Store → Handle → Bool
  pub view-channel : (a : Start) (s : Store) → view (channel a s).1 (channel a s).0 ≡ started a
  pub view-channel_ne :
      (a : Start) (s : Store) (h : Handle) → is_made s h ≡ true → view (channel a s).1 h ≡ view s h
  pub is_made-channel : (a : Start) (s : Store) → is_made (channel a s).1 (channel a s).0 ≡ true
  pub is_made-channel_ne :
      (a : Start) (s : Store) (h : Handle) → is_made s h ≡ true → is_made (channel a s).1 h ≡ true
  pub channel_fresh : (a : Start) (s : Store) → is_made s (channel a s).0 ≡ false
  pub is_closed-channel :
      (a : Start) (s : Store) → is_closed (channel a s).1 (channel a s).0 ≡ false
  pub is_closed-channel_ne :
      (a : Start) (s : Store) (h : Handle)
      → is_made s h ≡ true
      → is_closed (channel a s).1 h ≡ is_closed s h
  pub view-send :
      (h : Handle) (m : Msg) (s : Store) → is_closed s h ≡ false → view (send h m s) h ≡ sent m
  pub view-send_ne : (h g : Handle) (m : Msg) (s : Store) → h ≢ g → view (send h m s) g ≡ view s g
  pub is_closed-send :
      (h g : Handle) (m : Msg) (s : Store) → is_closed (send h m s) g ≡ is_closed s g
  pub is_made-send : (h g : Handle) (m : Msg) (s : Store) → is_made (send h m s) g ≡ is_made s g
  pub view-close : (h g : Handle) (s : Store) → view (close h s) g ≡ view s g
  pub is_closed-close : (h : Handle) (s : Store) → is_closed (close h s) h ≡ true
  pub is_closed-close_ne :
      (h g : Handle) (s : Store) → h ≢ g → is_closed (close h s) g ≡ is_closed s g
  pub is_made-close : (h g : Handle) (s : Store) → is_made (close h s) g ≡ is_made s g
