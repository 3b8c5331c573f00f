-- ===== src/Request/Create.antt =====
-- What a new request adds to the channels, and what a caller that goes away changes.
use channel_loader_rs.Base.{◌≡◌, refl, ◌≢◌, ap, true, false, none, arith}
use channel_loader_rs.Request.{Runtime, World, Request, pending, new_oneshot, new_watch, key}
use channel_loader_rs.Request.Answer.{
  Tx, watch_tx, oneshot_tx, tx, cache_cb, answer, is_closed, is_made,
}

-- Channels may have been made since `w`; those of `w` are as they were.
pub record Extends (r : Runtime) (w w' : World r) : Type 0 where
  pub made_before : (t : Tx r) → is_made r w t ≡ true → is_made r w' t ≡ true
  pub closed_before : (t : Tx r) → is_made r w t ≡ true → is_closed r w' t ≡ is_closed r w t
  pub answer_before : (t : Tx r) → is_made r w t ≡ true → answer r w' t ≡ answer r w t
  pub cache_before : w'.cache ≡ w.cache

pub Extends-refl : (r : Runtime) (w : World r) → Extends r w w
Extends-refl r w = record {
  made_before = λ t m. m;
  closed_before = λ t m. refl;
  answer_before = λ t m. refl;
  cache_before = refl;
}

-- `req` is new in `w'`: its channel was not there, is open and holds no reply.
pub record Created (r : Runtime) (k : r.Key) (w : World r) (req : Request r) (w' : World r)
    : Type 0 where
  pub extends : Extends r w w'
  pub open extends use *
  pub keyed : key r req ≡ k
  pub uncached : cache_cb r req ≡ none
  pub fresh : is_made r w (tx r req) ≡ false
  pub made : is_made r w' (tx r req) ≡ true
  pub opened : is_closed r w' (tx r req) ≡ false
  pub unanswered : answer r w' (tx r req) ≡ none

module _ (r : Runtime) (k : r.Key) (w : World r) where
  pub new_oneshot-Created :
      let ((req, rx), w') = new_oneshot r k w in Created r k w req w' × (tx r req ≡ oneshot_tx rx)
  unfolding new_oneshot tx answer is_closed is_made key cache_cb
  new_oneshot-Created = (
    record {
      extends = record {
        made_before = elim [
          | watch_tx h ↦ λ m. m
          | oneshot_tx h ↦ r.oneshot.is_made-channel_ne tt w.oneshots h
        ];
        closed_before = elim [
          | watch_tx h ↦ λ m. refl
          | oneshot_tx h ↦ r.oneshot.is_closed-channel_ne tt w.oneshots h
        ];
        answer_before = elim [
          | watch_tx h ↦ λ m. refl
          | oneshot_tx h ↦ λ m. ground (arith, r.oneshot.view-channel_ne tt w.oneshots h m)
        ];
        cache_before = refl;
      };
      keyed = refl;
      uncached = refl;
      fresh = r.oneshot.channel_fresh tt w.oneshots;
      made = r.oneshot.is_made-channel tt w.oneshots;
      opened = r.oneshot.is_closed-channel tt w.oneshots;
      unanswered = ground (arith, r.oneshot.view-channel tt w.oneshots);
    },
    refl,
  )

  pub new_watch-Created :
      let ((req, rx), w') = new_watch r k w in Created r k w req w' × (tx r req ≡ watch_tx rx)
  unfolding new_watch tx answer is_closed is_made key cache_cb
  new_watch-Created = (
    record {
      extends = record {
        made_before = elim [
          | oneshot_tx h ↦ λ m. m
          | watch_tx h ↦ r.watch.is_made-channel_ne pending w.watches h
        ];
        closed_before = elim [
          | oneshot_tx h ↦ λ m. refl
          | watch_tx h ↦ r.watch.is_closed-channel_ne pending w.watches h
        ];
        answer_before = elim [
          | oneshot_tx h ↦ λ m. refl
          | watch_tx h ↦ λ m. ground (arith, r.watch.view-channel_ne pending w.watches h m)
        ];
        cache_before = refl;
      };
      keyed = refl;
      uncached = refl;
      fresh = r.watch.channel_fresh pending w.watches;
      made = r.watch.is_made-channel pending w.watches;
      opened = r.watch.is_closed-channel pending w.watches;
      unanswered = ground (arith, r.watch.view-channel pending w.watches);
    },
    refl,
  )

module _ (r : Runtime) where
  -- The caller drops its receivers.
  unfoldable pub drop_receivers : Tx r → World r → World r
  drop_receivers (watch_tx h) w = record w { watches = r.watch.close h w.watches }
  drop_receivers (oneshot_tx h) w = record w { oneshots = r.oneshot.close h w.oneshots }

  pub answer-drop_receivers :
      (t u : Tx r) (w : World r) → answer r (drop_receivers t w) u ≡ answer r w u
  unfolding answer drop_receivers
  answer-drop_receivers (watch_tx h) (watch_tx g) w =
      ground (arith, r.watch.view-close h g w.watches)
  answer-drop_receivers (oneshot_tx h) (oneshot_tx g) w =
      ground (arith, r.oneshot.view-close h g w.oneshots)
  answer-drop_receivers (oneshot_tx h) (watch_tx g) w = refl
  answer-drop_receivers (watch_tx h) (oneshot_tx g) w = refl

  pub is_made-drop_receivers :
      (t u : Tx r) (w : World r) → is_made r (drop_receivers t w) u ≡ is_made r w u
  unfolding is_made drop_receivers
  is_made-drop_receivers (watch_tx h) (watch_tx g) w = r.watch.is_made-close h g w.watches
  is_made-drop_receivers (oneshot_tx h) (oneshot_tx g) w = r.oneshot.is_made-close h g w.oneshots
  is_made-drop_receivers (oneshot_tx h) (watch_tx g) w = refl
  is_made-drop_receivers (watch_tx h) (oneshot_tx g) w = refl

  pub is_closed-drop_receivers :
      (t : Tx r) (w : World r) → is_closed r (drop_receivers t w) t ≡ true
  unfolding is_closed drop_receivers
  is_closed-drop_receivers (watch_tx h) w = r.watch.is_closed-close h w.watches
  is_closed-drop_receivers (oneshot_tx h) w = r.oneshot.is_closed-close h w.oneshots

  pub is_closed-drop_receivers_ne :
      (t u : Tx r) (w : World r) → t ≢ u → is_closed r (drop_receivers t w) u ≡ is_closed r w u
  unfolding is_closed drop_receivers
  is_closed-drop_receivers_ne (watch_tx h) (watch_tx g) w ne =
      r.watch.is_closed-close_ne h g w.watches (λ e. ne (ap watch_tx e))
  is_closed-drop_receivers_ne (oneshot_tx h) (oneshot_tx g) w ne =
      r.oneshot.is_closed-close_ne h g w.oneshots (λ e. ne (ap oneshot_tx e))
  is_closed-drop_receivers_ne (oneshot_tx h) (watch_tx g) w ne = refl
  is_closed-drop_receivers_ne (watch_tx h) (oneshot_tx g) w ne = refl
