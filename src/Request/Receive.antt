-- ===== src/Request/Receive.antt =====
-- The receivers of request.rs: `OneshotReceiver::recv` and the loop of `WatchReceiver::recv`.
use channel_loader_rs.Base.{◌≡◌, ◌∙◌, subst, none, some, Result, ok, err, List, [], ◌∷◌, arith}
use channel_loader_rs.Request.{
  Runtime, Reply, World, LoadState, ready, pending, Poll, waiting, dropped, got, new_oneshot,
  new_watch, resolve,
}
use channel_loader_rs.Request.Answer.{watch_tx, oneshot_tx, answer, answer-resolve}
use channel_loader_rs.Request.Create.{new_oneshot-Created, new_watch-Created}

-- How far an await has come. `panics` is an `unwrap` of a RecvError.
pub data Outcome (A : Type 0) : Type 0 where
  waits panics : Outcome A
  returns : A → Outcome A

module _ (r : Runtime) where
  abbrev pub unwrap : Poll (Reply r) → Outcome (Reply r)
  unwrap waiting = waits
  unwrap dropped = panics
  unwrap (got reply) = returns reply

  unfoldable pub recv_oneshot : World r → r.oneshot.Handle → Outcome (Reply r)
  recv_oneshot w rx = unwrap (r.oneshot.view w.oneshots rx)

  abbrev pub borrow : LoadState r.Value r.Error → Outcome (Reply r) → Outcome (Reply r)
  borrow (ready reply) rest = returns reply
  borrow pending rest = rest

  -- The loop looks at the state first, then once after each `changed()`: the list holds the world
  -- at each wake-up, or the RecvError of a sender that is gone.
  unfoldable pub recv_watch :
      r.watch.Handle → World r → List (Result (World r) (Unit {0})) → Outcome (Reply r)
  recv_watch rx w [] = borrow (r.watch.view w.watches rx) waits
  recv_watch rx w (ok w' ∷ wakes) =
      let rest = recv_watch rx w' wakes in borrow (r.watch.view w.watches rx) rest
  recv_watch rx w (err e ∷ wakes) = borrow (r.watch.view w.watches rx) panics

  pub recv_oneshot-answer :
      (w : World r) (rx : r.oneshot.Handle) (v : Reply r)
      → answer r w (oneshot_tx rx) ≡ some v
      → recv_oneshot w rx ≡ returns v
  unfolding answer recv_oneshot
  recv_oneshot-answer w rx v h = ground arith

  pub recv_watch-answer :
      (w : World r) (rx : r.watch.Handle) (v : Reply r) (wakes : List (Result (World r) (Unit {0})))
      → answer r w (watch_tx rx) ≡ some v
      → recv_watch rx w wakes ≡ returns v
  unfolding answer recv_watch
  recv_watch-answer w rx v [] h = ground arith
  recv_watch-answer w rx v (ok w' ∷ wakes) h = ground arith
  recv_watch-answer w rx v (err e ∷ wakes) h = ground arith

  recv_watch-wake :
      (w : World r) (rx : r.watch.Handle) (w' : World r)
      (wakes : List (Result (World r) (Unit {0})))
      → answer r w (watch_tx rx) ≡ none
      → recv_watch rx w (ok w' ∷ wakes) ≡ recv_watch rx w' wakes
  unfolding answer recv_watch
  recv_watch-wake w rx w' wakes h = ground arith

  recv_watch_unanswered :
      (w : World r) (rx : r.watch.Handle)
      → answer r w (watch_tx rx) ≡ none
      → recv_watch rx w [] ≡ waits
  unfolding answer recv_watch
  recv_watch_unanswered w rx h = ground arith

  -- The receiver of a new oneshot request waits, and after the request is resolved it returns the
  -- reply given, for every key, reply and state of the channels.
  recv_oneshot-resolve :
      (k : r.Key) (v : Reply r) (w : World r)
      → let ((req, rx), w') = new_oneshot r k w in
        (recv_oneshot w' rx ≡ waits) × (recv_oneshot (resolve r req v w') rx ≡ returns v)
  unfolding recv_oneshot new_oneshot
  recv_oneshot-resolve k v w =
      let ((req, rx), w') = new_oneshot r k w in
      let (c, e) = new_oneshot-Created r k w in
      (
        ground (arith, r.oneshot.view-channel tt w.oneshots),
        recv_oneshot-answer (resolve r req v w') rx v (
            subst (λ t. answer r (resolve r req v w') t ≡ some v) e
              (answer-resolve r req v w' c.opened)),
      )

  -- The receiver of a new watch request waits. After the request is resolved it returns the reply
  -- given, both when it was waiting and is woken, and when it is awaited only afterwards.
  pub recv_watch-resolve :
      (k : r.Key) (v : Reply r) (w : World r)
      → let ((req, rx), w') = new_watch r k w in
        let w'' = resolve r req v w' in
        (recv_watch rx w' [] ≡ waits)
        × (recv_watch rx w' (ok w'' ∷ []) ≡ returns v)
        × (recv_watch rx w'' [] ≡ returns v)
  recv_watch-resolve k v w =
      let ((req, rx), w') = new_watch r k w in
      let (c, e) = new_watch-Created r k w in
      let w'' = resolve r req v w' in
      let before : answer r w' (watch_tx rx) ≡ none =
        subst (λ t. answer r w' t ≡ none) e c.unanswered in
      let after : answer r w'' (watch_tx rx) ≡ some v =
        subst (λ t. answer r w'' t ≡ some v) e (answer-resolve r req v w' c.opened) in
      (
        recv_watch_unanswered w' rx before,
        recv_watch-wake w' rx w'' [] before ∙ recv_watch-answer w'' rx v [] after,
        recv_watch-answer w'' rx v [] after,
      )
