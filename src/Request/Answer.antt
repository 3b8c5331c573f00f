-- ===== src/Request/Answer.antt =====
-- What the caller behind a request sees of it, and how `resolve` changes that.
use channel_loader_rs.Base.{◌≡◌, ◌≢◌, ap, Bool, true, false, Option, none, some, arith}
use channel_loader_rs.Request.{
  Runtime, Reply, CacheCb, World, Request, watch, oneshot, LoadState, ready, pending, Poll, waiting,
  dropped, got, call_cache_cb, resolve, key,
}

-- The sender of a request, of either kind.
pub data Tx (r : Runtime) : Type 0 where
  watch_tx : r.watch.Handle → Tx r
  oneshot_tx : r.oneshot.Handle → Tx r

module _ (r : Runtime) where
  unfoldable pub Tx-discrete : Discrete (Tx r)
  Tx-discrete = hlevel (r.watch.Handle-discrete, r.oneshot.Handle-discrete)

  unfoldable pub tx : Request r → Tx r
  tx (watch k h cb) = watch_tx h
  tx (oneshot k h cb) = oneshot_tx h

  abbrev pub poll_answer : Poll (Reply r) → Option (Reply r)
  poll_answer (got reply) = some reply
  poll_answer waiting = none
  poll_answer dropped = none

  abbrev pub state_answer : LoadState r.Value r.Error → Option (Reply r)
  state_answer (ready reply) = some reply
  state_answer pending = none

  unfoldable pub cache_cb : Request r → Option (CacheCb r)
  cache_cb (watch k h cb) = cb
  cache_cb (oneshot k h cb) = cb

  -- The reply that the receivers of a sender can read.
  unfoldable pub answer : World r → Tx r → Option (Reply r)
  answer w (watch_tx h) = state_answer (r.watch.view w.watches h)
  answer w (oneshot_tx h) = poll_answer (r.oneshot.view w.oneshots h)

  unfoldable pub is_closed : World r → Tx r → Bool
  is_closed w (watch_tx h) = r.watch.is_closed w.watches h
  is_closed w (oneshot_tx h) = r.oneshot.is_closed w.oneshots h

  unfoldable pub is_made : World r → Tx r → Bool
  is_made w (watch_tx h) = r.watch.is_made w.watches h
  is_made w (oneshot_tx h) = r.oneshot.is_made w.oneshots h

  watches-call_cache_cb :
      (k : r.Key) (cb : Option (CacheCb r)) (v : Reply r) (w : World r)
      → (call_cache_cb r k cb v w).watches ≡ w.watches
  unfolding call_cache_cb
  watches-call_cache_cb k cb v w = ground arith

  oneshots-call_cache_cb :
      (k : r.Key) (cb : Option (CacheCb r)) (v : Reply r) (w : World r)
      → (call_cache_cb r k cb v w).oneshots ≡ w.oneshots
  unfolding call_cache_cb
  oneshots-call_cache_cb k cb v w = ground arith

  pub answer-resolve :
      (req : Request r) (v : Reply r) (w : World r)
      → is_closed w (tx req) ≡ false
      → answer (resolve r req v w) (tx req) ≡ some v
  unfolding answer is_closed tx resolve
  answer-resolve (watch k h cb) v w open_tx =
      ground (arith, watches-call_cache_cb k cb v w, r.watch.view-send h (ready v) w.watches)
  answer-resolve (oneshot k h cb) v w open_tx =
      ground (arith, oneshots-call_cache_cb k cb v w, r.oneshot.view-send h v w.oneshots)

  pub answer-resolve_ne :
      (req : Request r) (v : Reply r) (w : World r) (t : Tx r)
      → tx req ≢ t
      → answer (resolve r req v w) t ≡ answer w t
  unfolding answer tx resolve
  answer-resolve_ne (watch k h cb) v w (watch_tx g) other = ground (
    arith,
    watches-call_cache_cb k cb v w,
    r.watch.view-send_ne h g (ready v) w.watches (λ e. other (ap watch_tx e)),
  )
  answer-resolve_ne (watch k h cb) v w (oneshot_tx g) other =
      ground (arith, oneshots-call_cache_cb k cb v w)
  answer-resolve_ne (oneshot k h cb) v w (oneshot_tx g) other = ground (
    arith,
    oneshots-call_cache_cb k cb v w,
    r.oneshot.view-send_ne h g v w.oneshots (λ e. other (ap oneshot_tx e)),
  )
  answer-resolve_ne (oneshot k h cb) v w (watch_tx g) other =
      ground (arith, watches-call_cache_cb k cb v w)

  pub is_closed-resolve :
      (req : Request r) (v : Reply r) (w : World r) (t : Tx r)
      → is_closed (resolve r req v w) t ≡ is_closed w t
  unfolding is_closed resolve
  is_closed-resolve (watch k h cb) v w (watch_tx g) =
      ground (arith, watches-call_cache_cb k cb v w, r.watch.is_closed-send h g (ready v) w.watches)
  is_closed-resolve (watch k h cb) v w (oneshot_tx g) =
      ground (arith, oneshots-call_cache_cb k cb v w)
  is_closed-resolve (oneshot k h cb) v w (oneshot_tx g) =
      ground (arith, oneshots-call_cache_cb k cb v w, r.oneshot.is_closed-send h g v w.oneshots)
  is_closed-resolve (oneshot k h cb) v w (watch_tx g) =
      ground (arith, watches-call_cache_cb k cb v w)

  pub is_made-resolve :
      (req : Request r) (v : Reply r) (w : World r) (t : Tx r)
      → is_made (resolve r req v w) t ≡ is_made w t
  unfolding is_made resolve
  is_made-resolve (watch k h cb) v w (watch_tx g) =
      ground (arith, watches-call_cache_cb k cb v w, r.watch.is_made-send h g (ready v) w.watches)
  is_made-resolve (watch k h cb) v w (oneshot_tx g) =
      ground (arith, oneshots-call_cache_cb k cb v w)
  is_made-resolve (oneshot k h cb) v w (oneshot_tx g) =
      ground (arith, oneshots-call_cache_cb k cb v w, r.oneshot.is_made-send h g v w.oneshots)
  is_made-resolve (oneshot k h cb) v w (watch_tx g) = ground (arith, watches-call_cache_cb k cb v w)

  -- A request whose receivers are gone runs its callback, and nothing is sent.
  pub answer-resolve_closed :
      (req : Request r) (v : Reply r) (w : World r) (t : Tx r)
      → is_closed w (tx req) ≡ true
      → answer (resolve r req v w) t ≡ answer w t
  unfolding answer is_closed tx resolve
  answer-resolve_closed (watch k h cb) v w (watch_tx g) shut =
      ground (arith, watches-call_cache_cb k cb v w)
  answer-resolve_closed (watch k h cb) v w (oneshot_tx g) shut =
      ground (arith, oneshots-call_cache_cb k cb v w)
  answer-resolve_closed (oneshot k h cb) v w (oneshot_tx g) shut =
      ground (arith, oneshots-call_cache_cb k cb v w)
  answer-resolve_closed (oneshot k h cb) v w (watch_tx g) shut =
      ground (arith, watches-call_cache_cb k cb v w)

  pub cache-resolve :
      (req : Request r) (v : Reply r) (w : World r)
      → (resolve r req v w).cache ≡ (call_cache_cb r (key r req) (cache_cb req) v w).cache
  unfolding resolve key cache_cb
  cache-resolve (watch k h cb) v w = ground arith
  cache-resolve (oneshot k h cb) v w = ground arith
