-- ===== src/Redis/Invalidator/History.antt =====
-- The observers in every run of the invalidator.
use channel_loader_rs.Base.{
  ℕ, zero, suc, ◌-◌, ◌≡◌, refl, subst, List, [], ◌∷◌, ◌++◌, Result, ok, err, Bool,
}
use channel_loader_rs.Redis.Connection.{ConnectionState, establish_connection}
use channel_loader_rs.Redis.Invalidator.{
  Task, dialing, announcing, listening, forwarding, tell, forwarded, panic, Call, Invalidator,
  dials, establish_invalidator, dialed, Step, load, swap, dial, announce, listen, message, end,
  Reach, start, step,
}
use channel_loader_rs.Redis.Invalidator.Fits.{Fits, Fits-only}
use channel_loader_rs.Redis.Invalidator.Tasks.{Reach-Fits}
use channel_loader_rs.Redis.Invalidator.Told.{
  Told, told_idle, dialed-Told, failed-Told, announce-Told, listen-Told, message-Told, tell-Told,
  forwarded-Told, panic-Told, ended-Told, dials-Told,
}
use channel_loader_rs.Redis.Invalidator.Views.{view, opens}

module _ {ErrorKind ClientId Key : Type 0} (is_io_error : ErrorKind → Bool)
    (client : Result (Unit {0}) ErrorKind) (observers : ℕ) where
  -- Where there is a task in the place of `t`, it is the only one.
  alone :
      {s : Invalidator ErrorKind ClientId Key} (before after : List (Task ClientId Key))
      (t : Task ClientId Key)
      → Reach is_io_error client observers s
      → s.tasks ≡ before ++ t ∷ after
      → (before ≡ []) × (after ≡ []) × (s.tasks ≡ t ∷ [])
  alone {s} before after t p e =
      let (b, a, fits) = Fits-only (Reach-Fits is_io_error client observers s p) before after t e in
      (b, a, rw (e, b, a) refl)

  more-Told :
      (k : ℕ) {calls : List (Call Key)} (ts : List (Task ClientId Key))
      {state : ConnectionState ErrorKind ClientId}
      → Fits state (dials k ++ ts)
      → Told observers calls ts
      → Told observers calls (dials k ++ ts)
  unfolding dials
  more-Told zero ts fits t = t
  more-Told (suc zero) {calls} ts fits t =
      let (b, none_else, fits') = Fits-only fits [] ts dialing refl in
      rw none_else (dials-Told observers (subst (Told observers calls) none_else t))
  more-Told (suc (suc k)) ts fits t =
      let (b, none_else, fits') = Fits-only fits [] (dialing ∷ dials k ++ ts) dialing refl in
      absurd (cc)

  Step-Told :
      {s u : Invalidator ErrorKind ClientId Key}
      → Reach is_io_error client observers s
      → Step is_io_error client observers s u
      → Told observers s.calls s.tasks
      → Told observers u.calls u.tasks
  unfolding dialed establish_invalidator
  Step-Told p (load i e) t = t
  Step-Told {s} p (swap before after current e) t =
      more-Told ((establish_connection client current s.manager).attempts - s.manager.attempts)
        s.tasks (Reach-Fits is_io_error client observers _ (step p (swap before after current e))) t
  Step-Told {s} p (dial before after (ok id) e) t =
      let (b, a, only) = alone before after dialing p e in
      rw (b, a) (dialed-Told observers id (subst (Told observers s.calls) only t))
  Step-Told {s} p (dial before after (err kind) e) t =
      let (b, a, only) = alone before after dialing p e in
      rw (b, a) (failed-Told observers (subst (Told observers s.calls) only t))
  Step-Told {s} p (announce before after id told e small) t =
      let (b, a, only) = alone before after (announcing id told) p e in
      rw (b, a) (announce-Told observers (subst (Told observers s.calls) only t))
  Step-Told {s} p (listen before after id e) t =
      let (b, a, only) = alone before after (announcing id observers) p e in
      rw (b, a) (listen-Told observers (subst (Told observers s.calls) only t))
  Step-Told {s} p (message before after id keys e) t =
      let (b, a, only) = alone before after (listening id) p e in
      rw (b, a) (message-Told observers keys (subst (Told observers s.calls) only t))
  Step-Told {s} p (tell before after id keys told e small) t =
      let (b, a, only) = alone before after (forwarding id keys told) p e in
      rw (b, a) (tell-Told observers (subst (Told observers s.calls) only t))
  Step-Told {s} p (forwarded before after id keys e) t =
      let (b, a, only) = alone before after (forwarding id keys observers) p e in
      rw (b, a) (forwarded-Told observers (subst (Told observers s.calls) only t))
  Step-Told {s} p (panic before after id e) t =
      let (b, a, only) = alone before after (listening id) p e in
      rw (b, a) (panic-Told observers (subst (Told observers s.calls) only t))
  Step-Told {s} p (end before after id result e) t =
      let (b, a, only) = alone before after (listening id) p e in
      rw (b, a) (ended-Told observers (subst (Told observers s.calls) only t))

  -- In every reachable state of the cache invalidator, all observers have been told one and the
  -- same sequence of invalidations, which begins with `invalidate_cache`; only while a connection
  -- is announced or a message forwarded, the first observers have been told that one
  -- `invalidate_cache`, or that message's keys, more than the others; and while the invalidator
  -- awaits messages or forwards one, or when it has panicked, the sequence is not empty.
  pub Reach-Told :
      (s : Invalidator ErrorKind ClientId Key)
      → Reach is_io_error client observers s
      → Told observers s.calls s.tasks
  unfolding view opens
  Reach-Told s start = told_idle [] refl (λ o small. refl)
  Reach-Told s (step p x) = Step-Told p x (Reach-Told _ p)
