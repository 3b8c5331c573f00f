-- ===== src/Redis/Invalidator/Tasks.antt =====
-- The state of the invalidator and its tasks.
use channel_loader_rs.Base.{
  ℕ, suc, ◌-◌, ◌<◌, ◌≡◌, refl, sym, subst, ◌⊎◌, inl, inr, List, [], ◌∷◌, ◌++◌, Result, ok, err,
  Bool, true, if_pos, if_neg, ℕ_discrete, arith,
}
use mathlib.Core.List.{append-nil}
use channel_loader_rs.Redis.Connection.{
  ConnectionState, connection_error, connected, ConnectionManager, store, store_and_notify,
  establish_connection, connect,
}
use channel_loader_rs.Redis.Invalidator.{
  dialing, announcing, listening, forwarding, tell, forwarded, panic, Invalidator, dials, ended,
  establish_invalidator, dialed, Step, load, swap, dial, announce, listen, message, end, Reach,
  start, step,
}
use channel_loader_rs.Redis.Invalidator.Fits.{
  Fits, fits_idle, fits_connecting, fits_client_error, fits_connection_error, fits_announcing,
  Fits-only, forwards, tells, listens_again, panics, told_more, listens, ended-Fits, is_stale,
  round-is_stale, is_stale-no_tasks,
}

module _ {ErrorKind ClientId : Type 0} where
  abbrev pub SeenOne : ConnectionManager ErrorKind ClientId → ℕ → Type 0
  SeenOne m v = (v < m.version) ⊎ ((v ≡ m.version) × (is_stale m.state ≡ true))

  abbrev pub SeenAll : ℕ → ConnectionState ErrorKind ClientId → List ℕ → Type 0
  SeenAll version state [] = Unit {0}
  SeenAll version state (v ∷ vs) =
      ((v < version) ⊎ ((v ≡ version) × (is_stale state ≡ true))) × SeenAll version state vs

  -- Who has seen the present state may replace it.
  abbrev pub Seen : ConnectionManager ErrorKind ClientId → List ℕ → Type 0
  Seen m vs = SeenAll m.version m.state vs

  pub Seen-remove :
      (m : ConnectionManager ErrorKind ClientId) (before after : List ℕ) (v : ℕ)
      → Seen m (before ++ v ∷ after)
      → SeenOne m v × Seen m (before ++ after)
  Seen-remove m [] after v h = h
  Seen-remove m (x ∷ before) after v (one, h) =
      let (this, rest) = Seen-remove m before after v h in (this, (one, rest))

  Seen-later :
      (m m' : ConnectionManager ErrorKind ClientId) (vs : List ℕ)
      → m.version < m'.version
      → Seen m vs
      → Seen m' vs
  Seen-later m m' [] later h = tt
  Seen-later m m' (v ∷ vs) later (inl old, h) = (inl (omega arith), Seen-later m m' vs later h)
  Seen-later m m' (v ∷ vs) later (inr (now, stale), h) =
      (inl (omega arith), Seen-later m m' vs later h)

  connect-Fits :
      {Key : Type 0} (client : Result (Unit {0}) ErrorKind)
      (m : ConnectionManager ErrorKind ClientId)
      → Fits {Key = Key} (connect client m).state (dials ((connect client m).attempts - m.attempts))
        × (m.version < (connect client m).version)
  unfolding connect store store_and_notify dials
  connect-Fits (ok c) m = (rw (one m.attempts) fits_connecting, omega arith)
    where
      one : (n : ℕ) → suc n - n ≡ 1
      one n = omega arith
  connect-Fits (err kind) m = (rw (none_more m.attempts) (fits_client_error kind), omega arith)
    where
      none_more : (n : ℕ) → n - n ≡ 0
      none_more n = omega arith

  abbrev pub FitsSeen : {Key : Type 0} → Invalidator ErrorKind ClientId Key → Type 0
  FitsSeen s = Fits s.manager.state s.tasks × Seen s.manager s.seen

  establish-FitsSeen :
      {Key : Type 0} (client : Result (Unit {0}) ErrorKind) (current : ℕ)
      (s : Invalidator ErrorKind ClientId Key)
      → SeenOne s.manager current
      → FitsSeen s
      → FitsSeen (establish_invalidator client current s)
  unfolding establish_invalidator establish_connection dials
  establish-FitsSeen {Key} client current s one (fits, seen) =
      elim (ℕ_discrete s.manager.version current) [
        | no late ↦
            subst
              (λ m.
                Fits m.state (dials (m.attempts - s.manager.attempts) ++ s.tasks) × Seen m s.seen)
              (sym (
                if_neg (ℕ_discrete s.manager.version current) late (connect client s.manager)
                  s.manager))
              (rw (same s.manager.attempts) fits, seen)
        | yes now ↦
            subst
              (λ m.
                Fits m.state (dials (m.attempts - s.manager.attempts) ++ s.tasks) × Seen m s.seen)
              (sym (
                if_pos (ℕ_discrete s.manager.version current) now (connect client s.manager)
                  s.manager))
              (let (more, later) = connect-Fits {Key = Key} client s.manager in
                (
                  subst
                      (λ ts.
                        Fits (connect client s.manager).state
                          (dials ((connect client s.manager).attempts - s.manager.attempts) ++ ts))
                      (sym (is_stale-no_tasks fits (fresh one now)))
                      (subst (Fits (connect client s.manager).state)
                        (sym (
                          append-nil
                            (dials ((connect client s.manager).attempts - s.manager.attempts))))
                        more),
                  Seen-later s.manager (connect client s.manager) s.seen later seen,
                ))
      ]
    where
      same : (n : ℕ) → n - n ≡ 0
      same n = omega arith

      fresh :
          SeenOne s.manager current → s.manager.version ≡ current → is_stale s.manager.state ≡ true
      fresh (inl old) now = absurd (omega arith)
      fresh (inr (e, stale)) now = stale

  module _ {Key : Type 0} (is_io_error : ErrorKind → Bool) (client : Result (Unit {0}) ErrorKind)
      (observers : ℕ) where
    Step-FitsSeen :
        {s u : Invalidator ErrorKind ClientId Key}
        → Step is_io_error client observers s u
        → FitsSeen s
        → FitsSeen u
    unfolding dialed store store_and_notify
    Step-FitsSeen {s} (load i e) (fits, seen) =
        (fits, (inr (refl, round-is_stale is_io_error i s.manager.state e), seen))
    Step-FitsSeen {s} (swap before after current e) (fits, seen) =
        let (one, rest) =
          Seen-remove s.manager before after current (subst (Seen s.manager) e seen) in
        establish-FitsSeen client current (record s { seen = before ++ after }) one (fits, rest)
    Step-FitsSeen {s} (dial before after (ok id) e) (fits, seen) =
        let (b, a, here) = Fits-only fits before after dialing e in
        (
          rw (b, a) (fits_announcing id 0),
          Seen-later s.manager (store (connected id) s.manager) s.seen (omega arith) seen,
        )
    Step-FitsSeen {s} (dial before after (err kind) e) (fits, seen) =
        let (b, a, here) = Fits-only fits before after dialing e in
        (
          rw (b, a) (fits_connection_error kind),
          Seen-later s.manager (store_and_notify (connection_error kind) s.manager) s.seen
              (omega arith) seen,
        )
    Step-FitsSeen {s} (announce before after id told e small) (fits, seen) =
        let (b, a, here) = Fits-only fits before after (announcing id told) e in
        (rw (b, a) (told_more here), seen)
    Step-FitsSeen {s} (listen before after id e) (fits, seen) =
        let (b, a, here) = Fits-only fits before after (announcing id observers) e in
        (rw (b, a) (listens here), seen)
    Step-FitsSeen {s} (message before after id keys e) (fits, seen) =
        let (b, a, here) = Fits-only fits before after (listening id) e in
        (rw (b, a) (forwards keys here), seen)
    Step-FitsSeen {s} (tell before after id keys told e small) (fits, seen) =
        let (b, a, here) = Fits-only fits before after (forwarding id keys told) e in
        (rw (b, a) (tells here), seen)
    Step-FitsSeen {s} (forwarded before after id keys e) (fits, seen) =
        let (b, a, here) = Fits-only fits before after (forwarding id keys observers) e in
        (rw (b, a) (listens_again here), seen)
    Step-FitsSeen {s} (panic before after id e) (fits, seen) =
        let (b, a, here) = Fits-only fits before after (listening id) e in
        (rw (b, a) (panics here), seen)
    Step-FitsSeen {s} (end before after id result e) (fits, seen) =
        let (b, a, here) = Fits-only fits before after (listening id) e in
        (
          rw (b, a) (ended-Fits result),
          Seen-later s.manager (store_and_notify (ended result) s.manager) s.seen (omega arith)
              seen,
        )

    pub Reach-FitsSeen :
        {s : Invalidator ErrorKind ClientId Key} → Reach is_io_error client observers s → FitsSeen s
    Reach-FitsSeen start = (fits_idle, tt)
    Reach-FitsSeen (step p x) = Step-FitsSeen x (Reach-FitsSeen p)

    -- In every reachable state of the cache invalidator, for any order of its callers, attempts,
    -- messages and failures, the state and the tasks fit: Connecting has exactly one task that
    -- connects; Connected has exactly one task, of that connection's client id, which announces
    -- it, awaits messages, forwards one, or has panicked at one; and Idle and both errors have
    -- none.
    pub Reach-Fits :
        (s : Invalidator ErrorKind ClientId Key)
        → Reach is_io_error client observers s
        → Fits s.manager.state s.tasks
    Reach-Fits s reached = (Reach-FitsSeen reached).0
