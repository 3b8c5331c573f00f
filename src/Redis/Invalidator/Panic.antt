-- ===== src/Redis/Invalidator/Panic.antt =====
-- deque-loader/src/redis/connection.rs: the cache invalidator after a message that cannot be decoded.
use channel_loader_rs.Base.{
  ℕ, ◌-◌, ◌<◌, ◌≡◌, refl, sym, ◌∙◌, ap, subst, inl, inr, List, [], ◌∷◌, ◌++◌, Result, Bool, if_neg,
  ℕ_discrete, arith, single_split,
}
use channel_loader_rs.Redis.Connection.{ConnectionState, connected, establish_connection, connect}
use channel_loader_rs.Redis.Invalidator.{
  Task, dialing, announcing, listening, forwarding, panicked, Invalidator, dials,
  establish_invalidator, Step, load, swap, dial, announce, listen, message, tell, forwarded, panic,
  end, Reach, step,
}
use channel_loader_rs.Redis.Invalidator.Fits.{Fits, fits_panicked, is_stale}
use channel_loader_rs.Redis.Invalidator.Tasks.{FitsSeen, Seen, Seen-remove, Reach-FitsSeen}

module _ {ClientId Key : Type 0} where
  -- The other tasks are none that could have panicked.
  only_panicked :
      {id : ClientId} {tasks : List (Task ClientId Key)} (before after : List (Task ClientId Key))
      (t : Task ClientId Key)
      → tasks ≡ panicked id ∷ []
      → tasks ≡ before ++ t ∷ after
      → panicked id ≡ t
  only_panicked before after t here e = (single_split before after (sym here ∙ e)).2

module _ {ErrorKind ClientId Key : Type 0} where
  panicked_connected :
      {state : ConnectionState ErrorKind ClientId} {id : ClientId}
      → Fits {Key = Key} state (panicked id ∷ [])
      → state ≡ connected id
  panicked_connected (fits_panicked id) = refl

  -- Nobody who has seen an earlier state replaces this one.
  establish_late :
      (client : Result (Unit {0}) ErrorKind) (current : ℕ) (s : Invalidator ErrorKind ClientId Key)
      → current < s.manager.version
      → ((establish_invalidator client current s).manager ≡ s.manager)
        × ((establish_invalidator client current s).tasks ≡ s.tasks)
  unfolding establish_invalidator establish_connection dials
  establish_late client current s late =
      let same : establish_connection client current s.manager ≡ s.manager =
        if_neg (ℕ_discrete s.manager.version current) (λ e. absurd (omega (arith, late, e)))
          (connect client s.manager) s.manager in
      (
        same,
        subst (λ m. dials (m.attempts - s.manager.attempts) ++ s.tasks ≡ s.tasks) (sym same)
            (rw (none_more s.manager.attempts) refl),
      )
    where
      none_more : (n : ℕ) → n - n ≡ 0
      none_more n = omega arith

  module _ (is_io_error : ErrorKind → Bool) (client : Result (Unit {0}) ErrorKind)
      (observers : ℕ) where
    -- What comes later than `s`.
    pub data Later (s : Invalidator ErrorKind ClientId Key)
        : Invalidator ErrorKind ClientId Key → Type 0 where
      now : Later s s
      next :
          {u v : Invalidator ErrorKind ClientId Key}
          → Later s u
          → Step is_io_error client observers u v
          → Later s v

    -- The state, the tasks and the calls stay.
    abbrev Stays : (s u : Invalidator ErrorKind ClientId Key) → Type 0
    Stays s u = (u.manager ≡ s.manager) × (u.tasks ≡ s.tasks) × (u.calls ≡ s.calls)

    Step-Stays :
        {s u : Invalidator ErrorKind ClientId Key} {id : ClientId}
        → FitsSeen s
        → s.tasks ≡ panicked id ∷ []
        → Step is_io_error client observers s u
        → Stays s u
    unfolding establish_invalidator
    Step-Stays inv here (load i e) = (refl, refl, refl)
    Step-Stays {s} (fits, seen) here (swap before after current e) =
        let (one, rest) =
          Seen-remove s.manager before after current (subst (Seen s.manager) e seen) in
        elim one [
          | inl old ↦
              let (m, ts) =
                establish_late client current (record s { seen = before ++ after }) old in
              (m, ts, refl)
          | inr (same, stale) ↦ absurd (
              cc (stale, ap is_stale (panicked_connected (subst (Fits s.manager.state) here fits))))
        ]
    Step-Stays inv here (dial before after result e) =
        absurd (cc (only_panicked before after dialing here e))
    Step-Stays inv here (announce before after id told e small) =
        absurd (cc (only_panicked before after (announcing id told) here e))
    Step-Stays inv here (listen before after id e) =
        absurd (cc (only_panicked before after (announcing id observers) here e))
    Step-Stays inv here (message before after id keys e) =
        absurd (cc (only_panicked before after (listening id) here e))
    Step-Stays inv here (tell before after id keys told e small) =
        absurd (cc (only_panicked before after (forwarding id keys told) here e))
    Step-Stays inv here (forwarded before after id keys e) =
        absurd (cc (only_panicked before after (forwarding id keys observers) here e))
    Step-Stays inv here (panic before after id e) =
        absurd (cc (only_panicked before after (listening id) here e))
    Step-Stays inv here (end before after id result e) =
        absurd (cc (only_panicked before after (listening id) here e))

    Later-Reach :
        {s u : Invalidator ErrorKind ClientId Key}
        → Reach is_io_error client observers s
        → Later s u
        → Reach is_io_error client observers u
    Later-Reach p now = p
    Later-Reach p (next l x) = step (Later-Reach p l) x

    Later-Stays :
        {s u : Invalidator ErrorKind ClientId Key} {id : ClientId}
        → Reach is_io_error client observers s
        → s.tasks ≡ panicked id ∷ []
        → Later s u
        → Stays s u
    Later-Stays p here now = (refl, refl, refl)
    Later-Stays p here (next l x) =
        let (m, ts, cs) = Later-Stays p here l in
        let (m', ts', cs') =
          Step-Stays (Reach-FitsSeen is_io_error client observers (Later-Reach p l)) (ts ∙ here)
            x in
        (m' ∙ m, ts' ∙ ts, cs' ∙ cs)

    -- When the task of the cache invalidator has panicked at a message that cannot be decoded,
    -- its state is Connected, and in every later state, whatever its callers do, it is still that
    -- same Connected, nobody has been woken, no attempt has begun, and no observer has been told
    -- anything more.
    pub Later-panicked :
        (s u : Invalidator ErrorKind ClientId Key) (id : ClientId)
        → Reach is_io_error client observers s
        → s.tasks ≡ panicked id ∷ []
        → Later s u
        → (s.manager.state ≡ connected id) × (u.manager ≡ s.manager) × (u.calls ≡ s.calls)
    Later-panicked s u id p here l =
        let (m, ts, cs) = Later-Stays p here l in
        (
          panicked_connected
              (subst (Fits s.manager.state) here (Reach-FitsSeen is_io_error client observers p).0),
          m,
          cs,
        )
