-- ===== src/Redis/Connection/Commands.antt =====
-- What a command on a tracked connection comes to.
use channel_loader_rs.Base.{
  ℕ, suc, ◌+◌, ◌<◌, ◌*◌, ◌≡◌, refl, ◌≢◌, sym, subst, ◌⊎◌, inl, inr, true, false, Bool-cases, some,
  Result, Result-cases, ok, err, arith, ℕ_discrete, if_pos,
}
use channel_loader_rs.Redis.Connection.{
  ConnectionState, connecting, client_error, connection_error, connected, ConnectionManager, Answer,
  answers, fails, Errors, get_multiplexed_connection, establish_connection, conclude,
  req_packed_command, store, connect, store_and_notify,
}
use channel_loader_rs.Redis.Connection.Callers.{
  is_settled, Reported, get_multiplexed_connection-Reported,
}

module _ {ErrorKind Connection RedisError Value : Type 0} (errors : Errors ErrorKind RedisError)
    (client : Result (Unit {0}) ErrorKind) (send : Connection → Result Value RedisError)
    (others : ℕ → ConnectionManager ErrorKind Connection → ConnectionManager ErrorKind Connection)
    (meanwhile : ConnectionManager ErrorKind Connection
      → ConnectionManager ErrorKind Connection) where
  abbrev Manager : Type 0
  Manager = ConnectionManager ErrorKind Connection

  -- The manager connects again, or holds the error of the client that could not be opened.
  abbrev pub Replaced : Manager → Manager → Type 0
  Replaced m m' =
      ((client ≡ ok tt) × (m'.state ≡ connecting) × (m'.attempts ≡ m.attempts + 1))
      ⊎ ((kind : ErrorKind) × (client ≡ err kind) × (m'.state ≡ client_error kind))

  establish_connection_stale :
      (current : ℕ) (m : Manager) → m.version ≢ current → establish_connection client current m ≡ m
  unfolding establish_connection ℕ_discrete
  establish_connection_stale current m ne = ground arith

  establish_connection_fresh :
      (current : ℕ) (m : Manager)
      → m.version ≡ current
      → (current < (establish_connection client current m).version)
        × Replaced m (establish_connection client current m)
  unfolding establish_connection connect store_and_notify store
  establish_connection_fresh current m same =
      subst (λ m'. (current < m'.version) × Replaced m m')
        (sym (if_pos (ℕ_discrete m.version current) same (connect client m) m))
        (elim (Result-cases client) [
          | inl (u, e) ↦ rw e (omega (arith, same), inl (refl, refl, omega arith))
          | inr (kind, e) ↦ rw e (omega (arith, same), inr (kind, refl, refl))
        ])

  -- The outcome of a command: the kind of error that the manager was seen to hold, or what the
  -- connection that it was seen to hold gave; `given` is the manager as it
  -- was seen.
  pub data Concluded (given : Manager) (a : Answer Value RedisError) (m' : Manager) : Type 0 where
    unavailable :
        (kind : ErrorKind)
        → a ≡ fails (errors.of_kind kind)
        → (given.state ≡ client_error kind) ⊎ (given.state ≡ connection_error kind)
        → m' ≡ given
        → Concluded given a m'
    answered :
        (c : Connection) (value : Value)
        → given.state ≡ connected c
        → send c ≡ ok value
        → a ≡ answers value
        → m' ≡ meanwhile given
        → Concluded given a m'
    failed :
        (c : Connection) (e : RedisError)
        → given.state ≡ connected c
        → send c ≡ err e
        → errors.is_connection_dropped e ≡ false
        → a ≡ fails e
        → m' ≡ meanwhile given
        → Concluded given a m'
    -- The connection was dropped, and the state is still the one seen: it is replaced.
    replaced :
        (c : Connection) (e : RedisError)
        → given.state ≡ connected c
        → send c ≡ err e
        → errors.is_connection_dropped e ≡ true
        → (meanwhile given).version ≡ given.version
        → a ≡ fails e
        → given.version < m'.version
        → Replaced (meanwhile given) m'
        → Concluded given a m'
    -- It was dropped, and the state has been replaced by others.
    overtaken :
        (c : Connection) (e : RedisError)
        → given.state ≡ connected c
        → send c ≡ err e
        → errors.is_connection_dropped e ≡ true
        → (meanwhile given).version ≢ given.version
        → a ≡ fails e
        → m' ≡ meanwhile given
        → Concluded given a m'

  conclude-Concluded :
      (given : Manager) (c : Connection)
      → given.state ≡ connected c
      → let (a, m') = conclude errors client given.version (send c) (meanwhile given) in
        Concluded given a m'
  unfolding conclude
  conclude-Concluded given c up = elim (Result-cases (send c)) [
    | inl (value, e) ↦ rw e (answered c value up e refl refl)
    | inr (x, e) ↦ elim (Bool-cases (errors.is_connection_dropped x)) [
      | inr kept ↦ rw (e, kept) (failed c x up e kept refl refl)
      | inl lost ↦ elim (ℕ_discrete (meanwhile given).version given.version) [
        | no moved ↦
            rw (e, lost)
              (overtaken c x up e lost moved refl
                (establish_connection_stale given.version (meanwhile given) moved))
        | yes same ↦
            let (later, how) = establish_connection_fresh given.version (meanwhile given) same in
            rw (e, lost) (replaced c x up e lost same refl later how)
      ]
    ]
  ]

  -- If no look at the manager's state finds it idle or connecting, `req_packed_command` returns
  -- with fuel for two rounds or more and never reaches its `unreachable!()`. Where
  -- `get_multiplexed_connection` left the manager, it holds an error, whose kind is the command's
  -- error, or it holds a connection, whose answer is the command's. The command changes the
  -- manager only when that answer is a dropped connection and the state is still the one it was
  -- given, and then to Connecting with one more attempt, or to the error of the client that could
  -- not be opened.
  pub req_packed_command-Concluded :
      (settled : (i : ℕ) (m : Manager) → is_settled (others (2 * i) m).state ≡ true)
      → (fuel : ℕ) (m : Manager)
      → (result : Result (ConnectionState ErrorKind Connection) ErrorKind) × (given : Manager)
        × (a : Answer Value RedisError) × (m' : Manager) × (get_multiplexed_connection
              errors.is_io_error client others
              (suc (suc fuel))
              0
              m
            ≡ some (result, given))
        × (req_packed_command errors client send others meanwhile (suc (suc fuel)) m ≡ some (a, m'))
        × Concluded given a m'
  unfolding req_packed_command
  req_packed_command-Concluded settled fuel m =
      let (result, given, gives, held) =
        get_multiplexed_connection-Reported errors.is_io_error client others settled fuel m in
      let (a, m', runs, concluded) = go result given gives held in
      (result, given, a, m', gives, runs, concluded)
    where
      go :
          (result : Result (ConnectionState ErrorKind Connection) ErrorKind) (given : Manager)
          → get_multiplexed_connection errors.is_io_error client others (suc (suc fuel)) 0 m
            ≡ some (result, given)
          → Reported result given.state
          → (a : Answer Value RedisError) × (m' : Manager) × (req_packed_command errors client send
                others meanwhile
                (suc (suc fuel))
                m
              ≡ some (a, m'))
            × Concluded given a m'
      go (err kind) given gives held = (
        fails (errors.of_kind kind),
        given,
        rw (gives, req_packed_command) refl,
        unavailable kind refl held refl,
      )
      go (ok s) given gives (same, c, up) =
          let out = conclude errors client given.version (send c) (meanwhile given) in
          (
            out.0,
            out.1,
            rw (gives, same, up, req_packed_command) refl,
            conclude-Concluded given c up,
          )
