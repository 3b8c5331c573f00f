-- ===== src/Redis/Connection/Callers.antt =====
-- What a caller of `get_multiplexed_connection` is told.
use channel_loader_rs.Base.{
  ℕ, zero, suc, ◌*◌, ◌≡◌, refl, ◌⊎◌, inl, inr, Bool, true, false, Bool-cases, some, Result, ok, err,
  arith,
}
use channel_loader_rs.Redis.Connection.{
  ConnectionState, idle, connecting, client_error, connection_error, connected, ConnectionManager,
  establish, break_ok, break_err, round, get_multiplexed_connection, establish_connection,
}

module _ {ErrorKind Connection : Type 0} where
  -- Neither to be connected nor being connected.
  unfoldable pub is_settled : ConnectionState ErrorKind Connection → Bool
  is_settled idle = false
  is_settled connecting = false
  is_settled (client_error kind) = true
  is_settled (connection_error kind) = true
  is_settled (connected c) = true

  -- The result is the state that is connected, or the kind of the error that the state holds.
  abbrev pub Reported :
      Result (ConnectionState ErrorKind Connection) ErrorKind
      → ConnectionState ErrorKind Connection
      → Type 0
  Reported (ok s) held = (s ≡ held) × (c : Connection) × (held ≡ connected c)
  Reported (err kind) held = (held ≡ client_error kind) ⊎ (held ≡ connection_error kind)

  module _ (is_io_error : ErrorKind → Bool) where
    -- What a round comes to.
    data Turn (i : ℕ) (s : ConnectionState ErrorKind Connection) : Type 0 where
      gives : round is_io_error i s ≡ break_ok → Reported (ok s) s → Turn i s
      fails :
          (kind : ErrorKind)
          → round is_io_error i s ≡ break_err kind
          → Reported (err kind) s
          → Turn i s
      tries : round is_io_error i s ≡ establish → i ≡ 0 → Turn i s

    turn : (i : ℕ) (s : ConnectionState ErrorKind Connection) → is_settled s ≡ true → Turn i s
    unfolding is_settled round
    turn i idle e = absurd (ground arith)
    turn i connecting e = absurd (ground arith)
    turn i (client_error kind) e = fails kind refl (inl refl)
    turn zero (connection_error kind) e = elim (Bool-cases (is_io_error kind)) [
      | inl io ↦ tries (rw io refl) refl
      | inr other ↦ fails kind (rw other refl) (inr refl)
    ]
    turn (suc i) (connection_error kind) e = fails kind refl (inr refl)
    turn i (connected c) e = gives refl (refl, c, refl)

    module _ (client : Result (Unit {0}) ErrorKind)
        (others : ℕ
          → ConnectionManager ErrorKind Connection
          → ConnectionManager ErrorKind Connection)
        (settled : (i : ℕ) (m : ConnectionManager ErrorKind Connection)
          → is_settled (others (2 * i) m).state ≡ true) where
      abbrev Returns : ℕ → ℕ → ConnectionManager ErrorKind Connection → Type 0
      Returns fuel i m =
          (result : Result (ConnectionState ErrorKind Connection) ErrorKind)
          × (m' : ConnectionManager ErrorKind Connection) × (get_multiplexed_connection is_io_error
                client others fuel i m
              ≡ some (result, m'))
          × Reported result m'.state

      later-Returns :
          (fuel i : ℕ) (m : ConnectionManager ErrorKind Connection) → Returns (suc fuel) (suc i) m
      unfolding get_multiplexed_connection
      later-Returns fuel i m =
          elim (turn (suc i) (others (2 * suc i) m).state (settled (suc i) m)) [
            | gives e held ↦ (
              ok (others (2 * suc i) m).state,
              others (2 * suc i) m,
              rw (e, get_multiplexed_connection) refl,
              held,
            )
            | fails kind e held ↦
                (err kind, others (2 * suc i) m, rw (e, get_multiplexed_connection) refl, held)
            | tries e never ↦ absurd (omega arith)
          ]

      -- If no look at the manager's state finds it idle or connecting, a caller of
      -- `get_multiplexed_connection` returns with fuel for two rounds or more, whatever other
      -- tasks do meanwhile: with the state it saw, which is connected, or with the kind of the
      -- error that the state it saw holds.
      pub get_multiplexed_connection-Reported :
          (fuel : ℕ) (m : ConnectionManager ErrorKind Connection)
          → (result : Result (ConnectionState ErrorKind Connection) ErrorKind)
            × (m' : ConnectionManager ErrorKind Connection) × (get_multiplexed_connection
                  is_io_error client others
                  (suc (suc fuel))
                  0
                  m
                ≡ some (result, m'))
            × Reported result m'.state
      unfolding get_multiplexed_connection
      get_multiplexed_connection-Reported fuel m = elim (turn 0 (others 0 m).state (settled 0 m)) [
        | gives e held ↦
            (ok (others 0 m).state, others 0 m, rw (e, get_multiplexed_connection) refl, held)
        | fails kind e held ↦ (err kind, others 0 m, rw (e, get_multiplexed_connection) refl, held)
        | tries e never ↦
            let (result, m', e', held) =
              later-Returns fuel 0
                (establish_connection client (others 0 m).version (others 1 (others 0 m))) in
            (result, m', rw (e, get_multiplexed_connection) e', held)
      ]
