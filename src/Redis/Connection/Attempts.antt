-- ===== src/Redis/Connection/Attempts.antt =====
-- Who connects: of all that find the manager in one state, at most one spawns an attempt.
use channel_loader_rs.Base.{
  ℕ, ◌+◌, ◌-◌, ◌≤◌, ◌<◌, ◌≡◌, refl, List, [], ◌∷◌, Result, ite, ℕ_discrete, arith,
}
use channel_loader_rs.Redis.Connection.{
  ConnectionState, ConnectionManager, store_and_notify, establish_connection, connect, store,
}

-- What the tasks do to a manager: store a state, or call `establish_connection` for the state with
-- a version.
pub data Event (ErrorKind Connection : Type 0) : Type 0 where
  stores : ConnectionState ErrorKind Connection → Event ErrorKind Connection
  establishes : ℕ → Event ErrorKind Connection

module _ {ErrorKind Connection : Type 0} where
  module _ (client : Result (Unit {0}) ErrorKind) where
    unfoldable pub happen :
        Event ErrorKind Connection
        → ConnectionManager ErrorKind Connection
        → ConnectionManager ErrorKind Connection
    unfolding store_and_notify establish_connection
    happen (stores s) m = store_and_notify s m
    happen (establishes current) m = establish_connection client current m

    -- The attempts spawned by the calls for the state with version `v`.
    unfoldable pub attempts_for :
        ℕ → List (Event ErrorKind Connection) → ConnectionManager ErrorKind Connection → ℕ
    unfolding happen ℕ_discrete
    attempts_for v [] m = 0
    attempts_for v (stores s ∷ es) m = attempts_for v es (happen (stores s) m)
    attempts_for v (establishes current ∷ es) m =
        let m' = happen (establishes current) m in
        ite (ℕ_discrete current v) (m'.attempts - m.attempts) 0 + attempts_for v es m'

    establish_connection-version :
        (current : ℕ) (m : ConnectionManager ErrorKind Connection)
        → m.version + ite (ℕ_discrete m.version current) 1 0
          ≤ (establish_connection client current m).version
    unfolding establish_connection connect store_and_notify store ℕ_discrete
    establish_connection-version current m = ground arith

    establish_connection-attempts :
        (current : ℕ) (m : ConnectionManager ErrorKind Connection)
        → (establish_connection client current m).attempts
          ≤ m.attempts + ite (ℕ_discrete m.version current) 1 0
    unfolding establish_connection connect store_and_notify store ℕ_discrete
    establish_connection-attempts current m = ground arith

    attempts_for_later :
        (v : ℕ) (es : List (Event ErrorKind Connection))
        (m : ConnectionManager ErrorKind Connection)
        → v < m.version
        → attempts_for v es m ≡ 0
    unfolding attempts_for happen store_and_notify store ℕ_discrete
    attempts_for_later v [] m later = refl
    attempts_for_later v (stores s ∷ es) m later =
        attempts_for_later v es (store_and_notify s m) (omega arith)
    attempts_for_later v (establishes current ∷ es) m later =
        let more = establish_connection-version current m in
        let few = establish_connection-attempts current m in
        let rest = attempts_for_later v es (establish_connection client current m) (ground arith) in
        ground arith

    -- Of all calls of `establish_connection` for one state of a connection manager, however they
    -- interleave with stores and with calls for other states, at most one spawns an attempt to
    -- connect.
    pub attempts_for-le :
        (v : ℕ) (es : List (Event ErrorKind Connection))
        (m : ConnectionManager ErrorKind Connection)
        → attempts_for v es m ≤ 1
    unfolding attempts_for happen store_and_notify store ℕ_discrete
    attempts_for-le v [] m = omega arith
    attempts_for-le v (stores s ∷ es) m = attempts_for-le v es (store_and_notify s m)
    attempts_for-le v (establishes current ∷ es) m =
        let more = establish_connection-version current m in
        let few = establish_connection-attempts current m in
        let rest = attempts_for-le v es (establish_connection client current m) in
        elim (ℕ_discrete current v) [
          | no other ↦ ground arith
          | yes same ↦ elim (ℕ_discrete m.version current) [
            | no late ↦ ground arith
            | yes now ↦
                let none_left =
                  attempts_for_later v es (establish_connection client current m) (ground arith) in
                ground arith
          ]
        ]
