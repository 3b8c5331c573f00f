-- ===== src/Redis/Invalidator/Callers.antt =====
-- deque-loader/src/redis/connection.rs: `CacheInvalidator::client_id`, by which tasks get the client id.
use channel_loader_rs.Base.{
  ℕ, zero, suc, ◌*◌, ◌≡◌, refl, Option, none, some, Result, ok, err, Bool, true, false, Bool-cases,
  inl, inr, if◌then◌else◌, ◌&&◌,
}
use channel_loader_rs.Redis.Connection.{
  ConnectionState, idle, connecting, client_error, connection_error, connected, ConnectionManager,
  round, establish_connection, get_multiplexed_connection,
}

abbrev is_zero : ℕ → Bool
is_zero zero = true
is_zero (suc i) = false

module _ {ErrorKind ClientId : Type 0} (is_io_error : ErrorKind → Bool)
    (client : Result (Unit {0}) ErrorKind)
    (others : ℕ → ConnectionManager ErrorKind ClientId → ConnectionManager ErrorKind ClientId) where
  -- `others` is as in `get_multiplexed_connection`.
  unfoldable pub client_id :
      ℕ
      → ℕ
      → ConnectionManager ErrorKind ClientId
      → Option (Result ClientId ErrorKind × ConnectionManager ErrorKind ClientId)
  unfolding establish_connection
  client_id zero i m = none
  client_id (suc fuel) i m =
      let loaded = others (2 * i) m in
      let met = others (suc (2 * i)) loaded in
      let established = client_id fuel (suc i) (establish_connection client loaded.version met) in
      let notified = client_id fuel (suc i) met in
      elim loaded.state [
        | idle ↦ established
        | connecting ↦ notified
        | client_error kind ↦ some (err kind, loaded)
        | connection_error kind ↦
            if is_io_error kind && is_zero i then established else some (err kind, loaded)
        | connected id ↦ some (ok id, loaded)
      ]

  -- The outcomes are the same, the state standing for the client id that it holds.
  pub data Same
      : Option (
          Result (ConnectionState ErrorKind ClientId) ErrorKind
          × ConnectionManager ErrorKind ClientId)
        → Option (Result ClientId ErrorKind × ConnectionManager ErrorKind ClientId)
        → Type 0 where
    no_fuel : Same none none
    same_error :
        (kind : ErrorKind) (m : ConnectionManager ErrorKind ClientId)
        → Same (some (err kind, m)) (some (err kind, m))
    same_connection :
        (state : ConnectionState ErrorKind ClientId) (id : ClientId)
        (m : ConnectionManager ErrorKind ClientId)
        → state ≡ connected id
        → Same (some (ok state, m)) (some (ok id, m))

  -- For all states, fuel and doings of other tasks, `client_id` comes to what
  -- `get_multiplexed_connection` would come to on the same states: both need more fuel, or both
  -- give the same error, or the one gives the client id that the state given by the other holds;
  -- and both leave the same state behind.
  client_id-Same :
      (fuel i : ℕ) (m : ConnectionManager ErrorKind ClientId)
      → Same (get_multiplexed_connection is_io_error client others fuel i m) (client_id fuel i m)
  unfolding get_multiplexed_connection client_id round
  client_id-Same zero i m = no_fuel
  client_id-Same (suc fuel) i m =
      let loaded = others (2 * i) m in
      let met = others (suc (2 * i)) loaded in
      let established =
        client_id-Same fuel (suc i) (establish_connection client loaded.version met) in
      let notified = client_id-Same fuel (suc i) met in
      go i ((others (2 * i) m).state) refl established notified
    where
      go :
          (i : ℕ) (s : ConnectionState ErrorKind ClientId)
          → (others (2 * i) m).state ≡ s
          → Same
              (get_multiplexed_connection is_io_error client others fuel (suc i) (
                establish_connection client
                  (others (2 * i) m).version
                  (others (suc (2 * i)) (others (2 * i) m))))
              (client_id fuel (suc i) (
                establish_connection client
                  (others (2 * i) m).version
                  (others (suc (2 * i)) (others (2 * i) m))))
          → Same
              (get_multiplexed_connection is_io_error client others fuel
                (suc i)
                (others (suc (2 * i)) (others (2 * i) m)))
              (client_id fuel (suc i) (others (suc (2 * i)) (others (2 * i) m)))
          → Same
              (get_multiplexed_connection is_io_error client others (suc fuel) i m)
              (client_id (suc fuel) i m)
      go i idle e established notified = rw (e, get_multiplexed_connection, client_id) established
      go i connecting e established notified =
          rw (e, get_multiplexed_connection, client_id) notified
      go i (client_error kind) e established notified =
          rw (e, get_multiplexed_connection, client_id) (same_error kind (others (2 * i) m))
      go i (connected id) e established notified =
          rw (e, get_multiplexed_connection, client_id)
            (same_connection (others (2 * i) m).state id (others (2 * i) m) e)
      go zero (connection_error kind) e established notified =
          elim (Bool-cases (is_io_error kind)) [
            | inl io ↦ rw (e, io, get_multiplexed_connection, client_id) established
            | inr other ↦
                rw (e, other, get_multiplexed_connection, client_id)
                  (same_error kind (others (2 * zero) m))
          ]
      go (suc i) (connection_error kind) e established notified =
          elim (Bool-cases (is_io_error kind)) [
            | inl io ↦
                rw (e, io, get_multiplexed_connection, client_id)
                  (same_error kind (others (2 * suc i) m))
            | inr other ↦
                rw (e, other, get_multiplexed_connection, client_id)
                  (same_error kind (others (2 * suc i) m))
          ]
