-- ===== src/Redis/Connection.antt =====
-- deque-loader/src/redis/connection.rs: the state of a `ConnectionManager`, and how its callers get a connection.
pub mod Attempts
pub mod Callers
pub mod Commands
pub mod Machine
use channel_loader_rs.Base.{
  ℕ, zero, suc, ◌+◌, ◌*◌, Option, none, some, Result, ok, err, Bool, true, false, if◌then◌else◌,
  List, [], ◌∷◌, ite, ℕ_discrete,
}

pub data ConnectionState (ErrorKind Connection : Type 0) : Type 0 where
  idle connecting : ConnectionState ErrorKind Connection
  client_error connection_error : ErrorKind → ConnectionState ErrorKind Connection
  connected : Connection → ConnectionState ErrorKind Connection

-- The state's Arc is identified by the number of stores before it: pointers that callers hold are
-- not used again. `attempts` counts the tasks spawned to connect, and `wakes` the
-- notifications. The invalidator is in Redis/Invalidator.
pub record ConnectionManager (ErrorKind Connection : Type 0) : Type 0 where
  pub state : ConnectionState ErrorKind Connection
  pub version : ℕ
  pub attempts : ℕ
  pub wakes : ℕ

-- What a caller does in a round of its loop.
pub data Round (ErrorKind : Type 0) : Type 0 where
  establish wait break_ok : Round ErrorKind
  break_err : ErrorKind → Round ErrorKind

module _ {ErrorKind Connection : Type 0} where
  unfoldable pub store :
      ConnectionState ErrorKind Connection
      → ConnectionManager ErrorKind Connection
      → ConnectionManager ErrorKind Connection
  store s m = record m { state = s; version = suc m.version }

  unfoldable pub store_and_notify :
      ConnectionState ErrorKind Connection
      → ConnectionManager ErrorKind Connection
      → ConnectionManager ErrorKind Connection
  unfolding store
  store_and_notify s m = record (store s m) { wakes = suc m.wakes }

  -- After a swap that succeeded. `client` is CLIENT: whether a client could be opened.
  unfoldable pub connect :
      Result (Unit {0}) ErrorKind
      → ConnectionManager ErrorKind Connection
      → ConnectionManager ErrorKind Connection
  unfolding store store_and_notify
  connect (ok c) m = record (store connecting m) { attempts = suc m.attempts }
  connect (err kind) m = store_and_notify (client_error kind) (store connecting m)

  -- The state is replaced if it is still the one that the caller has seen.
  unfoldable pub establish_connection :
      Result (Unit {0}) ErrorKind
      → ℕ
      → ConnectionManager ErrorKind Connection
      → ConnectionManager ErrorKind Connection
  unfolding connect ℕ_discrete
  establish_connection client current m = ite (ℕ_discrete m.version current) (connect client m) m

  module _ (is_io_error : ErrorKind → Bool) where
    unfoldable pub round : ℕ → ConnectionState ErrorKind Connection → Round ErrorKind
    round i idle = establish
    round i connecting = wait
    round i (client_error kind) = break_err kind
    round zero (connection_error kind) = if is_io_error kind then establish else break_err kind
    round (suc i) (connection_error kind) = break_err kind
    round i (connected c) = break_ok

    -- `others` is what other tasks do before a load of the state (at even points), and between the
    -- load and the swap or during the wait (at odd ones).
    unfoldable pub get_multiplexed_connection :
        Result (Unit {0}) ErrorKind
        → (ℕ → ConnectionManager ErrorKind Connection → ConnectionManager ErrorKind Connection)
        → ℕ
        → ℕ
        → ConnectionManager ErrorKind Connection
        → Option (
            Result (ConnectionState ErrorKind Connection) ErrorKind
            × ConnectionManager ErrorKind Connection)
    unfolding round establish_connection
    get_multiplexed_connection client others zero i m = none
    get_multiplexed_connection client others (suc fuel) i m =
        let loaded = others (2 * i) m in
        let met = others (suc (2 * i)) loaded in
        elim (round i loaded.state) [
          | establish ↦
              get_multiplexed_connection client others fuel (suc i)
                (establish_connection client loaded.version met)
          | wait ↦ get_multiplexed_connection client others fuel (suc i) met
          | break_ok ↦ some (ok loaded.state, loaded)
          | break_err kind ↦ some (err kind, loaded)
        ]

-- What a command comes to; `panics` is its `unreachable!()`.
pub data Answer (Value RedisError : Type 0) : Type 0 where
  answers : Value → Answer Value RedisError
  fails : RedisError → Answer Value RedisError
  panics : Answer Value RedisError

-- The redis crate's errors, as far as the commands read them.
pub record Errors (ErrorKind RedisError : Type 0) : Type 0 where
  pub of_kind : ErrorKind → RedisError
  pub is_io_error : ErrorKind → Bool
  pub is_connection_dropped : RedisError → Bool

module _ {ErrorKind Connection RedisError Value : Type 0}
    (errors : Errors ErrorKind RedisError) where
  -- After the command was sent: a caller that finds its connection dropped replaces the state that
  -- it was given, if nobody else has.
  unfoldable pub conclude :
      Result (Unit {0}) ErrorKind
      → ℕ
      → Result Value RedisError
      → ConnectionManager ErrorKind Connection
      → Answer Value RedisError × ConnectionManager ErrorKind Connection
  unfolding establish_connection
  conclude client given (ok value) m = (answers value, m)
  conclude client given (err e) m =
      (fails e, if errors.is_connection_dropped e then establish_connection client given m else m)

  -- `req_packed_command`, and `req_packed_commands`, which differs in what is sent: `send` is the
  -- answer of a connection. `meanwhile` is what other tasks do until it comes.
  unfoldable pub req_packed_command :
      Result (Unit {0}) ErrorKind
      → (Connection → Result Value RedisError)
      → (ℕ → ConnectionManager ErrorKind Connection → ConnectionManager ErrorKind Connection)
      → (ConnectionManager ErrorKind Connection → ConnectionManager ErrorKind Connection)
      → ℕ
      → ConnectionManager ErrorKind Connection
      → Option (Answer Value RedisError × ConnectionManager ErrorKind Connection)
  unfolding get_multiplexed_connection conclude
  req_packed_command client send others meanwhile fuel m =
      elim (get_multiplexed_connection errors.is_io_error client others fuel 0 m) [
        | none ↦ none
        | some (err kind, m') ↦ some (fails (errors.of_kind kind), m')
        | some (ok (connected conn), m') ↦
            some (conclude client m'.version (send conn) (meanwhile m'))
        | some (ok idle, m') ↦ some (panics, m')
        | some (ok connecting, m') ↦ some (panics, m')
        | some (ok (client_error kind), m') ↦ some (panics, m')
        | some (ok (connection_error kind), m') ↦ some (panics, m')
      ]
