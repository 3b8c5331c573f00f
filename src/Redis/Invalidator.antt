-- ===== src/Redis/Invalidator.antt =====
-- deque-loader/src/redis/connection.rs: the `CacheInvalidator`, the tasks of its connection, and the observers.
pub mod Fits
pub mod Tasks
pub mod Views
pub mod Told
pub mod History
pub mod Panic
pub mod Callers
use channel_loader_rs.Base.{ℕ, zero, suc, ◌-◌, ◌≡◌, ◌<◌, List, [], ◌∷◌, ◌++◌, Result, ok, err, Bool}
use channel_loader_rs.Redis.Connection.{
  ConnectionState, idle, connecting, connection_error, connected, ConnectionManager, establish,
  round, store, store_and_notify, establish_connection,
}

-- A task of `establish_connection`: it awaits its connection and then the client id, it has stored
-- the id and told so many observers that their caches are invalid, it awaits messages, it has a
-- message's keys and told so many observers of them, or it has panicked and does nothing more.
pub data Task (ClientId Key : Type 0) : Type 0 where
  dialing : Task ClientId Key
  announcing : ClientId → ℕ → Task ClientId Key
  listening : ClientId → Task ClientId Key
  forwarding : ClientId → List Key → ℕ → Task ClientId Key
  panicked : ClientId → Task ClientId Key

-- What an observer, by its place in the inventory, has been told.
pub data Call (Key : Type 0) : Type 0 where
  invalidate_cache : ℕ → Call Key
  invalidate_keys : ℕ → List Key → Call Key

-- An `InvalidatorState` is a `ConnectionState` of a client id, and `establish_connection` and
-- `store_and_notify` are those of a `ConnectionManager`. `seen` holds the version of the state
-- for each caller of `client_id` that is about to establish a connection.
pub record Invalidator (ErrorKind ClientId Key : Type 0) : Type 0 where
  pub manager : ConnectionManager ErrorKind ClientId
  pub seen : List ℕ
  pub tasks : List (Task ClientId Key)
  pub calls : List (Call Key)

unfoldable pub dials : {ClientId Key : Type 0} → ℕ → List (Task ClientId Key)
dials zero = []
dials (suc n) = dialing ∷ dials n

-- The state after the subscription.
unfoldable pub ended :
    {ErrorKind ClientId : Type 0} → Result (Unit {0}) ErrorKind → ConnectionState ErrorKind ClientId
ended (ok u) = idle
ended (err kind) = connection_error kind

module _ {ErrorKind ClientId Key : Type 0} where
  -- `CacheInvalidator::establish_connection`
  unfoldable pub establish_invalidator :
      Result (Unit {0}) ErrorKind
      → ℕ
      → Invalidator ErrorKind ClientId Key
      → Invalidator ErrorKind ClientId Key
  unfolding establish_connection dials
  establish_invalidator client current s =
      let m = establish_connection client current s.manager in
      record s { manager = m; tasks = dials (m.attempts - s.manager.attempts) ++ s.tasks }

  -- The task between `before` and `after` has its connection and client id, or an error.
  unfoldable pub dialed :
      Result ClientId ErrorKind
      → List (Task ClientId Key)
      → List (Task ClientId Key)
      → Invalidator ErrorKind ClientId Key
      → Invalidator ErrorKind ClientId Key
  unfolding store store_and_notify
  dialed (ok id) before after s = record s {
    manager = store (connected id) s.manager;
    tasks = before ++ announcing id 0 ∷ after;
  }
  dialed (err kind) before after s = record s {
    manager = store_and_notify (connection_error kind) s.manager;
    tasks = before ++ after;
  }

  module _ (is_io_error : ErrorKind → Bool) (client : Result (Unit {0}) ErrorKind)
      (observers : ℕ) where
    pub data Step (s : Invalidator ErrorKind ClientId Key)
        : Invalidator ErrorKind ClientId Key → Type 0 where
      load :
          (i : ℕ)
          → round is_io_error i s.manager.state ≡ establish
          → Step s (record s { seen = s.manager.version ∷ s.seen })
      swap :
          (before after : List ℕ) (current : ℕ)
          → s.seen ≡ before ++ current ∷ after
          → Step s (establish_invalidator client current (record s { seen = before ++ after }))
      dial :
          (before after : List (Task ClientId Key)) (result : Result ClientId ErrorKind)
          → s.tasks ≡ before ++ dialing ∷ after
          → Step s (dialed result before after s)
      announce :
          (before after : List (Task ClientId Key)) (id : ClientId) (told : ℕ)
          → s.tasks ≡ before ++ announcing id told ∷ after
          → told < observers
          → Step s (record s {
            tasks = before ++ announcing id (suc told) ∷ after;
            calls = s.calls ++ invalidate_cache told ∷ [];
          })
      listen :
          (before after : List (Task ClientId Key)) (id : ClientId)
          → s.tasks ≡ before ++ announcing id observers ∷ after
          → Step s (record s {
            manager = record s.manager { wakes = suc s.manager.wakes };
            tasks = before ++ listening id ∷ after;
          })
      message :
          (before after : List (Task ClientId Key)) (id : ClientId) (keys : List Key)
          → s.tasks ≡ before ++ listening id ∷ after
          → Step s (record s { tasks = before ++ forwarding id keys 0 ∷ after })
      tell :
          (before after : List (Task ClientId Key)) (id : ClientId) (keys : List Key) (told : ℕ)
          → s.tasks ≡ before ++ forwarding id keys told ∷ after
          → told < observers
          → Step s (record s {
            tasks = before ++ forwarding id keys (suc told) ∷ after;
            calls = s.calls ++ invalidate_keys told keys ∷ [];
          })
      forwarded :
          (before after : List (Task ClientId Key)) (id : ClientId) (keys : List Key)
          → s.tasks ≡ before ++ forwarding id keys observers ∷ after
          → Step s (record s { tasks = before ++ listening id ∷ after })
      -- The message that came cannot be decoded, and `unwrap` panics.
      panic :
          (before after : List (Task ClientId Key)) (id : ClientId)
          → s.tasks ≡ before ++ listening id ∷ after
          → Step s (record s { tasks = before ++ panicked id ∷ after })
      end :
          (before after : List (Task ClientId Key)) (id : ClientId)
          (result : Result (Unit {0}) ErrorKind)
          → s.tasks ≡ before ++ listening id ∷ after
          → Step s (record s {
            manager = store_and_notify (ended result) s.manager;
            tasks = before ++ after;
          })

    abbrev pub begin : Invalidator ErrorKind ClientId Key
    begin = record {
      manager = record { state = idle; version = 0; attempts = 0; wakes = 0 };
      seen = [];
      tasks = [];
      calls = [];
    }

    pub data Reach : Invalidator ErrorKind ClientId Key → Type 0 where
      start : Reach begin
      step : {s u : Invalidator ErrorKind ClientId Key} → Reach s → Step s u → Reach u
