-- ===== src/Redis/Connection/Machine.antt =====
-- deque-loader/src/redis/connection.rs: a `ConnectionManager` with its callers and the tasks that connect, in any
-- order of their steps.
pub mod Pending
pub mod Missed
use channel_loader_rs.Base.{
  ℕ, suc, ◌+◌, ◌-◌, ◌≡◌, List, [], ◌∷◌, ◌++◌, map, Result, ok, err, Bool, ite, ℕ_discrete,
}
use channel_loader_rs.Redis.Connection.{
  ConnectionState, idle, connecting, connection_error, connected, ConnectionManager, Round,
  establish, wait, break_ok, break_err, round, store_and_notify, establish_connection,
}

-- Where a caller of `get_multiplexed_connection` is, in round `i` of its loop: at the load, at the
-- swap with the version it loaded, past a load that gave Connecting, or awaiting a notification.
-- A caller is among those that `notify_waiters` wakes once it awaits.
pub data Caller (ErrorKind Connection : Type 0) : Type 0 where
  looking : ℕ → Caller ErrorKind Connection
  swapping : ℕ → ℕ → Caller ErrorKind Connection
  turning : ℕ → Caller ErrorKind Connection
  waiting : ℕ → Caller ErrorKind Connection
  gave : Result (ConnectionState ErrorKind Connection) ErrorKind → Caller ErrorKind Connection

-- `joining` counts the tasks that await both connections in `start_new_connection`, `redirecting` those that
-- await `set_tracking_redirect`.
pub record Machine (ErrorKind Connection : Type 0) : Type 0 where
  pub manager : ConnectionManager ErrorKind Connection
  pub callers : List (Caller ErrorKind Connection)
  pub joining : ℕ
  pub redirecting : ℕ

module _ {ErrorKind Connection : Type 0} where
  -- `notify_waiters`
  unfoldable pub wake : Caller ErrorKind Connection → Caller ErrorKind Connection
  wake (looking i) = looking i
  wake (swapping i v) = swapping i v
  wake (turning i) = turning i
  wake (waiting i) = looking (suc i)
  wake (gave result) = gave result

  unfoldable pub after_load :
      ℕ → Round ErrorKind → ConnectionManager ErrorKind Connection → Caller ErrorKind Connection
  after_load i establish m = swapping i m.version
  after_load i wait m = turning i
  after_load i break_ok m = gave (ok m.state)
  after_load i (break_err kind) m = gave (err kind)

  -- The manager has been changed to `m`: what it spawned is pending, and if it notified, its
  -- waiters are awake.
  unfoldable pub settle :
      ConnectionManager ErrorKind Connection
      → Machine ErrorKind Connection
      → Machine ErrorKind Connection
  unfolding wake ℕ_discrete
  settle m s = record s {
    manager = m;
    callers = ite (ℕ_discrete m.wakes s.manager.wakes) s.callers (map wake s.callers);
    joining = s.joining + (m.attempts - s.manager.attempts);
  }

  -- `try_join!` has ended: the connection is stored, or the error.
  unfoldable pub joined :
      Result Connection ErrorKind → Machine ErrorKind Connection → Machine ErrorKind Connection
  unfolding settle store_and_notify
  joined (ok c) s = record (settle (store_and_notify (connected c) s.manager) s) {
    redirecting = suc s.redirecting;
  }
  joined (err kind) s = settle (store_and_notify (connection_error kind) s.manager) s

  -- `set_tracking_redirect` has ended.
  unfoldable pub redirected :
      Result (Unit {0}) ErrorKind → Machine ErrorKind Connection → Machine ErrorKind Connection
  unfolding settle store_and_notify
  redirected (ok u) s = s
  redirected (err kind) s = settle (store_and_notify (connection_error kind) s.manager) s

  module _ (is_io_error : ErrorKind → Bool) (client : Result (Unit {0}) ErrorKind) where
    pub data Step (s : Machine ErrorKind Connection) : Machine ErrorKind Connection → Type 0 where
      arrive : Step s (record s { callers = s.callers ++ looking 0 ∷ [] })
      load :
          (before after : List (Caller ErrorKind Connection)) (i : ℕ)
          → s.callers ≡ before ++ looking i ∷ after
          → Step s (record s {
            callers =
                before ++ after_load i (round is_io_error i s.manager.state) s.manager ∷ after;
          })
      swap :
          (before after : List (Caller ErrorKind Connection)) (i current : ℕ)
          → s.callers ≡ before ++ swapping i current ∷ after
          → Step s (
              settle
                (establish_connection client current s.manager)
                (record s { callers = before ++ looking (suc i) ∷ after }))
      register :
          (before after : List (Caller ErrorKind Connection)) (i : ℕ)
          → s.callers ≡ before ++ turning i ∷ after
          → Step s (record s { callers = before ++ waiting i ∷ after })
      join :
          (n : ℕ) (result : Result Connection ErrorKind)
          → s.joining ≡ suc n
          → Step s (joined result (record s { joining = n }))
      redirect :
          (n : ℕ) (result : Result (Unit {0}) ErrorKind)
          → s.redirecting ≡ suc n
          → Step s (redirected result (record s { redirecting = n }))
      -- A command has found its connection dropped, and the state is still the one it was given.
      lose :
          (c : Connection)
          → s.manager.state ≡ connected c
          → Step s (settle (establish_connection client s.manager.version s.manager) s)

    abbrev pub begin : Machine ErrorKind Connection
    begin = record {
      manager = record { state = idle; version = 0; attempts = 0; wakes = 0 };
      callers = [];
      joining = 0;
      redirecting = 0;
    }

    pub data Reach : Machine ErrorKind Connection → Type 0 where
      start : Reach begin
      step : {s u : Machine ErrorKind Connection} → Reach s → Step s u → Reach u
