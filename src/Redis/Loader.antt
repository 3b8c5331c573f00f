-- ===== src/Redis/Loader.antt =====
-- deque-loader/src/redis/loader.rs: the handler of a `RedisLoader`.
use channel_loader_rs.Base.{List, ◌++◌, ◌≡◌, refl, some, none, Result, HashMap, map_err}
use channel_loader_rs.External.{SwapQueue, Order}
use channel_loader_rs.Request.{Runtime, Request, Keyed, runtime_of}
use channel_loader_rs.Task.{
  PendingAssignment, load_batch, no_assignment, completion_receipt, keys, resolve_job,
  get_assignment, from_requests,
}
use channel_loader_rs.Handler.{Handled, TaskHandler}

-- `RedisLoader::load` at one time with the tracked connection, the kind of a RedisError, and the order of the
-- set of keys.
pub record RedisLoader {ErrorKind : Type 0} (t : Keyed ErrorKind) (Connection RedisError : Type 0)
    : Type 0 where
  pub kind : RedisError → ErrorKind
  pub get_tracked_connection : Connection
  pub load : Connection → List t.Key → Result (HashMap t.Key t.Value) RedisError
  pub order : Order t.Key

module _ {ErrorKind : Type 0} (t : Keyed ErrorKind) (Connection RedisError : Type 0) where
  abbrev pub redis_runtime : Runtime
  redis_runtime = runtime_of t

  abbrev pub results_for :
      RedisLoader t Connection RedisError → List t.Key → Result (HashMap t.Key t.Value) ErrorKind
  results_for o keys = map_err o.kind (o.load o.get_tracked_connection keys)

  module _ (q : SwapQueue (Request redis_runtime)) where
    unfoldable pub handle_task :
        RedisLoader t Connection RedisError
        → PendingAssignment redis_runtime q
        → q.Worker
        → Handled redis_runtime q
    unfolding get_assignment from_requests resolve_job
    handle_task o task queue =
        let (assignment, queue') = get_assignment redis_runtime q task queue in
        elim assignment [
          | load_batch batch ↦
              let keys = keys redis_runtime o.order batch in
              let conn = o.get_tracked_connection in
              let result = map_err o.kind (o.load conn keys) in
              let (receipt, job) = resolve_job redis_runtime batch result in
              record { receipt = receipt; job = some job; queue = queue' }
          | no_assignment receipt ↦ record { receipt = receipt; job = none; queue = queue' }
        ]

    -- `handle_task` gives one job, with what the load of the keys of all requests gave.
    pub handle_task_lem :
        (o : RedisLoader t Connection RedisError) (task : PendingAssignment redis_runtime q)
        (queue : q.Worker)
        → let (batch, queue') = q.take task.stealer queue in
          let requests = task.requests ++ batch in
          handle_task o task queue ≡ record {
            receipt = completion_receipt;
            job = some (record {
              requests = requests;
              results = results_for o (keys redis_runtime o.order (record { requests = requests }));
            });
            queue = queue';
          }
    unfolding handle_task
    handle_task_lem o task queue = refl

    abbrev pub redis_handler : TaskHandler redis_runtime q
    redis_handler = record {
      Oracle = RedisLoader t Connection RedisError;
      key_order = λ o. o.order;
      results_for = results_for;
      handle_task = handle_task;
      handle_task_lem = handle_task_lem;
    }
