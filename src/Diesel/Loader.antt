-- ===== src/Diesel/Loader.antt =====
-- deque-loader/src/diesel/loader.rs: the handler of a `DieselLoader`.
use channel_loader_rs.Base.{
  List, ◌++◌, ◌≡◌, ap, arith, some, none, Result, ok, err, HashMap, map_err,
}
use channel_loader_rs.External.{SwapQueue, Order}
use channel_loader_rs.Request.{Runtime, Request, Keyed, runtime_of}
use channel_loader_rs.Task.{
  PendingAssignment, LoadBatch, load_batch, no_assignment, CompletionReceipt, completion_receipt,
  ResolveJob, keys, resolve_job, get_assignment, from_requests,
}
use channel_loader_rs.Handler.{Handled, TaskHandler}
use channel_loader_rs.Diesel.Error.{DieselError, SimpleDieselError, from_diesel_error}

-- `get_connection` and `DieselLoader::load` at one time, and the order of the set of keys.
-- `into` is the conversion of the error of `get_connection`.
pub record DieselLoader (t : Keyed SimpleDieselError) (Connection NoConnection : Type 0)
    : Type 0 where
  pub into : NoConnection → SimpleDieselError
  pub get_connection : Result Connection NoConnection
  pub load : Connection → List t.Key → Result (HashMap t.Key t.Value) DieselError
  pub order : Order t.Key

module _ (t : Keyed SimpleDieselError) (Connection NoConnection : Type 0) where
  abbrev pub diesel_runtime : Runtime
  diesel_runtime = runtime_of t

  -- The results that the requests of a batch are resolved with.
  unfoldable pub results_for :
      DieselLoader t Connection NoConnection
      → List t.Key
      → Result (HashMap t.Key t.Value) SimpleDieselError
  unfolding from_diesel_error
  results_for o keys = elim o.get_connection [
    | ok conn ↦ map_err from_diesel_error (o.load conn keys)
    | err e ↦ err (o.into e)
  ]

  -- The closure given to `spawn_blocking`, for a batch.
  unfoldable pub load_blocking :
      DieselLoader t Connection NoConnection
      → LoadBatch diesel_runtime
      → CompletionReceipt × ResolveJob diesel_runtime
  unfolding resolve_job
  load_blocking o batch = elim o.get_connection [
    | ok conn ↦
        let result = map_err from_diesel_error (o.load conn (keys diesel_runtime o.order batch)) in
        resolve_job diesel_runtime batch result
    | err e ↦ resolve_job diesel_runtime batch (err (o.into e))
  ]

  load_blocking_lem :
      (o : DieselLoader t Connection NoConnection) (batch : LoadBatch diesel_runtime)
      → load_blocking o batch ≡ (
        completion_receipt,
        record {
          requests = batch.requests;
          results = results_for o (keys diesel_runtime o.order batch);
        },
      )
  unfolding load_blocking results_for
  load_blocking_lem o batch = ground arith

  module _ (q : SwapQueue (Request diesel_runtime)) where
    unfoldable pub handle_task :
        DieselLoader t Connection NoConnection
        → PendingAssignment diesel_runtime q
        → q.Worker
        → Handled diesel_runtime q
    unfolding get_assignment from_requests
    handle_task o task queue =
        let (assignment, queue') = get_assignment diesel_runtime q task queue in
        elim assignment [
          | load_batch batch ↦
              let (receipt, job) = load_blocking o batch in
              record { receipt = receipt; job = some job; queue = queue' }
          | no_assignment receipt ↦ record { receipt = receipt; job = none; queue = queue' }
        ]

    -- `handle_task` gives one job, with what the load of the keys of all requests gave.
    pub handle_task_lem :
        (o : DieselLoader t Connection NoConnection) (task : PendingAssignment diesel_runtime q)
        (queue : q.Worker)
        → let (batch, queue') = q.take task.stealer queue in
          let requests = task.requests ++ batch in
          handle_task o task queue ≡ record {
            receipt = completion_receipt;
            job = some (record {
              requests = requests;
              results =
                  results_for o (keys diesel_runtime o.order (record { requests = requests }));
            });
            queue = queue';
          }
    unfolding handle_task
    handle_task_lem o task queue =
        let (batch, queue') = q.take task.stealer queue in
        ap (λ p. record { receipt = p.0; job = some p.1; queue = queue' })
          (load_blocking_lem o (record { requests = task.requests ++ batch }))

    abbrev pub diesel_handler : TaskHandler diesel_runtime q
    diesel_handler = record {
      Oracle = DieselLoader t Connection NoConnection;
      key_order = λ o. o.order;
      results_for = results_for;
      handle_task = handle_task;
      handle_task_lem = handle_task_lem;
    }
