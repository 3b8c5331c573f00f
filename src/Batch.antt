-- ===== src/Batch.antt =====
-- deque-loader/src/batch.rs: the handler of a `BatchLoader`.
pub mod Sizes
use channel_loader_rs.Base.{List, ◌++◌, ◌≡◌, refl, some, none, Result, HashMap}
use channel_loader_rs.External.{SwapQueue, Order}
use channel_loader_rs.Request.{Runtime, Request}
use channel_loader_rs.Task.{
  PendingAssignment, load_batch, no_assignment, completion_receipt, keys, resolve_job,
  get_assignment,
}
use channel_loader_rs.Handler.{Handled, TaskHandler}

-- `BatchLoader::load` at one time, and the order of the set of keys.
pub record BatchLoader (r : Runtime) : Type 0 where
  pub load : List r.Key → Result (HashMap r.Key r.Value) r.Error
  pub order : Order r.Key

module _ (r : Runtime) (q : SwapQueue (Request r)) where
  unfoldable pub handle_task : BatchLoader r → PendingAssignment r q → q.Worker → Handled r q
  unfolding get_assignment resolve_job
  handle_task t task queue =
      let (assignment, queue') = get_assignment r q task queue in
      elim assignment [
        | load_batch batch ↦
            let result = t.load (keys r t.order batch) in
            let (receipt, job) = resolve_job r batch result in
            record { receipt = receipt; job = some job; queue = queue' }
        | no_assignment receipt ↦ record { receipt = receipt; job = none; queue = queue' }
      ]

  -- The handler of a batch loader takes the whole batch, asks `load` for its keys, and resolves
  -- every request of it with the results.
  pub handle_task_lem :
      (t : BatchLoader r) (task : PendingAssignment r q) (queue : q.Worker)
      → let (batch, queue') = q.take task.stealer queue in
        let requests = task.requests ++ batch in
        handle_task t task queue ≡ record {
          receipt = completion_receipt;
          job = some (record {
            requests = requests;
            results = t.load (keys r t.order (record { requests = requests }));
          });
          queue = queue';
        }
  unfolding handle_task
  handle_task_lem t task queue = refl

  abbrev pub batch_handler : TaskHandler r q
  batch_handler = record {
    Oracle = BatchLoader r;
    key_order = λ t. t.order;
    results_for = λ t. t.load;
    handle_task = handle_task;
    handle_task_lem = handle_task_lem;
  }
