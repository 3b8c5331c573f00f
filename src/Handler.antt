-- ===== src/Handler.antt =====
-- The trait `TaskHandler` of deque-loader/src/task.rs: what a handler of spawned tasks promises.
pub mod Answer
pub mod Together
pub mod Shared
use channel_loader_rs.Base.{List, ◌++◌, ◌≡◌, Option, some, Result, HashMap}
use channel_loader_rs.External.{SwapQueue, Order}
use channel_loader_rs.Request.{Runtime, Request}
use channel_loader_rs.Task.{
  PendingAssignment, CompletionReceipt, completion_receipt, ResolveJob, keys,
}

-- The outcome of `handle_task`: its receipt, the job that it gave to rayon, and the queue.
pub record Handled (r : Runtime) (q : SwapQueue (Request r)) : Type 0 where
  pub receipt : CompletionReceipt
  pub job : Option (ResolveJob r)
  pub queue : q.Worker

-- An `Oracle` holds the answers of the outside world to one run of the handler: the results of the
-- load for each list of keys, and the order in which the set of keys is read.
pub record TaskHandler (r : Runtime) (q : SwapQueue (Request r)) : Type 1 where
  pub Oracle : Type 0
  pub key_order : Oracle → Order r.Key
  pub results_for : Oracle → List r.Key → Result (HashMap r.Key r.Value) r.Error
  pub handle_task : Oracle → PendingAssignment r q → q.Worker → Handled r q
  -- A handler takes the batch of its stealer, loads the keys of all requests at once, and
  -- resolves all of them with the results.
  pub handle_task_lem :
      (o : Oracle) (task : PendingAssignment r q) (queue : q.Worker)
      → let (batch, queue') = q.take task.stealer queue in
        let requests = task.requests ++ batch in
        handle_task o task queue ≡ record {
          receipt = completion_receipt;
          job = some (record {
            requests = requests;
            results = results_for o (keys r (key_order o) (record { requests = requests }));
          });
          queue = queue';
        }
