-- ===== src/Handler/Answer.antt =====
-- A handler and the job that it gives to rayon, together.
use channel_loader_rs.Base.{◌≡◌, ◌≤◌, false, List, ◌++◌, Memᴰ, some, none}
use channel_loader_rs.External.{SwapQueue, Order}
use channel_loader_rs.Request.{Runtime, World, Request, key}
use channel_loader_rs.Request.Answer.{tx, answer, is_closed}
use channel_loader_rs.Task.{PendingAssignment, keys, run_job}
use channel_loader_rs.Task.ForEach.{senders}
use channel_loader_rs.Task.Resolve.{reply_to, run_job-answer}
use channel_loader_rs.Handler.{Handled, TaskHandler}

module _ (r : Runtime) (q : SwapQueue (Request r)) where
  abbrev pub run_handled : Order (Request r) → Handled r q → World r → World r
  run_handled visit handled w = elim handled.job [ some job ↦ run_job r visit job w | none ↦ w ]

  -- What a task is assigned: its own requests, and the batch of its stealer.
  abbrev pub assigned_to : PendingAssignment r q → q.Worker → List (Request r)
  assigned_to task queue = task.requests ++ (q.take task.stealer queue).0

  pub run_handled-answer :
      (h : TaskHandler r q) (o : h.Oracle) (visit : Order (Request r))
      (task : PendingAssignment r q) (queue : q.Worker) (w : World r) (req : Request r)
      → Memᴰ req (assigned_to task queue)
      → senders r (tx r req) (assigned_to task queue) ≤ 1
      → is_closed r w (tx r req) ≡ false
      → answer r (run_handled visit (h.handle_task o task queue) w) (tx r req)
        ≡ some (
            reply_to r
              (h.results_for o
                (keys r (h.key_order o) (record { requests = assigned_to task queue })))
              (key r req))
  run_handled-answer h o visit task queue w req m once opened =
      rw (h.handle_task_lem o task queue) (run_job-answer r visit _ w req m once opened)
