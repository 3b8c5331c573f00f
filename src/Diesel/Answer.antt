-- ===== src/Diesel/Answer.antt =====
-- deque-loader/src/diesel/loader.rs: what the callers of a `DieselLoader` are told.
use channel_loader_rs.Base.{
  ◌≡◌, ◌∙◌, ap, ◌≤◌, false, List, Memᴰ, Option, some, Result, ok, err, get, arith,
}
use channel_loader_rs.External.{SwapQueue, Order}
use channel_loader_rs.Request.{Runtime, World, Request, Keyed, key}
use channel_loader_rs.Request.Answer.{tx, answer, is_closed}
use channel_loader_rs.Task.{PendingAssignment, keys}
use channel_loader_rs.Task.ForEach.{senders}
use channel_loader_rs.Task.Resolve.{reply_to}
use channel_loader_rs.Handler.Answer.{run_handled, assigned_to, run_handled-answer}
use channel_loader_rs.Diesel.Error.{SimpleDieselError, from_diesel_error}
use channel_loader_rs.Diesel.Loader.{
  DieselLoader, diesel_runtime, diesel_handler, results_for, handle_task,
}

module _ (t : Keyed SimpleDieselError) (Connection NoConnection : Type 0) where
  -- The error of the pool, or that of the load, each simplified, or what the load found.
  unfoldable pub diesel_reply :
      DieselLoader t Connection NoConnection
      → List t.Key
      → t.Key
      → Result (Option t.Value) SimpleDieselError
  diesel_reply o ks k = elim o.get_connection [
    | err e ↦ err (o.into e)
    | ok conn ↦ elim (o.load conn ks) [
      | err e ↦ err (from_diesel_error e)
      | ok values ↦ ok (get t.Key-discrete values k)
    ]
  ]

  abbrev r : Runtime
  r = diesel_runtime t Connection NoConnection

  pub reply_to-results_for :
      (o : DieselLoader t Connection NoConnection) (ks : List t.Key) (k : t.Key)
      → reply_to r (results_for t Connection NoConnection o ks) k ≡ diesel_reply o ks k
  unfolding reply_to results_for diesel_reply
  reply_to-results_for o ks k = ground arith

  module _ (q : SwapQueue (Request r)) (o : DieselLoader t Connection NoConnection)
      (task : PendingAssignment r q) (queue : q.Worker) where
    abbrev requests : List (Request r)
    requests = assigned_to r q task queue

    -- When the handler of a diesel loader has run and rayon has run its job, in any order of
    -- visit, a request that was assigned to the task, that is the only one with its sender and
    -- whose receivers are not dropped, is answered: with the pool's error, or with the simplified
    -- error of the load, or with what the load of the keys found for its key.
    pub handle_task-diesel_reply :
        (visit : Order (Request r)) (w : World r) (req : Request r)
        → Memᴰ req requests
        → senders r (tx r req) requests ≤ 1
        → is_closed r w (tx r req) ≡ false
        → answer r
            (run_handled r q visit (handle_task t Connection NoConnection q o task queue) w)
            (tx r req)
          ≡ some (diesel_reply o (keys r o.order (record { requests = requests })) (key r req))
    handle_task-diesel_reply visit w req m once opened =
        run_handled-answer r q (diesel_handler t Connection NoConnection q) o visit task queue w req
          m once opened
        ∙ ap some
            (reply_to-results_for o (keys r o.order (record { requests = requests })) (key r req))
