-- ===== src/Redis/Answer.antt =====
-- deque-loader/src/redis/loader.rs: what the callers of a `RedisLoader` are told.
use channel_loader_rs.Base.{
  ◌≡◌, ◌∙◌, ap, ◌≤◌, false, List, Memᴰ, Option, some, Result, ok, err, get, arith,
}
use channel_loader_rs.External.{SwapQueue, Order}
use channel_loader_rs.Request.{Runtime, World, Request, Keyed, key}
use channel_loader_rs.Request.Answer.{tx, answer, is_closed}
use channel_loader_rs.Task.{PendingAssignment, keys}
use channel_loader_rs.Task.ForEach.{senders}
use channel_loader_rs.Task.Resolve.{reply_to}
use channel_loader_rs.Handler.Answer.{run_handled, assigned_to, run_handled-answer}
use channel_loader_rs.Redis.Loader.{
  RedisLoader, redis_runtime, redis_handler, results_for, handle_task,
}

module _ {ErrorKind : Type 0} (t : Keyed ErrorKind) (Connection RedisError : Type 0) where
  -- The kind of the load's error, or what it found.
  unfoldable redis_reply :
      RedisLoader t Connection RedisError → List t.Key → t.Key → Result (Option t.Value) ErrorKind
  redis_reply o ks k = elim (o.load o.get_tracked_connection ks) [
    | err e ↦ err (o.kind e)
    | ok values ↦ ok (get t.Key-discrete values k)
  ]

  abbrev r : Runtime
  r = redis_runtime t Connection RedisError

  reply_to-results_for :
      (o : RedisLoader t Connection RedisError) (ks : List t.Key) (k : t.Key)
      → reply_to r (results_for t Connection RedisError o ks) k ≡ redis_reply o ks k
  unfolding reply_to redis_reply
  reply_to-results_for o ks k = ground arith

  module _ (q : SwapQueue (Request r)) (o : RedisLoader t Connection RedisError)
      (task : PendingAssignment r q) (queue : q.Worker) where
    abbrev requests : List (Request r)
    requests = assigned_to r q task queue

    -- When the handler of a redis loader has run and rayon has run its job, in any order of
    -- visit, a request that was assigned to the task, that is the only one with its sender and
    -- whose receivers are not dropped, is answered: with the kind of the load's error, or with
    -- what the load of the keys found for its key.
    handle_task-redis_reply :
        (visit : Order (Request r)) (w : World r) (req : Request r)
        → Memᴰ req requests
        → senders r (tx r req) requests ≤ 1
        → is_closed r w (tx r req) ≡ false
        → answer r
            (run_handled r q visit (handle_task t Connection RedisError q o task queue) w)
            (tx r req)
          ≡ some (redis_reply o (keys r o.order (record { requests = requests })) (key r req))
    handle_task-redis_reply visit w req m once opened =
        run_handled-answer r q (redis_handler t Connection RedisError q) o visit task queue w req m
          once opened
        ∙ ap some
            (reply_to-results_for o (keys r o.order (record { requests = requests })) (key r req))
