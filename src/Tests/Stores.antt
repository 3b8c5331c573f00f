-- ===== src/Tests/Stores.antt =====
-- The theorems on the diesel and redis loaders and on the cache, at concrete inputs.
use channel_loader_rs.Base.{
  ℕ, suc, ◌≤◌, ◌≡◌, ◌≢◌, refl, false, List, [], ◌∷◌, map, none, some, ok, err, arith, Memᴰ,
  ℕ_discrete,
}
use channel_loader_rs.External.{SwapQueue}
use channel_loader_rs.External.Diesel.{PoolError, QueryError}
use channel_loader_rs.Request.{Runtime, Keyed, World, Request, oneshot, waiting, pending, got}
use channel_loader_rs.Request.Answer.{Tx-discrete, tx, oneshot_tx, answer, is_closed}
use channel_loader_rs.Task.{PendingAssignment}
use channel_loader_rs.Task.ForEach.{senders}
use channel_loader_rs.Handler.Answer.{run_handled}
use channel_loader_rs.Diesel.Error.{
  DieselError, SimpleDieselError, from_diesel_error, from_diesel_error_no_rollback,
}
use channel_loader_rs.Diesel.Loader.{DieselLoader, diesel_runtime, diesel_handler}
use channel_loader_rs.Diesel.Answer.{diesel_reply, handle_task-diesel_reply}
use channel_loader_rs.Redis.Loader.{RedisLoader, redis_runtime}
use channel_loader_rs.Tests.Instances.{slots, swap_queue, backwards}
use channel_loader_rs.Tests.Loads.{program}

from_diesel_error_no_rollback_example :
    from_diesel_error (DieselError.query_error QueryError.other)
    ≢ SimpleDieselError.rollback_transaction
from_diesel_error_no_rollback_example =
    from_diesel_error_no_rollback (DieselError.query_error QueryError.other)

abbrev keyed : (E : Type 0) → Keyed E
keyed E = record {
  Key = ℕ;
  Value = ℕ;
  Cache = Unit {0};
  Key-discrete = ℕ_discrete;
  oneshot = slots (λ _. waiting) got;
  watch = slots (λ state. state) (λ state. state);
}

abbrev diesel : Runtime
diesel = diesel_runtime (keyed SimpleDieselError) ℕ PoolError

-- Two calls have been made.
abbrev diesel_world : World diesel
diesel_world = record {
  oneshots = record { next = 2; views = λ _. waiting; closed = λ _. false };
  watches = record { next = 0; views = λ _. pending; closed = λ _. false };
  cache = tt;
}

abbrev diesel_requests : List (Request diesel)
diesel_requests = oneshot 7 0 none ∷ oneshot 8 1 none ∷ []

abbrev diesel_queue : SwapQueue (Request diesel)
diesel_queue = swap_queue (Request diesel)

-- No connection could be had from the pool.
abbrev no_connection : DieselLoader (keyed SimpleDieselError) ℕ PoolError
no_connection = record {
  into = λ _. SimpleDieselError.connection_timeout;
  get_connection = err PoolError.timed_out;
  load = λ conn ks. ok (map (λ k. (k, conn)) ks);
  order = backwards ℕ;
}

abbrev diesel_task : PendingAssignment diesel diesel_queue
diesel_task = record { stealer = tt; requests = [] }

abbrev diesel_worker : diesel_queue.Worker
diesel_worker = record { items = diesel_requests; out = some tt }

diesel_once : senders diesel (oneshot_tx 1) diesel_requests ≤ 1
unfolding senders Tx-discrete tx program
diesel_once = omega arith

diesel_open : is_closed diesel diesel_world (oneshot_tx 1) ≡ false
unfolding is_closed program
diesel_open = refl

handle_task-diesel_reply_example :
    answer diesel
      (run_handled diesel diesel_queue
        (backwards (Request diesel))
        ((diesel_handler (keyed SimpleDieselError) ℕ PoolError diesel_queue).handle_task
          no_connection diesel_task diesel_worker)
        diesel_world)
      (oneshot_tx 1)
    ≡ some (err SimpleDieselError.connection_timeout)
unfolding tx diesel_reply
handle_task-diesel_reply_example =
    handle_task-diesel_reply (keyed SimpleDieselError) ℕ PoolError diesel_queue no_connection
      diesel_task diesel_worker (backwards (Request diesel)) diesel_world (oneshot 8 1 none)
      (Memᴰ.tail (Memᴰ.head refl)) diesel_once diesel_open

abbrev redis : Runtime
redis = redis_runtime (keyed ℕ) ℕ ℕ

abbrev redis_world : World redis
redis_world = record {
  oneshots = record { next = 2; views = λ _. waiting; closed = λ _. false };
  watches = record { next = 0; views = λ _. pending; closed = λ _. false };
  cache = tt;
}

abbrev redis_requests : List (Request redis)
redis_requests = oneshot 7 0 none ∷ oneshot 8 1 none ∷ []

abbrev redis_queue : SwapQueue (Request redis)
redis_queue = swap_queue (Request redis)

-- Each key has its successor as value.
abbrev successors : RedisLoader (keyed ℕ) ℕ ℕ
successors = record {
  kind = λ e. e;
  get_tracked_connection = 0;
  load = λ conn ks. ok (map (λ k. (k, suc k)) ks);
  order = backwards ℕ;
}

abbrev redis_task : PendingAssignment redis redis_queue
redis_task = record { stealer = tt; requests = [] }

abbrev redis_worker : redis_queue.Worker
redis_worker = record { items = redis_requests; out = some tt }

redis_once : senders redis (oneshot_tx 1) redis_requests ≤ 1
unfolding senders Tx-discrete tx program
redis_once = omega arith

redis_open : is_closed redis redis_world (oneshot_tx 1) ≡ false
unfolding is_closed program
redis_open = refl
