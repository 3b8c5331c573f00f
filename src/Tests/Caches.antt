-- ===== src/Tests/Caches.antt =====
-- The theorems on the cache of deque-loader/src/redis/cache.rs, at concrete inputs.
use channel_loader_rs.Base.{
  ℕ, ite, ◌≤◌, ◌≡◌, ◌⊎◌, refl, false, List, [], ◌∷◌, ◌++◌, map, Option, none, some, ok, err, arith,
  Memᴰ, Permᴰ, ℕ_discrete, count, HashMap, get,
}
use channel_loader_rs.External.{SwapQueue}
use channel_loader_rs.External.Redis.{Text, Bytes, RedisCache}
use channel_loader_rs.Request.{Runtime, World, Request, oneshot, waiting, pending}
use channel_loader_rs.Request.Answer.{Tx-discrete, tx, oneshot_tx, answer, is_closed}
use channel_loader_rs.Task.{PendingAssignment}
use channel_loader_rs.Task.ForEach.{senders}
use channel_loader_rs.Loader.{DataLoader, new_loader}
use channel_loader_rs.Loader.Staffed.{Staffed, queued, new_loader-Staffed}
use channel_loader_rs.Redis.Cache.{cache_key, decode, load, WriteQueue, flush, adapter_runtime}
use channel_loader_rs.Redis.Cache.Load.{Holds, cached, load-Holds}
use channel_loader_rs.Redis.Cache.Writes.{put_all, set_exs, put_all-flush}
use channel_loader_rs.Redis.Cache.Lookup.{calling_back}
use channel_loader_rs.Redis.Cache.Adapter.{
  adapted, handle_task-hit, handle_task-miss, handle_task_unavailable,
}
use channel_loader_rs.Tests.Instances.{runtime, swap_queue, backwards}
use channel_loader_rs.Tests.Loads.{program}

-- Redis holds the value 20 under the cache key of 2, and no other.
abbrev store : Text → Option Bytes
store (a ∷ b ∷ c ∷ d ∷ k ∷ rest) = ite (ℕ_discrete k 2) (some (20 ∷ [])) none
store _ = none

abbrev first_byte : Bytes → Option ℕ
first_byte [] = none
first_byte (v ∷ rest) = some v

abbrev pub redis : RedisCache ℕ ℕ
redis = record {
  RedisError = ℕ;
  get_one = λ k. ok (store k);
  get_many = λ ks. ok (map store ks);
  serialize = λ v. some (v ∷ []);
  deserialize = first_byte;
  type_name = 117 ∷ [];
  debug = λ k. k ∷ [];
}

redis-Holds : Holds redis store
redis-Holds = record { get_one_lem = λ k. refl; get_many_lem = λ j k ks. refl }

load-Holds_example :
    (m : HashMap ℕ ℕ) × (load ℕ_discrete redis (2 ∷ 3 ∷ []) ≡ ok m)
    × ((k : ℕ)
        → get ℕ_discrete m k
          ≡ ite
              (ℕ_discrete (count ℕ_discrete k (2 ∷ 3 ∷ [])) 0)
              none
              (cached ℕ_discrete redis store k))
load-Holds_example = load-Holds ℕ_discrete redis store redis-Holds 2 (3 ∷ [])

abbrev pub writes : SwapQueue (Text × Bytes)
writes = swap_queue (Text × Bytes)

abbrev pub no_writes : WriteQueue writes
no_writes = record { queue = writes.new; flushes = [] }

abbrev puts : List (ℕ × ℕ)
puts = (2, 20) ∷ (3, 30) ∷ []

put_all-flush_example :
    ((set_exs redis writes puts ≡ []) × (put_all redis writes puts no_writes ≡ no_writes))
    ⊎ (let s' = put_all redis writes puts no_writes in
        (stealer : writes.Stealer) × (s'.flushes ≡ [] ++ stealer ∷ [])
        × ((flush redis writes stealer s'.queue).0 ≡ set_exs redis writes puts)
        × (writes.waiting (flush redis writes stealer s'.queue).1 ≡ none))
put_all-flush_example = put_all-flush redis writes puts no_writes refl

abbrev pub both : Runtime
both = adapter_runtime runtime writes redis

abbrev pub queue : SwapQueue (Request both)
queue = swap_queue (Request both)

-- Two calls have been made.
abbrev two_made : World both
two_made = record {
  oneshots = record { next = 2; views = λ _. waiting; closed = λ _. false };
  watches = record { next = 0; views = λ _. pending; closed = λ _. false };
  cache = no_writes;
}

abbrev requests : List (Request both)
requests = oneshot 2 0 none ∷ oneshot 3 1 none ∷ []

abbrev task : PendingAssignment both queue
task = record { stealer = tt; requests = [] }

abbrev worker : queue.Worker
worker = record { items = requests; out = some tt }

abbrev data_store : DataLoader both queue
data_store = new_loader both queue two_made

abbrev data_store-Staffed : Staffed both queue data_store
data_store-Staffed = new_loader-Staffed both queue two_made

once : (h : ℕ) → senders both (oneshot_tx h) requests ≤ 1
unfolding senders Tx-discrete tx program
once h = ground arith

opened : is_closed both data_store.world (oneshot_tx 0) ≡ false
unfolding is_closed program
opened = refl

handle_task-hit_example :
    let a =
      adapted runtime writes redis queue queue
        (backwards ℕ)
        (backwards (Request both))
        task
        worker
        data_store in
    (answer both a.loader.world (oneshot_tx 0) ≡ some (ok (some 20)))
    × (senders both (oneshot_tx 0) (queued both queue a.loader)
        ≡ senders both (oneshot_tx 0) (queued both queue data_store))
unfolding tx
handle_task-hit_example =
    handle_task-hit runtime writes redis queue queue (backwards ℕ) (backwards (Request both)) task
      worker data_store store redis-Holds data_store-Staffed (oneshot 2 0 none)
      (unfold decode cache_key program in refl) (Memᴰ.head refl) (once 0) opened

handle_task-miss_example :
    let a =
      adapted runtime writes redis queue queue
        (backwards ℕ)
        (backwards (Request both))
        task
        worker
        data_store in
    Memᴰ (calling_back runtime writes redis (oneshot 3 1 none)) (queued both queue a.loader)
    × (answer both a.loader.world (oneshot_tx 1) ≡ answer both data_store.world (oneshot_tx 1))
unfolding tx
handle_task-miss_example =
    handle_task-miss runtime writes redis queue queue (backwards ℕ) (backwards (Request both)) task
      worker data_store store redis-Holds data_store-Staffed (oneshot 3 1 none)
      (unfold decode cache_key program in refl) (Memᴰ.tail (Memᴰ.head refl)) (once 1)

-- Redis answers every command with an error.
abbrev down : RedisCache ℕ ℕ
down = record redis { get_one = λ k. err 5; get_many = λ ks. err 5 }

handle_task_unavailable_example :
    let a =
      adapted runtime writes down queue queue
        (backwards ℕ)
        (backwards (Request both))
        task
        worker
        data_store in
    (a.loader.world ≡ data_store.world)
    × Staffed both queue a.loader
    × Permᴰ (queued both queue a.loader) (queued both queue data_store ++ requests)
handle_task_unavailable_example =
    handle_task_unavailable runtime writes down queue queue (backwards ℕ) (backwards (Request both))
      task worker data_store {e = 5} (unfold load program in refl) data_store-Staffed
