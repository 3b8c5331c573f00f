-- ===== src/Redis/Cache.antt =====
-- deque-loader/src/redis/cache.rs: the cache in front of another loader, and the writes that fill it.
pub mod Load
pub mod Lookup
pub mod Adapter
pub mod Writes
use channel_loader_rs.Base.{
  ℕ, List, [], ◌∷◌, ◌++◌, map, Option, none, some, Result, ok, err, HashMap, extend, length, ite,
  ℕ_discrete,
}
use channel_loader_rs.External.{SwapQueue, Order}
use channel_loader_rs.External.Redis.{Text, Bytes, RedisCache}
use channel_loader_rs.Request.{Runtime, World, Request, CacheCb, set_cache_cb}
use channel_loader_rs.Task.{
  PendingAssignment, LoadBatch, TaskAssignment, load_batch, no_assignment, CompletionReceipt,
  completion_receipt, keys, get_assignment, apply_partial_results,
}
use channel_loader_rs.Loader.{DataLoader, schedule_assignment}

-- `format!("{}::{{{:?}}}", type_name, key)`: the separator `::{`, and the closing brace.
unfoldable pub cache_key : {K V : Type 0} → RedisCache K V → K → Text
cache_key c key = c.type_name ++ (b':' ∷ b':' ∷ b'{' ∷ []) ++ c.debug key ++ b'}' ∷ []

-- A pending SETEX of a pipeline.
pub record SetEx : Type 0 where
  pub key : Text
  pub value : Bytes
  pub seconds : ℕ

abbrev pub redis_cache_expiration : ℕ
redis_cache_expiration = 900

-- The thread-local queue of writes, and the stealers of the spawned flushes.
pub record WriteQueue (wq : SwapQueue (Text × Bytes)) : Type 0 where
  pub queue : wq.Worker
  pub flushes : List wq.Stealer

module _ {K V : Type 0} (c : RedisCache K V) (wq : SwapQueue (Text × Bytes)) where
  -- A value that cannot be serialized is logged and dropped.
  unfoldable pub infallibly_update_cache : K → V → WriteQueue wq → WriteQueue wq
  unfolding cache_key
  infallibly_update_cache key value s = elim (c.serialize value) [
    | some bytes ↦
        let (pushed, queue') = wq.push (cache_key c key, bytes) s.queue in
        elim pushed [
          | some stealer ↦ record { queue = queue'; flushes = s.flushes ++ stealer ∷ [] }
          | none ↦ record s { queue = queue' }
        ]
    | none ↦ s
  ]

  -- The pipeline that a spawned flush sends.
  unfoldable pub flush : wq.Stealer → wq.Worker → List SetEx × wq.Worker
  flush stealer queue =
      let (mset, queue') = wq.take stealer queue in
      (map (λ e. record { key = e.0; value = e.1; seconds = redis_cache_expiration }) mset, queue')

module _ {K V : Type 0} (dec : Discrete K) (c : RedisCache K V) where
  unfoldable pub decode : Option Bytes → Option V
  decode none = none
  decode (some bytes) = c.deserialize bytes

  -- `keys.zip(results)` without the keys that have no value.
  unfoldable pub found : List K → List (Option Bytes) → List (K × V)
  unfolding decode
  found [] results = []
  found (key ∷ keys) [] = []
  found (key ∷ keys) (result ∷ results) =
      let rest = found keys results in
      elim (decode result) [ some value ↦ (key, value) ∷ rest | none ↦ rest ]

  abbrev pub get_all : List Text → Result (List (Option Bytes)) c.RedisError
  get_all (only ∷ []) = elim (c.get_one only) [ ok result ↦ ok (result ∷ []) | err e ↦ err e ]
  get_all cache_keys = c.get_many cache_keys

  unfoldable pub load : List K → Result (HashMap K V) c.RedisError
  unfolding found cache_key extend
  load keys = elim (get_all (map (cache_key c) keys)) [
    | ok results ↦ ok (extend dec [] (found keys results))
    | err e ↦ err e
  ]

-- Handler types with the write queue as what the cache callbacks act on. It is thread-local, and this is
-- the one of the rayon thread that resolves the requests.
abbrev pub cached_runtime : Runtime → SwapQueue (Text × Bytes) → Runtime
cached_runtime t wq = record t { Cache = WriteQueue wq }

-- What `handle_task` leaves: the worker of the cache store's loader, and the data store's loader.
pub record Adapted (r : Runtime) (q d : SwapQueue (Request r)) : Type 0 where
  pub receipt : CompletionReceipt
  pub queue : q.Worker
  pub loader : DataLoader r d

module _ (t : Runtime) (wq : SwapQueue (Text × Bytes)) (c : RedisCache t.Key t.Value) where
  abbrev pub adapter_runtime : Runtime
  adapter_runtime = cached_runtime t wq

  unfoldable pub cache_cb : CacheCb adapter_runtime
  unfolding infallibly_update_cache
  cache_cb key value s = infallibly_update_cache c wq key value s

  unfoldable pub update_cache_on_load : LoadBatch adapter_runtime → LoadBatch adapter_runtime
  unfolding cache_cb
  update_cache_on_load batch = record {
    requests = map (set_cache_cb adapter_runtime cache_cb) batch.requests;
  }

  module _ (d : SwapQueue (Request adapter_runtime)) where
    unfoldable pub schedule_rest :
        TaskAssignment adapter_runtime
        → DataLoader adapter_runtime d
        → CompletionReceipt × DataLoader adapter_runtime d
    unfolding update_cache_on_load schedule_assignment
    schedule_rest (load_batch batch) l =
        schedule_assignment adapter_runtime d (update_cache_on_load batch) l
    schedule_rest (no_assignment receipt) l = (receipt, l)

    -- `handle_task` once it has a batch: Redis is asked, and nothing interrupts what follows the
    -- answer. The orders are those of the set of keys and of the parallel visit.
    unfoldable pub look_up :
        Order t.Key
        → Order (Request adapter_runtime)
        → LoadBatch adapter_runtime
        → DataLoader adapter_runtime d
        → CompletionReceipt × DataLoader adapter_runtime d
    unfolding apply_partial_results schedule_rest schedule_assignment load
    look_up order visit batch l = elim (load t.Key-discrete c (keys adapter_runtime order batch)) [
      | ok results ↦
          let (rest, w) = apply_partial_results adapter_runtime visit batch results l.world in
          schedule_rest rest (record l { world = w })
      | err e ↦ schedule_assignment adapter_runtime d batch l
    ]

  module _ (q d : SwapQueue (Request adapter_runtime)) where
    unfoldable pub handle_task :
        Order t.Key
        → Order (Request adapter_runtime)
        → PendingAssignment adapter_runtime q
        → q.Worker
        → DataLoader adapter_runtime d
        → Adapted adapter_runtime q d
    unfolding get_assignment look_up
    handle_task order visit task queue l =
        let (assignment, queue') = get_assignment adapter_runtime q task queue in
        elim assignment [
          | load_batch batch ↦
              let (receipt, l') = look_up d order visit batch l in
              record { receipt = receipt; queue = queue'; loader = l' }
          | no_assignment receipt ↦ record { receipt = receipt; queue = queue'; loader = l }
        ]
