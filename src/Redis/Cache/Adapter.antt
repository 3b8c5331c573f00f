-- ===== src/Redis/Cache/Adapter.antt =====
-- `RedisCacheAdapter::handle_task`: what becomes of the requests that the adapter takes.
use channel_loader_rs.Base.{
  ◌≡◌, ◌≤◌, refl, sym, ◌∙◌, false, List, ◌++◌, map, Option, none, some, ok, err, arith, Memᴰ, Permᴰ,
  perm-Memᴰ,
}
use mathlib.Core.List.Permᴰ
use mathlib.Core.List.Memᴰ
use channel_loader_rs.External.{SwapQueue, Order}
use channel_loader_rs.External.Redis.{Text, Bytes, RedisCache}
use channel_loader_rs.Request.{Runtime, Request, key}
use channel_loader_rs.Request.Answer.{tx, answer, is_closed}
use channel_loader_rs.Task.{
  PendingAssignment, LoadBatch, keys, not_found, get_assignment, from_requests,
}
use channel_loader_rs.Task.Keys.{key-mem-keys}
use channel_loader_rs.Task.ForEach.{senders, senders-perm, senders-append}
use channel_loader_rs.Task.Partial.{
  assigned-after, apply_partial_results-found, apply_partial_results-missing,
}
use channel_loader_rs.Loader.{DataLoader}
use channel_loader_rs.Loader.Staffed.{Staffed, queued}
use channel_loader_rs.Redis.Cache.{Adapted, adapter_runtime, handle_task, load}
use channel_loader_rs.Redis.Cache.Lookup.{
  calling_back, senders-calling_back, looked_up, queued-ok, world-ok, queued-err, world-err,
  staffed-err,
}
use channel_loader_rs.Redis.Cache.Load.{Holds, cached, load-Memᴰ}

module _ (t : Runtime) (wq : SwapQueue (Text × Bytes)) (c : RedisCache t.Key t.Value) where
  abbrev r : Runtime
  r = adapter_runtime t wq c

  module _ (q d : SwapQueue (Request r)) (order : Order t.Key) (visit : Order (Request r))
      (task : PendingAssignment r q) (queue : q.Worker) (l : DataLoader r d) where
    -- The batch that the task is assigned.
    abbrev pub taken : List (Request r)
    taken = task.requests ++ (q.take task.stealer queue).0

    abbrev batch : LoadBatch r
    batch = record { requests = taken }

    abbrev pub adapted : Adapted r q d
    adapted = handle_task t wq c q d order visit task queue l

    handle_task-look_up : adapted.loader ≡ looked_up t wq c d order visit batch l
    unfolding handle_task get_assignment from_requests
    handle_task-look_up = refl

    -- If Redis answers with an error, the cache adapter changes no channel and schedules exactly
    -- the requests that it took on the data store's loader: its queue and pending tasks then hold
    -- a permutation of what they held and those requests, and they still fit together, as they
    -- are assumed to before.
    pub handle_task_unavailable :
        {e : c.RedisError}
        → load t.Key-discrete c (keys r order batch) ≡ err e
        → Staffed r d l
        → (adapted.loader.world ≡ l.world)
          × Staffed r d adapted.loader
          × Permᴰ (queued r d adapted.loader) (queued r d l ++ taken)
    handle_task_unavailable e st = rw handle_task-look_up (
      world-err t wq c d order visit batch l e st,
      staffed-err t wq c d order visit batch l e st,
      queued-err t wq c d order visit batch l e st,
    )

    module _ (store : Text → Option Bytes) (holds : Holds c store) (st : Staffed r d l) where
      -- If the commands to Redis give what it holds, the cache adapter answers a request that it
      -- takes, whose key has a value in Redis that can be deserialized, with that value, and
      -- schedules no request with that sender on the data store's loader. The request is the only
      -- one with its sender, its receivers are not dropped, and the data store's queue and tasks
      -- fit together.
      pub handle_task-hit :
          (req : Request r) {v : t.Value}
          → cached t.Key-discrete c store (key r req) ≡ some v
          → Memᴰ req taken
          → senders r (tx r req) taken ≤ 1
          → is_closed r l.world (tx r req) ≡ false
          → (answer r adapted.loader.world (tx r req) ≡ some (ok (some v)))
            × (senders r (tx r req) (queued r d adapted.loader)
                ≡ senders r (tx r req) (queued r d l))
      handle_task-hit req {v} hit mem once opened =
          let (m, gives, held) =
            load-Memᴰ t.Key-discrete c store holds (keys r order batch)
              (key-mem-keys r order batch req mem) in
          let (answered, gone) =
            apply_partial_results-found r m visit batch l.world req (held ∙ hit) mem once opened in
          let none_left : senders r (tx r req) (not_found r m taken) ≡ 0 =
            rw (sym (assigned-after r m visit batch l.world)) gone in
          rw handle_task-look_up (
            rw (world-ok t wq c d order visit batch l st gives) answered,
            senders-perm r (tx r req) (queued-ok t wq c d order visit batch l st gives)
                ∙ senders-append r (tx r req) (queued r d l)
                    (map (calling_back t wq c) (not_found r m taken))
                ∙ rw (senders-calling_back t wq c (tx r req) (not_found r m taken), none_left)
                    (omega arith),
          )

      -- If the commands to Redis give what it holds, the cache adapter schedules a request that
      -- it takes, whose key has no value in Redis that can be deserialized, on the data store's
      -- loader, with the callback that writes a loaded value to Redis, and leaves what its
      -- receivers see as it was. The request is the only one with its sender, and the data
      -- store's queue and tasks fit together.
      pub handle_task-miss :
          (req : Request r)
          → cached t.Key-discrete c store (key r req) ≡ none
          → Memᴰ req taken
          → senders r (tx r req) taken ≤ 1
          → Memᴰ (calling_back t wq c req) (queued r d adapted.loader)
            × (answer r adapted.loader.world (tx r req) ≡ answer r l.world (tx r req))
      handle_task-miss req miss mem once =
          let (m, gives, held) =
            load-Memᴰ t.Key-discrete c store holds (keys r order batch)
              (key-mem-keys r order batch req mem) in
          let (kept, same) =
            apply_partial_results-missing r m visit batch l.world req (held ∙ miss) mem once in
          let kept' : Memᴰ req (not_found r m taken) =
            rw (sym (assigned-after r m visit batch l.world)) kept in
          rw handle_task-look_up (
            perm-Memᴰ (Permᴰ.symm (queued-ok t wq c d order visit batch l st gives))
                (Memᴰ.append_right (queued r d l) (Memᴰ.map (calling_back t wq c) kept')),
            rw (world-ok t wq c d order visit batch l st gives) same,
          )
