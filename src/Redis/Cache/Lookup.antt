-- ===== src/Redis/Cache/Lookup.antt =====
-- `RedisCacheAdapter::handle_task` once it has a batch: what is answered and what is scheduled.
use channel_loader_rs.Base.{
  Result-cases, inl, inr, length, ◌+◌, ◌≡◌, ◌≤◌, refl, ap, List, [], ◌∷◌, ◌++◌, map, ok, err,
  HashMap, Permᴰ, count,
}
use channel_loader_rs.External.{SwapQueue, Order}
use channel_loader_rs.External.Redis.{Text, Bytes, RedisCache}
use channel_loader_rs.Request.{Runtime, World, Request, watch, oneshot, key, set_cache_cb}
use channel_loader_rs.Request.Answer.{Tx, tx, is_closed}
use channel_loader_rs.Task.{
  resolve_found, LoadBatch, completion_receipt, keys, apply_partial_results, not_found, assign_rest,
}
use channel_loader_rs.Task.ForEach.{for_each-closed, senders}
use channel_loader_rs.Task.Partial.{resolve_found-TouchesOwn, after}
use channel_loader_rs.Loader.{DataLoader, schedule, schedule_assignment}
use channel_loader_rs.Loader.Staffed.{
  Staffed, queued, Staffed-world, schedule-nil, schedule-Staffed,
}
use channel_loader_rs.Loader.Schedule.{queued-schedule, world-schedule, length-schedule}
use channel_loader_rs.Redis.Cache.{
  adapter_runtime, cache_cb, update_cache_on_load, schedule_rest, look_up, load,
}

module _ (t : Runtime) (wq : SwapQueue (Text × Bytes)) (c : RedisCache t.Key t.Value) where
  abbrev r : Runtime
  r = adapter_runtime t wq c

  abbrev pub calling_back : Request r → Request r
  calling_back = set_cache_cb r (cache_cb t wq c)

  pub tx-calling_back : (req : Request r) → tx r (calling_back req) ≡ tx r req
  unfolding set_cache_cb tx
  tx-calling_back (watch k h cb) = refl
  tx-calling_back (oneshot k h cb) = refl

  pub key-calling_back : (req : Request r) → key r (calling_back req) ≡ key r req
  unfolding set_cache_cb key
  key-calling_back (watch k h cb) = refl
  key-calling_back (oneshot k h cb) = refl

  pub senders-calling_back :
      (u : Tx r) (reqs : List (Request r)) → senders r u (map calling_back reqs) ≡ senders r u reqs
  unfolding senders count
  senders-calling_back u [] = refl
  senders-calling_back u (req ∷ reqs) = rw (tx-calling_back req, senders-calling_back u reqs) refl

  module _ (d : SwapQueue (Request r)) (order : Order t.Key) (visit : Order (Request r))
      (batch : LoadBatch r) (l : DataLoader r d) where
    abbrev pub looked_up : DataLoader r d
    looked_up = (look_up t wq c d order visit batch l).1

    schedule_rest_lem :
        (m : HashMap t.Key t.Value) (w : World r)
        → schedule_rest t wq c d
            (assign_rest r (not_found r m batch.requests))
            (record l { world = w })
          ≡ (
            completion_receipt,
            schedule r d (map calling_back (not_found r m batch.requests)) (record l { world = w }),
          )
    unfolding schedule_rest schedule_assignment update_cache_on_load
    schedule_rest_lem m w =
        elim (not_found r m batch.requests)
          as (λ rest.
            schedule_rest t wq c d (assign_rest r rest) (record l { world = w })
            ≡ (completion_receipt, schedule r d (map calling_back rest) (record l { world = w }))) [
              | [] ↦ rw (schedule-nil r d (record l { world = w })) refl
              | req ∷ rest ↦ refl
            ]

    look_up_ok :
        {m : HashMap t.Key t.Value}
        → load t.Key-discrete c (keys r order batch) ≡ ok m
        → looked_up
          ≡ schedule r d
              (map calling_back (not_found r m batch.requests))
              (record l { world = (after r m visit batch l.world).1 })
    unfolding look_up apply_partial_results
    look_up_ok {m} e =
        rw (e, looked_up) (ap (λ p. p.1) (schedule_rest_lem m (after r m visit batch l.world).1))

    look_up_err :
        {e : c.RedisError}
        → load t.Key-discrete c (keys r order batch) ≡ err e
        → looked_up ≡ schedule r d batch.requests l
    unfolding look_up schedule_assignment
    look_up_err e = rw (e, looked_up) refl

    module _ {e : c.RedisError} (unavailable : load t.Key-discrete c (keys r order batch) ≡ err e)
        (st : Staffed r d l) where
      pub queued-err : Permᴰ (queued r d looked_up) (queued r d l ++ batch.requests)
      queued-err = rw (look_up_err unavailable) (queued-schedule r d batch.requests l st)

      pub world-err : looked_up.world ≡ l.world
      world-err = rw (look_up_err unavailable) (world-schedule r d batch.requests l)

      pub staffed-err : Staffed r d looked_up
      staffed-err = rw (look_up_err unavailable) (schedule-Staffed r d batch.requests l st)

    module _ (st : Staffed r d l) where
      pub queued-ok :
          {m : HashMap t.Key t.Value}
          → load t.Key-discrete c (keys r order batch) ≡ ok m
          → Permᴰ
              (queued r d looked_up)
              (queued r d l ++ map calling_back (not_found r m batch.requests))
      unfolding queued
      queued-ok {m} e = rw (look_up_ok e) (
          queued-schedule r d (map calling_back (not_found r m batch.requests)) _
            (Staffed-world r d l (after r m visit batch l.world).1 st))

      pub world-ok :
          {m : HashMap t.Key t.Value}
          → load t.Key-discrete c (keys r order batch) ≡ ok m
          → looked_up.world ≡ (after r m visit batch l.world).1
      world-ok {m} e =
          rw (look_up_ok e) (world-schedule r d (map calling_back (not_found r m batch.requests)) _)

      pub staffed-ok :
          {m : HashMap t.Key t.Value}
          → load t.Key-discrete c (keys r order batch) ≡ ok m
          → Staffed r d looked_up
      staffed-ok {m} e = rw (look_up_ok e) (
          schedule-Staffed r d (map calling_back (not_found r m batch.requests)) _
            (Staffed-world r d l (after r m visit batch l.world).1 st))

    -- A look-up spawns at most one task of the data store's loader.
    pub length-looked_up : length looked_up.spawned ≤ 1 + length l.spawned
    length-looked_up = elim (Result-cases (load t.Key-discrete c (keys r order batch))) [
      | inl (m, e) ↦
          rw (look_up_ok e)
            (length-schedule r d (map calling_back (not_found r m batch.requests)) _)
      | inr (x, e) ↦ rw (look_up_err e) (length-schedule r d batch.requests l)
    ]

    -- A look-up closes no channel.
    pub is_closed-looked_up : (u : Tx r) → is_closed r looked_up.world u ≡ is_closed r l.world u
    is_closed-looked_up u = elim (Result-cases (load t.Key-discrete c (keys r order batch))) [
      | inl (m, e) ↦
          rw (look_up_ok e, world-schedule r d (map calling_back (not_found r m batch.requests)))
            (unfold apply_partial_results in
              for_each-closed r (resolve_found r m) (resolve_found-TouchesOwn r m)
                (visit.visit batch.requests) l.world u)
      | inr (x, e) ↦ rw (look_up_err e, world-schedule r d batch.requests l) refl
    ]
