-- ===== src/Handler/Shared.antt =====
-- What the calls of `cached_load_by` in one request context get, with any handler.
use Prim.Native.Nat.{min}
use channel_loader_rs.Base.{
  ℕ, suc, ◌≡◌, refl, ◌∙◌, ap, subst, none, some, List, [], ◌∷◌, map, Memᴰ, count, arith,
}
use channel_loader_rs.External.{SwapQueue, ConcurrentMap, Order}
use channel_loader_rs.Request.{Runtime, Reply, World, Request, key}
use channel_loader_rs.Request.Answer.{watch_tx, answer}
use channel_loader_rs.Request.Receive.{recv_watch, returns, recv_watch-answer}
use channel_loader_rs.Task.{PendingAssignment, new_task}
use channel_loader_rs.Loader.{DataLoader}
use channel_loader_rs.Loader.Shared.{cached_all}
use channel_loader_rs.Loader.Contexts.{cached_all-new}
use channel_loader_rs.Handler.{TaskHandler}
use channel_loader_rs.Handler.Answer.{run_handled, assigned_to}
use channel_loader_rs.Handler.Together.{loaded_for, waiting-assigned, waiting-answer}

module _ (r : Runtime) where
  -- Each of the calls comes back with the reply for its key.
  abbrev pub AllShare : (r.Key → Reply r) → World r → List (r.Key × r.watch.Handle) → Type 0
  AllShare reply w [] = Unit {0}
  AllShare reply w (call ∷ calls) =
      (recv_watch r call.1 w [] ≡ returns (reply call.0)) × AllShare reply w calls

  all_share :
      (reply : r.Key → Reply r) (w : World r) (calls : List (r.Key × r.watch.Handle))
      → ((call : r.Key × r.watch.Handle)
          → Memᴰ call calls
          → answer r w (watch_tx call.1) ≡ some (reply call.0))
      → AllShare reply w calls
  all_share reply w [] answers = tt
  all_share reply w (call ∷ calls) answers = (
    recv_watch-answer r w call.1 (reply call.0) [] (answers call (Memᴰ.head refl)),
    all_share reply w calls (λ x m. answers x (Memᴰ.tail m)),
  )

module _ (r : Runtime) (q : SwapQueue (Request r)) (h : TaskHandler r q) where
  -- When keys are asked for with `cached_load_by`, one after the other with the new cache of a
  -- request that no other thread uses meanwhile, on a loader with no batch waiting and no task
  -- spawned, every call returns and one task is spawned, which is assigned exactly one request
  -- for each different key. When the handler has run on it and rayon its job, in any order of
  -- visit, each call comes back with what the one load gave for its key, also when its request is
  -- that of an earlier call.
  pub cached_all-one_batch :
      (c : ConcurrentMap r.Key r.watch.Handle) (fuel : ℕ) (o : h.Oracle) (visit : Order (Request r))
      (k : r.Key) (ks : List r.Key) (l : DataLoader r q)
      → q.waiting l.queue ≡ none
      → l.spawned ≡ []
      → (calls : List (r.Key × r.watch.Handle)) × (m : c.Map) × (l' : DataLoader r q)
        × (task : PendingAssignment r q) × (cached_all r q c (suc fuel) (k ∷ ks) c.new l
            ≡ some (calls, m, l'))
        × (map (λ call. call.0) calls ≡ k ∷ ks)
        × (l'.spawned ≡ task ∷ [])
        × ((j : r.Key)
            → count r.Key-discrete j (map (key r) (assigned_to r q task l'.queue))
              ≡ min 1 (count r.Key-discrete j (k ∷ ks)))
        × AllShare r
            (loaded_for r q h o task l'.queue)
            (run_handled r q visit (h.handle_task o task l'.queue) l'.world)
            calls
  cached_all-one_batch c fuel o visit k ks l out none_spawned =
      let (calls, after, called, keys, all) = cached_all-new r q c fuel k ks l out none_spawned in
      let task = new_task r q after.waits.stealer in
      (
        calls,
        after.context,
        after.loader,
        task,
        called,
        keys,
        after.waits.one,
        (λ j.
            ap (λ reqs. count r.Key-discrete j (map (key r) reqs))
              (waiting-assigned r q h after.loader after.requests after.waits)
            ∙ after.kept.counted j
            ∙ ap (λ n. min 1 n) (omega arith)),
        all_share r (loaded_for r q h o task after.loader.queue) _ calls (λ call m.
            let (req, held, keyed, same) = after.kept.stored call.0 call.1 (all call m) in
            let w' =
              run_handled r q visit (h.handle_task o task after.loader.queue) after.loader.world in
            subst (λ t. answer r w' t ≡ some (loaded_for r q h o task after.loader.queue call.0))
              same
              (waiting-answer r q h o visit after.loader after.requests after.waits req held
                ∙ ap (λ k. some (loaded_for r q h o task after.loader.queue k)) keyed)),
      )
