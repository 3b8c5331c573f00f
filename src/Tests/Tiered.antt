-- ===== src/Tests/Tiered.antt =====
-- Loads through the cache and the loader behind it: Redis holds one of two keys.
use channel_loader_rs.Base.{
  ◌+◌, ℕ, ◌≤◌, ◌≡◌, refl, false, List, [], ◌∷◌, none, some, ok, map, length,
}
use channel_loader_rs.Request.{Reply, World, Request, oneshot, new_oneshot, pending, waiting}
use channel_loader_rs.Request.Receive.{recv_oneshot, returns}
use channel_loader_rs.Task.{PendingAssignment, LoadBatch, ResolveJob}
use channel_loader_rs.Batch.{BatchLoader, batch_handler}
use channel_loader_rs.Handler.{TaskHandler}
use channel_loader_rs.Loader.{load_by, new_loader}
use channel_loader_rs.System.{handle, run, after_handle, after_run}
use channel_loader_rs.Base.{extend}
use channel_loader_rs.Request.{set_cache_cb}
use channel_loader_rs.Task.{apply_partial_results, not_found, resolve_found}
use channel_loader_rs.Loader.{schedule, schedule_assignment}
use channel_loader_rs.Redis.Cache.{
  look_up, load, found, decode, cache_key, schedule_rest, update_cache_on_load, cache_cb,
  infallibly_update_cache,
}
use channel_loader_rs.Tiers.{
  Redises, State, front, with_front, init_tiers, after_take, after_look_up, take, finish, below,
  Reach, start, act, load as call,
}
use channel_loader_rs.Tiers.Invariant.{Inv, Source}
use channel_loader_rs.Tiers.Steps.{tiers_Reach-Inv}
use channel_loader_rs.Tiers.Refines.{outstanding, tiers_history}
use channel_loader_rs.Tiers.Once.{tiers_Reach-Runs}
use channel_loader_rs.Tickets.Served.{Fulfils}
use channel_loader_rs.Tickets.{tickets}
use channel_loader_rs.Tiers.Progress.{Answers, AllGive, Acts, done, then, AtRest, tiers_work_left}
use channel_loader_rs.Tiers.Drain.{tiers_drain, tiers_load_by-returns}
use channel_loader_rs.Tests.Instances.{runtime, backwards, concurrent_map}
use channel_loader_rs.Tests.Caches.{redis, writes, both, queue, no_writes}
use channel_loader_rs.Tests.Loads.{program}

abbrev none_made : World both
none_made = record {
  oneshots = record { next = 0; views = λ _. waiting; closed = λ _. false };
  watches = record { next = 0; views = λ _. pending; closed = λ _. false };
  cache = no_writes;
}

abbrev handler : TaskHandler both queue
handler = batch_handler both queue

abbrev sizes : BatchLoader both
sizes = record { load = λ keys. ok (map (λ k. (k, length keys)) keys); order = backwards ℕ }

abbrev Here : Type 0
Here = State runtime writes queue queue

abbrev idle : Here
idle = init_tiers none_made

abbrev call_of : ℕ → Here → Here
call_of k s = with_front s (load_by both queue k (front s)).1

abbrev redises : Redises runtime
redises = record { Time = Unit {0}; at = λ _. redis }

abbrev called : Here
called = call_of 3 (call_of 2 idle)

abbrev task : PendingAssignment both queue
task = record { stealer = tt; requests = [] }

abbrev taken : Here
taken = after_take runtime writes queue queue [] task called

abbrev batch : LoadBatch both
batch = record { requests = oneshot 2 0 none ∷ oneshot 3 1 none ∷ [] }

abbrev looked : Here
looked =
    after_look_up runtime writes queue queue redis (backwards ℕ) (backwards (Request both)) [] batch
      taken

abbrev missed : LoadBatch both
missed = record { requests = oneshot 3 1 (some (cache_cb runtime writes redis)) ∷ [] }

abbrev stored : Here
stored = record looked { store = after_handle both queue handler sizes [] task looked.store }

abbrev job : ResolveJob both
job = record { requests = missed.requests; results = ok ((3, 1) ∷ []) }

abbrev finished : Here
finished = record stored {
  store = after_run both queue handler (backwards (Request both)) [] job stored.store;
}

-- What the steps compute with, besides what a single loader does.
unfoldable tiers_program : Unit {0}
unfolding program look_up load found decode cache_key extend apply_partial_results not_found
    resolve_found schedule_rest schedule_assignment schedule update_cache_on_load cache_cb
    infallibly_update_cache set_cache_cb
tiers_program = tt

one_taken : called.tasks ≡ task ∷ []
unfolding tiers_program
one_taken = refl

one_looked_up : taken.loading ≡ batch ∷ []
unfolding tiers_program
one_looked_up = refl

one_task : looked.store.spawned ≡ task ∷ []
unfolding tiers_program
one_task = refl

one_job : stored.store.jobs ≡ job ∷ []
unfolding tiers_program
one_job = refl

-- The first call has its answer from Redis, the second from the data store, and the second value
-- waits to be written to Redis.
tiers_answer :
    (recv_oneshot both finished.store.world 0 ≡ returns (ok (some 20)))
    × (recv_oneshot both finished.store.world 1 ≡ returns (ok (some 1)))
    × (finished.store.world.cache.queue.items ≡ (cache_key redis 3, 1 ∷ []) ∷ [])
unfolding tiers_program
tiers_answer = (refl, refl, refl)

acts : Acts runtime writes queue queue redises handler called 4 finished
acts =
    then
      (then
        (then (then done (take [] [] task one_taken))
          (finish tt (backwards ℕ) (backwards (Request both)) [] [] batch one_looked_up))
        (below (handle sizes [] [] task one_task)))
      (below (run (backwards (Request both)) [] [] job one_job))

at_rest : AtRest runtime writes queue queue redises handler finished
unfolding tiers_program
at_rest = (refl, refl, (refl, refl))

abbrev Reached : List (Request both) → Here → Type 1
Reached = Reach runtime writes queue queue redises handler (concurrent_map ℕ)

abbrev log : List (Request both)
log =
    (new_oneshot both 3 (call_of 2 idle).store.world).0.0 ∷ (new_oneshot both 2 none_made).0.0 ∷ []

reach_called : Reached log called
unfolding new_loader
reach_called = call (call (start none_made) 2) 3

tiers_load_by-returns_example :
    (v : Reply both) × (recv_oneshot both finished.store.world 1 ≡ returns v)
    × Source runtime writes queue queue redises handler 3 v
unfolding program
tiers_load_by-returns_example =
    tiers_load_by-returns runtime writes queue queue redises handler (concurrent_map ℕ)
      (call (start none_made) 2) 3 finished acts at_rest

reach_finished : Reached log finished
reach_finished =
    act
      (act
        (act (act reach_called (take [] [] task one_taken))
          (finish tt (backwards ℕ) (backwards (Request both)) [] [] batch one_looked_up))
        (below (handle sizes [] [] task one_task)))
      (below (run (backwards (Request both)) [] [] job one_job))

tiers_Reach-Runs_example :
    Fulfils both
      (Source runtime writes queue queue redises handler)
      (tiers_history runtime writes queue queue redises handler (concurrent_map ℕ) reach_finished)
      (tickets log)
      (outstanding runtime writes queue queue redises handler finished)
      finished.store.world
tiers_Reach-Runs_example =
    tiers_Reach-Runs runtime writes queue queue redises handler (concurrent_map ℕ) reach_finished

tiers_Reach-Inv_example : Inv runtime writes queue queue redises handler log finished
tiers_Reach-Inv_example =
    tiers_Reach-Inv runtime writes queue queue redises handler (concurrent_map ℕ) reach_finished

-- Every look-up finds Redis as it is, and every load gives sizes.
abbrev answers : ℕ → Answers runtime writes queue queue redises handler
answers n = record {
  time = tt;
  order = backwards ℕ;
  visit = backwards (Request both);
  oracle = sizes;
}

tiers_drain_example :
    (m : ℕ) × (v : Here) × (more : Acts runtime writes queue queue redises handler taken m v)
    × AllGive runtime writes queue queue redises handler answers m v more
    × AtRest runtime writes queue queue redises handler v
    × (1 + m ≤ tiers_work_left runtime writes queue queue redises handler called)
tiers_drain_example =
    tiers_drain runtime writes queue queue redises handler answers called taken
      (then done (take [] [] task one_taken))
