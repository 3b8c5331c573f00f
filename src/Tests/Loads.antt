-- ===== src/Tests/Loads.antt =====
-- Loads through one DataLoader with the `BatchSizeLoader` of deque-loader/src/batch.rs's tests.
use channel_loader_rs.Base.{
  ℕ, ◌≡◌, refl, ◌⊎◌, List, [], ◌∷◌, none, some, ok, Memᴰ, ℕ_discrete, count, get, true, hash_set,
}
use channel_loader_rs.External.{SwapQueue}
use channel_loader_rs.System.Refines.{history}
use channel_loader_rs.System.Held.{held}
use channel_loader_rs.Tickets.{tickets}
use channel_loader_rs.Request.{
  Reply, Request, oneshot, new_oneshot, new_watch, key, resolve, call_cache_cb,
}
use channel_loader_rs.Request.Answer.{tx, oneshot_tx, answer, is_closed}
use channel_loader_rs.Request.Receive.{recv_oneshot, returns, recv_watch}
use channel_loader_rs.Task.{
  PendingAssignment, ResolveJob, run_job, keys, get_assignment, new_task, resolve_job,
  from_requests, for_each,
}
use channel_loader_rs.Loader.{new_loader, load_by, enqueue, spawn}
use channel_loader_rs.Batch.Sizes.{batch_size_load}
use channel_loader_rs.System.Once.{Reach-Runs}
use channel_loader_rs.Tickets.Served.{Fulfils}
use channel_loader_rs.Batch.{batch_handler, handle_task}
use channel_loader_rs.Handler.{TaskHandler}
use channel_loader_rs.System.{
  System, handle, run, init, Reach, start, work, load, after_handle, after_run,
}
use channel_loader_rs.System.Invariant.{Inv, Loaded}
use channel_loader_rs.System.Steps.{Reach-Inv}
use channel_loader_rs.System.Drain.{Works, done, then, IsIdle, load_by-returns, settled}
use channel_loader_rs.Tests.Instances.{
  runtime, empty, swap_queue, backwards, concurrent_map, batch_size_loader,
}

abbrev pub queue : SwapQueue (Request runtime)
queue = swap_queue (Request runtime)

abbrev pub handler : TaskHandler runtime queue
handler = batch_handler runtime queue

abbrev pub Loader : Type 0
Loader = System runtime queue

-- What the steps below compute with.
unfoldable pub program : Unit {0}
unfolding load_by enqueue spawn new_loader new_oneshot new_watch key resolve call_cache_cb run_job
    for_each keys get_assignment new_task resolve_job from_requests handle_task hash_set count get
    ℕ_discrete recv_oneshot recv_watch batch_size_load
program = tt

abbrev pub calls : ℕ → Loader → Loader
calls k s = record s { loader = (load_by runtime queue k s.loader).1 }

abbrev pub two_calls : Loader
two_calls = calls 3 (calls 2 (init empty))

abbrev pub task : PendingAssignment runtime queue
task = record { stealer = tt; requests = [] }

abbrev pub requests : List (Request runtime)
requests = oneshot 2 0 none ∷ oneshot 3 1 none ∷ []

abbrev pub job : ResolveJob runtime
job = record { requests = requests; results = ok ((2, 2) ∷ (3, 2) ∷ []) }

abbrev handled : Loader
handled = after_handle runtime queue handler batch_size_loader [] task two_calls

abbrev resolved : Loader
resolved = after_run runtime queue handler (backwards (Request runtime)) [] job handled

-- The test `it_auto_batches`: two loads become one batch of two keys, which answers both.
it_auto_batches :
    (recv_oneshot runtime resolved.world 0 ≡ returns (ok (some 2)))
    × (recv_oneshot runtime resolved.world 1 ≡ returns (ok (some 2)))
unfolding program
it_auto_batches = (refl, refl)

one_task : two_calls.spawned ≡ task ∷ []
unfolding program
one_task = refl

one_job : handled.jobs ≡ job ∷ []
unfolding program
one_job = refl

works : Works runtime queue handler two_calls 2 resolved
works =
    then (then done (handle batch_size_loader [] [] task one_task))
      (run (backwards _) [] [] job one_job)

resolved-IsIdle : IsIdle runtime queue handler resolved
unfolding program
resolved-IsIdle = (refl, refl)

abbrev Reached : List (Request runtime) → Loader → Type 0
Reached = Reach runtime queue handler (concurrent_map ℕ)

abbrev log : List (Request runtime)
log =
    (new_oneshot runtime 3 (calls 2 (init empty)).world).0.0
    ∷ (new_oneshot runtime 2 empty).0.0
    ∷ []

reach_two : Reached log two_calls
unfolding new_loader
reach_two = load (load (start empty) 2) 3

reach_resolved : Reached log resolved
reach_resolved =
    work (work reach_two (handle batch_size_loader [] [] task one_task))
      (run (backwards _) [] [] job one_job)

load_by-returns_example :
    (v : Reply runtime) × (recv_oneshot runtime resolved.world 1 ≡ returns v)
    × Loaded runtime queue handler 3 v
unfolding program
load_by-returns_example =
    load_by-returns runtime queue handler (concurrent_map ℕ) (load (start empty) 2) 3 resolved works
      resolved-IsIdle

Reach-Inv_example : Inv runtime queue handler log resolved
Reach-Inv_example = Reach-Inv runtime queue handler (concurrent_map ℕ) reach_resolved

settled_example :
    (is_closed runtime resolved.world (oneshot_tx 1) ≡ true)
    ⊎ ((v : Reply runtime) × (answer runtime resolved.world (oneshot_tx 1) ≡ some v)
        × Loaded runtime queue handler 3 v)
unfolding program tx
settled_example =
    settled runtime queue handler (concurrent_map ℕ) reach_resolved resolved-IsIdle
      (oneshot 3 1 none) (Memᴰ.head refl)

Reach-Runs_example :
    Fulfils runtime
      (Loaded runtime queue handler)
      (history runtime queue handler (concurrent_map ℕ) reach_resolved)
      (tickets log)
      (tickets (held runtime queue resolved))
      resolved.world
Reach-Runs_example = Reach-Runs runtime queue handler (concurrent_map ℕ) reach_resolved
