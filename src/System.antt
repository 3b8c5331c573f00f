-- ===== src/System.antt =====
-- A DataLoader in the running program: calls of its thread, its spawned tasks and the jobs that they give to
-- rayon interleave in any order (deque-loader/src/loader.rs, task.rs, request.rs).
pub mod Held
pub mod Invariant
pub mod Steps
pub mod Drain
pub mod Ledgers
pub mod Refines
pub mod Once
use channel_loader_rs.Base.{ℕ, List, [], ◌∷◌, ◌++◌, ◌≡◌, Option, none, some}
use channel_loader_rs.External.{SwapQueue, ConcurrentMap, Order}
use channel_loader_rs.Request.{Runtime, World, Request, new_oneshot}
use channel_loader_rs.Request.Answer.{Tx}
use channel_loader_rs.Request.Create.{drop_receivers}
use channel_loader_rs.Task.{PendingAssignment, ResolveJob, run_job}
use channel_loader_rs.Context.{Found, get_or_create, OnlyAdd}
use channel_loader_rs.Loader.{DataLoader, new_loader, load_by, enqueue_made}
use channel_loader_rs.Handler.{TaskHandler}

-- `jobs` are the batches that handlers have taken and whose requests are not resolved yet: a job
-- stands there while its load runs and until rayon has run it.
pub record System (r : Runtime) (q : SwapQueue (Request r)) : Type 0 where
  pub loader : DataLoader r q
  pub open loader use *
  pub jobs : List (ResolveJob r)

abbrev pub given : {r : Runtime} → Option (ResolveJob r) → List (ResolveJob r)
given none = []
given (some job) = job ∷ []

abbrev pub requested : {r : Runtime} → Option (Request r) → List (Request r)
requested none = []
requested (some req) = req ∷ []

abbrev pub with_world :
    {r : Runtime} {q : SwapQueue (Request r)} → System r q → World r → System r q
with_world s w = record s { loader = record s.loader { world = w } }

abbrev pub init : {r : Runtime} {q : SwapQueue (Request r)} → World r → System r q
init {r} {q} w = record { loader = new_loader r q w; jobs = [] }

module _ (r : Runtime) (q : SwapQueue (Request r)) (h : TaskHandler r q) where
  -- A spawned task has run: it is gone from the tasks, and its job waits.
  abbrev pub after_handle :
      h.Oracle → List (PendingAssignment r q) → PendingAssignment r q → System r q → System r q
  after_handle o others task s =
      let handled = h.handle_task o task s.queue in
      record {
        loader = record { world = s.world; queue = handled.queue; spawned = others };
        jobs = s.jobs ++ given handled.job;
      }

  abbrev pub after_run :
      Order (Request r) → List (ResolveJob r) → ResolveJob r → System r q → System r q
  after_run order others job s = record (with_world s (run_job r order job s.world)) {
    jobs = others;
  }

  -- The steps of the program itself: tokio runs a spawned task, or rayon runs a job.
  pub data Work (s : System r q) : System r q → Type 0 where
    handle :
        (o : h.Oracle) (before after : List (PendingAssignment r q)) (task : PendingAssignment r q)
        → s.spawned ≡ before ++ task ∷ after
        → Work s (after_handle o (before ++ after) task s)
    run :
        (order : Order (Request r)) (before after : List (ResolveJob r)) (job : ResolveJob r)
        → s.jobs ≡ before ++ job ∷ after
        → Work s (after_run order (before ++ after) job s)

  module _ (c : ConcurrentMap r.Key r.watch.Handle) where
    -- The states that a loader can come to, with the requests issued so far. Besides the program's
    -- own steps, its thread calls `load_by` and `cached_load_by`, and callers drop their receivers.
    pub data Reach : List (Request r) → System r q → Type 0 where
      start : (w : World r) → Reach [] (init w)
      work : {log : List (Request r)} {s t : System r q} → Reach log s → Work s t → Reach log t
      load :
          {log : List (Request r)} {s : System r q}
          → Reach log s
          → (k : r.Key)
          → Reach
              ((new_oneshot r k s.world).0.0 ∷ log)
              (record s { loader = (load_by r q k s.loader).1 })
      load_cached :
          {log : List (Request r)} {s : System r q}
          → Reach log s
          → (others : ℕ → c.Map → c.Map) → OnlyAdd r c others
          → (k : r.Key) (m : c.Map) (f : Found r c)
          → get_or_create r c others 2 0 k m s.world ≡ some f
          → Reach (requested f.request ++ log) (record s {
            loader = enqueue_made r q f.request (record s.loader { world = f.world });
          })
      drop :
          {log : List (Request r)} {s : System r q}
          → Reach log s
          → (t : Tx r) → Reach log (with_world s (drop_receivers r t s.world))
