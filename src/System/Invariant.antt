-- ===== src/System/Invariant.antt =====
-- What holds of a loader in every state that the program can reach.
use channel_loader_rs.Base.{◌≡◌, List, Memᴰ}
use channel_loader_rs.External.{SwapQueue}
use channel_loader_rs.Request.{Runtime, Reply, Request}
use channel_loader_rs.Task.{LoadBatch, ResolveJob, keys}
use channel_loader_rs.Task.Resolve.{reply_to}
use channel_loader_rs.Loader.Staffed.{Staffed}
use channel_loader_rs.Handler.{TaskHandler}
use channel_loader_rs.System.{System}
use channel_loader_rs.System.Held.{held}
use channel_loader_rs.Tickets.{tickets, Ledger}

module _ (r : Runtime) (q : SwapQueue (Request r)) (h : TaskHandler r q) where
  -- `v` is what one load gave for the key `k`, which was among the keys that it was asked for.
  pub record Loaded (k : r.Key) (v : Reply r) : Type 0 where
    pub oracle : h.Oracle
    pub batch : LoadBatch r
    pub asked : Memᴰ k (keys r (h.key_order oracle) batch)
    pub reply : v ≡ reply_to r (h.results_for oracle (keys r (h.key_order oracle) batch)) k

  abbrev pub IsLoaded : ResolveJob r → Type 0
  IsLoaded job =
      (o : h.Oracle) × (job.results
        ≡ h.results_for o (keys r (h.key_order o) (record { requests = job.requests })))

  abbrev pub AllLoaded : System r q → Type 0
  AllLoaded s = (job : ResolveJob r) → Memᴰ job s.jobs → IsLoaded job

  -- The queue and its task fit together, jobs hold the results of loads, and each request that was
  -- issued is held, or its caller has gone, or it has been answered as its key was loaded.
  pub record Inv (log : List (Request r)) (s : System r q) : Type 0 where
    pub staffed : Staffed r q s.loader
    pub loaded : AllLoaded s
    pub ledger : Ledger r Loaded (tickets log) (tickets (held r q s)) s.world
