-- ===== src/Tiers/Invariant.antt =====
-- What holds of the two loaders in every state that the program can reach.
use channel_loader_rs.Base.{◌≡◌, List, [], ◌∷◌, ◌++◌, Memᴰ, some, ok, HashMap, get}
use channel_loader_rs.External.{SwapQueue}
use channel_loader_rs.External.Redis.{Text, Bytes}
use channel_loader_rs.Request.{Reply, Request}
use channel_loader_rs.Request.{Runtime}
use channel_loader_rs.Task.{LoadBatch}
use channel_loader_rs.Loader.Staffed.{Staffed, queued}
use channel_loader_rs.Handler.{TaskHandler}
use channel_loader_rs.System.Held.{held}
use channel_loader_rs.System.Invariant.{Loaded, AllLoaded}
use channel_loader_rs.Tickets.{tickets, Ledger}
use channel_loader_rs.Redis.Cache.{load}
use channel_loader_rs.Tiers.{Redises, tiers_runtime, State, front}

-- The requests that are being looked up in Redis.
unfoldable pub looked_up_requests : {r : Runtime} → List (LoadBatch r) → List (Request r)
looked_up_requests [] = []
looked_up_requests (batch ∷ batches) = batch.requests ++ looked_up_requests batches

module _ (t : Runtime) (wq : SwapQueue (Text × Bytes)) where
  abbrev r : Runtime
  r = tiers_runtime t wq

  -- `v` is the value that a look-up in Redis, at some time, finds for `k`, a key that it is asked for.
  pub record FromRedis (redises : Redises t) (k : t.Key) (v : Reply r) : Type 0 where
    pub time : redises.Time
    pub keys : List t.Key
    pub results : HashMap t.Key t.Value
    pub value : t.Value
    pub asked : Memᴰ k keys
    pub gives : load t.Key-discrete (redises.at time) keys ≡ ok results
    pub holds : get t.Key-discrete results k ≡ some value
    pub reply : v ≡ ok (some value)

  module _ (q d : SwapQueue (Request r)) where
    -- The requests in the CacheStore's queue, in its tasks and in their look-ups.
    unfoldable pub above : State t wq q d → List (Request r)
    unfolding looked_up_requests
    above s = queued r q (front s) ++ looked_up_requests s.loading

  module _ (q d : SwapQueue (Request r)) (redises : Redises t) (h : TaskHandler r d) where
    -- Where a reply comes from: the cache, or a load of the data store.
    pub data Source (k : t.Key) (v : Reply r) : Type 1 where
      cached : FromRedis redises k v → Source k v
      loaded : Loaded r d h k v → Source k v

    pub record Inv (log : List (Request r)) (s : State t wq q d) : Type 1 where
      pub front_staffed : Staffed r q (front s)
      pub store_staffed : Staffed r d s.store.loader
      pub jobs_loaded : AllLoaded r d h s.store
      pub ledger :
          Ledger r Source (tickets log) (tickets (above q d s ++ held r d s.store)) s.store.world
