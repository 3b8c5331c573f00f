-- ===== src/Tiers/Progress.antt =====
-- The steps of the two loaders that are the program's own, what they are answered, and how many are left.
use channel_loader_rs.Base.{
  ℕ, suc, ◌+◌, ◌*◌, ◌≤◌, ◌≡◌, refl, ap, ◌⊎◌, inl, inr, List, [], ◌∷◌, ◌++◌, arith, length,
  length-append,
}
use channel_loader_rs.External.{SwapQueue, Order}
use channel_loader_rs.External.Redis.{Text, Bytes}
use channel_loader_rs.Request.{Runtime, Request}
use channel_loader_rs.Task.{PendingAssignment, LoadBatch, get_assignment, from_requests}
use channel_loader_rs.Handler.{TaskHandler}
use channel_loader_rs.System.{System, Work}
use channel_loader_rs.System.Drain.{Given, IsIdle, work_left, work_left-Work, progress}
use channel_loader_rs.Redis.Cache.Lookup.{length-looked_up}
use channel_loader_rs.Tiers.{Redises, tiers_runtime, State, Act, take, finish, below}

module _ (t : Runtime) (wq : SwapQueue (Text × Bytes)) where
  abbrev r : Runtime
  r = tiers_runtime t wq

  module _ (q d : SwapQueue (Request r)) (redises : Redises t) (h : TaskHandler r d) where
    -- The most steps that are left: a task of the CacheStore is one to take it, one to end its look-up, and those of
    -- at most one task of the DataStore.
    unfoldable pub tiers_work_left : State t wq q d → ℕ
    unfolding work_left
    tiers_work_left s = 4 * length s.tasks + 3 * length s.loading + work_left r d h s.store

    pub work_left-Act :
        {s u : State t wq q d}
        → Act t wq q d redises h s u
        → tiers_work_left u + 1 ≤ tiers_work_left s
    unfolding tiers_work_left get_assignment from_requests
    work_left-Act {s} (take before after task e) = omega (
      arith,
      ap length e,
      length-append before (task ∷ after),
      length-append before after,
      length-append s.loading
          (record { requests = task.requests ++ (q.take task.stealer s.queue).0 } ∷ []),
    )
    work_left-Act {s} (finish time order visit before after batch e) = omega (
      arith,
      ap length e,
      length-append before (batch ∷ after),
      length-append before after,
      length-looked_up t wq (redises.at time) d order visit batch s.store.loader,
    )
    work_left-Act (below step) = omega (arith, work_left-Work r d h step)

    pub data Acts (s : State t wq q d) : ℕ → State t wq q d → Type 1 where
      done : Acts s 0 s
      then :
          {n : ℕ} {u v : State t wq q d}
          → Acts s n u
          → Act t wq q d redises h u v
          → Acts s (suc n) v

    pub work_left-Acts :
        {s u : State t wq q d} {n : ℕ} → Acts s n u → n + tiers_work_left u ≤ tiers_work_left s
    work_left-Acts done = omega arith
    work_left-Acts (then acts a) = omega (arith, work_left-Acts acts, work_left-Act a)

    abbrev pub AtRest : State t wq q d → Type 0
    AtRest s = (s.tasks ≡ []) × (s.loading ≡ []) × IsIdle r d h s.store

    -- What one step is answered, if it asks: by Redis, in an order of the keys, by a load, and in
    -- an order of visit.
    pub record Answers : Type 0 where
      pub time : redises.Time
      pub order : Order t.Key
      pub visit : Order (Request r)
      pub oracle : h.Oracle

    pub data Gives (a : Answers) {s : State t wq q d}
        : (u : State t wq q d) → Act t wq q d redises h s u → Type 1 where
      gives_take :
          (before after : List (PendingAssignment r q)) (task : PendingAssignment r q)
          (e : s.tasks ≡ before ++ task ∷ after)
          → Gives a _ (take before after task e)
      gives_finish :
          (before after : List (LoadBatch r)) (batch : LoadBatch r)
          (e : s.loading ≡ before ++ batch ∷ after)
          → Gives a _ (finish a.time a.order a.visit before after batch e)
      gives_below :
          {u : System r d} (step : Work r d h s.store u)
          → Given r d h a.oracle a.visit u step
          → Gives a _ (below step)

    -- The n-th step of the run is answered as the n-th of the answers says.
    pub data AllGive (answers : ℕ → Answers) {s : State t wq q d}
        : (n : ℕ) (u : State t wq q d) → Acts s n u → Type 1 where
      all_done : AllGive answers 0 s done
      all_then :
          {n : ℕ} {u v : State t wq q d} {acts : Acts s n u} {a : Act t wq q d redises h u v}
          → AllGive answers n u acts
          → Gives (answers n) v a
          → AllGive answers (suc n) v (then acts a)

    pub tiers_progress :
        (a : Answers) (s : State t wq q d)
        → AtRest s ⊎ ((u : State t wq q d) × (step : Act t wq q d redises h s u) × Gives a u step)
    tiers_progress a s = go s.tasks s.loading refl refl
      where
        go :
            (tasks : List (PendingAssignment r q)) (loading : List (LoadBatch r))
            → s.tasks ≡ tasks
            → s.loading ≡ loading
            → AtRest s
              ⊎ ((u : State t wq q d) × (step : Act t wq q d redises h s u) × Gives a u step)
        go (task ∷ tasks) loading e f = inr (_, take [] tasks task e, gives_take [] tasks task e)
        go [] (batch ∷ loading) e f =
            inr
              (_, finish a.time a.order a.visit [] loading batch f, gives_finish [] loading batch f)
        go [] [] e f = elim (progress r d h a.oracle a.visit s.store) [
          | inl rest ↦ inl (e, f, rest)
          | inr (u, step, given) ↦ inr (_, below step, gives_below step given)
        ]
