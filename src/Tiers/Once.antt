-- ===== src/Tiers/Once.antt =====
-- Each request is answered once, by Redis or by the data store, whichever of the two loaders took it.
use channel_loader_rs.Base.{◌≤◌, subst, inl, inr, List, ◌++◌, arith, count}
use channel_loader_rs.External.{SwapQueue, ConcurrentMap}
use channel_loader_rs.External.Redis.{Text, Bytes}
use channel_loader_rs.Request.{Runtime, Request}
use channel_loader_rs.Request.Answer.{Tx}
use channel_loader_rs.Request.Create.{new_oneshot-Created}
use channel_loader_rs.Handler.{TaskHandler}
use channel_loader_rs.Context.{Shared, get_or_create-Shared, Found}
use channel_loader_rs.System.{requested}
use channel_loader_rs.Tickets.{tickets, uses}
use channel_loader_rs.Tickets.Served.{Served-Fulfils, Fulfils, issue_once}
use channel_loader_rs.Tiers.{
  Redises, tiers_runtime, State, Reach, start, act, load, load_store, load_cached,
  load_store_cached, drop,
}
use channel_loader_rs.Tiers.Invariant.{Source, Inv}
use channel_loader_rs.Tiers.Steps.{tiers_Reach-Inv}
use channel_loader_rs.Tiers.Refines.{outstanding, tiers_history, tiers_Reach-Served}

module _ (t : Runtime) (wq : SwapQueue (Text × Bytes)) where
  abbrev r : Runtime
  r = tiers_runtime t wq

  module _ (q d : SwapQueue (Request r)) (redises : Redises t) (h : TaskHandler r d)
      (c : ConcurrentMap t.Key t.watch.Handle) where
    -- No two requests that were issued have the same sender.
    AreOnce : List (Request r) → Type 0
    AreOnce log = (u : Tx r) → uses r u (tickets {r = r} log) ≤ 1

    cached-AreOnce :
        {log : List (Request r)} {s : State t wq q d}
        → Inv t wq q d redises h log s
        → (k : t.Key) (f : Found r c) → Shared r c k s.store.world f
        → AreOnce log
        → AreOnce (requested f.request ++ log)
    unfolding AreOnce
    cached-AreOnce inv k f shared once = elim shared.source [
      | inl found ↦ rw found once
      | inr (req, made, same, created) ↦
          rw made (issue_once r (Source t wq q d redises h) inv.ledger created once)
    ]

    Reach-AreOnce :
        {log : List (Request r)} {s : State t wq q d}
        → Reach t wq q d redises h c log s
        → AreOnce log
    unfolding AreOnce
    Reach-AreOnce (start w) = unfold uses count in λ u. omega arith
    Reach-AreOnce (act p step) = Reach-AreOnce p
    Reach-AreOnce (load {s = s} p k) =
        issue_once r (Source t wq q d redises h) (tiers_Reach-Inv t wq q d redises h c p).ledger
          (new_oneshot-Created r k s.store.world).0 (Reach-AreOnce p)
    Reach-AreOnce (load_store {s = s} p k) =
        issue_once r (Source t wq q d redises h) (tiers_Reach-Inv t wq q d redises h c p).ledger
          (new_oneshot-Created r k s.store.world).0 (Reach-AreOnce p)
    Reach-AreOnce (load_cached {s = s} p others only_add k m f e) =
        let (f', e', shared) = get_or_create-Shared r c others 0 0 k m s.store.world only_add in
        cached-AreOnce (tiers_Reach-Inv t wq q d redises h c p) k f
          (subst (Shared r c k s.store.world) (cc) shared) (Reach-AreOnce p)
    Reach-AreOnce (load_store_cached {s = s} p others only_add k m f e) =
        let (f', e', shared) = get_or_create-Shared r c others 0 0 k m s.store.world only_add in
        cached-AreOnce (tiers_Reach-Inv t wq q d redises h c p) k f
          (subst (Shared r c k s.store.world) (cc) shared) (Reach-AreOnce p)
    Reach-AreOnce (drop p u) = Reach-AreOnce p

    -- In every reachable state of a cache's loader and the data store's loader behind it, for any
    -- order of calls of both, tasks, look-ups in Redis with any of its answers, rayon jobs and
    -- callers that leave, what was asked and replied on the way is a run of the abstract service,
    -- which replies to requests that are outstanding only, and has outstanding what the two
    -- loaders hold; a look-up replies to what it found and a job to each of its requests. The
    -- requests asked are those issued; they are, each as often, those replied to and those held;
    -- none is replied to twice; each that was replied to has a reply that Redis or a load gave
    -- for its key, or its caller had gone; and none that is held has a reply.
    pub tiers_Reach-Runs :
        {log : List (Request r)} {s : State t wq q d} (p : Reach t wq q d redises h c log s)
        → Fulfils r
            (Source t wq q d redises h)
            (tiers_history t wq q d redises h c p)
            (tickets {r = r} log)
            (outstanding t wq q d redises h s)
            s.store.world
    unfolding AreOnce
    tiers_Reach-Runs {s = s} p =
        Served-Fulfils r (Source t wq q d redises h) s.store.world
          (tiers_Reach-Inv t wq q d redises h c p).ledger (Reach-AreOnce p)
          (tiers_Reach-Served t wq q d redises h c p)
