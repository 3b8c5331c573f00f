-- ===== src/System/Once.antt =====
-- Each request is answered once: the loader's runs are runs of the service, and what the service has answered
-- has its reply.
use channel_loader_rs.Base.{◌≤◌, subst, inl, inr, List, ◌∷◌, ◌++◌, arith, count}
use channel_loader_rs.External.{SwapQueue, ConcurrentMap}
use channel_loader_rs.Request.{Runtime, World, Request}
use channel_loader_rs.Request.Answer.{Tx}
use channel_loader_rs.Request.Create.{Created, new_oneshot-Created}
use channel_loader_rs.Handler.{TaskHandler}
use channel_loader_rs.Context.{Shared, get_or_create-Shared, Found}
use channel_loader_rs.System.{System, requested, Reach, start, work, load, load_cached, drop}
use channel_loader_rs.System.Held.{held}
use channel_loader_rs.System.Invariant.{Loaded, Inv}
use channel_loader_rs.System.Steps.{Reach-Inv}
use channel_loader_rs.System.Refines.{history, Reach-Served}
use channel_loader_rs.Tickets.Served.{issue_once, Served-Fulfils, Fulfils}
use channel_loader_rs.Tickets.{tickets, uses}

module _ (r : Runtime) (q : SwapQueue (Request r)) (h : TaskHandler r q)
    (c : ConcurrentMap r.Key r.watch.Handle) where
  -- No two requests that were issued have the same sender.
  IsOnce : List (Request r) → Type 0
  IsOnce log = (t : Tx r) → uses r t (tickets log) ≤ 1

  issue-IsOnce :
      {log : List (Request r)} {s : System r q} {k : r.Key} {req : Request r} {w : World r}
      → Inv r q h log s
      → Created r k s.world req w
      → IsOnce log
      → IsOnce (req ∷ log)
  unfolding IsOnce
  issue-IsOnce {log} {s} {req = req} inv created once =
      issue_once r (Loaded r q h) inv.ledger created once

  cached-IsOnce :
      {log : List (Request r)} {s : System r q}
      → Inv r q h log s
      → (k : r.Key) (f : Found r c) → Shared r c k s.world f
      → IsOnce log
      → IsOnce (requested f.request ++ log)
  cached-IsOnce inv k f shared once = elim shared.source [
    | inl found ↦ rw found once
    | inr (req, made, same, created) ↦ rw made (issue-IsOnce inv created once)
  ]

  Reach-IsOnce : {log : List (Request r)} {s : System r q} → Reach r q h c log s → IsOnce log
  Reach-IsOnce (start w) = unfold IsOnce uses count in λ t. omega arith
  Reach-IsOnce (work p step) = Reach-IsOnce p
  Reach-IsOnce (load {s = s} p k) =
      issue-IsOnce (Reach-Inv r q h c p) (new_oneshot-Created r k s.world).0 (Reach-IsOnce p)
  Reach-IsOnce (load_cached {log = log} {s = s} p others only_add k m f e) =
      let (f', e', shared) = get_or_create-Shared r c others 0 0 k m s.world only_add in
      cached-IsOnce (Reach-Inv r q h c p) k f (subst (Shared r c k s.world) (cc) shared)
        (Reach-IsOnce p)
  Reach-IsOnce (drop p t) = Reach-IsOnce p

  -- In every reachable state of a loader, for any order of calls, tasks, jobs and callers that
  -- leave, what was asked and replied on the way is a run of the abstract service, which replies
  -- to requests that are outstanding only, and has outstanding what the loader holds; a job
  -- replies to each of its requests. The requests asked are those issued; they are, each as
  -- often, those replied to and those held; none is replied to twice; each that was replied to
  -- has the reply that a load asked for its key gave for it, or its caller had gone; and none
  -- that is held has a reply.
  pub Reach-Runs :
      {log : List (Request r)} {s : System r q} (p : Reach r q h c log s)
      → Fulfils r (Loaded r q h) (history r q h c p) (tickets log) (tickets (held r q s)) s.world
  unfolding IsOnce
  Reach-Runs {log} {s} p =
      Served-Fulfils r (Loaded r q h) s.world (Reach-Inv r q h c p).ledger (Reach-IsOnce p)
        (Reach-Served r q h c p)
