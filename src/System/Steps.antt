-- ===== src/System/Steps.antt =====
-- Every step keeps the invariant, so it holds in every state that the program can reach.
use mathlib.Core.List.Permᴰ
use mathlib.Core.List.Memᴰ
use channel_loader_rs.Base.{sym, subst, inl, inr, List, [], ◌∷◌, ◌++◌}
use channel_loader_rs.External.{SwapQueue, ConcurrentMap}
use channel_loader_rs.Request.{Runtime, World, Request}
use channel_loader_rs.Request.Create.{Created, new_oneshot-Created}
use channel_loader_rs.Loader.{new_loader, load_by, enqueue, enqueue_made}
use channel_loader_rs.Loader.Staffed.{Staffed-world, queued, new_loader-Staffed, carried}
use channel_loader_rs.Handler.{TaskHandler}
use channel_loader_rs.Context.{Shared, get_or_create-Shared, Found}
use channel_loader_rs.System.{
  System, Work, init, requested, Reach, start, work, load, load_cached, drop,
}
use channel_loader_rs.System.Held.{held, held-enqueue, job_requests}
use channel_loader_rs.System.Invariant.{Loaded, Inv}
use channel_loader_rs.System.Ledgers.{Work-AllLoaded, Work-Staffed, Work-Ledger}
use channel_loader_rs.Tickets.{ticket, tickets, Ledger}
use channel_loader_rs.Tickets.Moves.{
  Ledger-perm, Ledger-extend, Ledger-drop, Ledger-issue, no_tickets-Ledger,
}

module _ (r : Runtime) (q : SwapQueue (Request r)) (h : TaskHandler r q) where
  pub init-Inv : (w : World r) → Inv r q h [] (init w)
  unfolding held queued new_loader carried job_requests
  init-Inv w = record {
    staffed = new_loader-Staffed r q w;
    loaded = λ job m. absurd (Memᴰ.not-nil m);
    ledger = rw q.buffer-new (no_tickets-Ledger r (Loaded r q h) w);
  }

  pub Work-Inv :
      {log : List (Request r)} {s t : System r q}
      → Work r q h s t
      → Inv r q h log s
      → Inv r q h log t
  Work-Inv step inv = record {
    staffed = Work-Staffed r q h step inv.staffed;
    loaded = Work-AllLoaded r q h step inv.loaded;
    ledger =
        Work-Ledger r q h (Loaded r q h) (λ k v g. g) [] step inv.staffed inv.loaded inv.ledger;
  }

  module _ {log : List (Request r)} {s : System r q} (inv : Inv r q h log s) where
    -- A new request is pushed.
    enqueue-Inv :
        (k : r.Key) (req : Request r) (w : World r)
        → Created r k s.world req w
        → Inv r q h
            (req ∷ log)
            (record s { loader = enqueue r q req (record s.loader { world = w }) })
    enqueue-Inv k req w c =
        let (staffed, same, pushed) = held-enqueue r q s req w inv.staffed in
        record {
          staffed = staffed;
          loaded = inv.loaded;
          ledger = subst (Ledger r (Loaded r q h) (tickets (req ∷ log)) _) (sym same) (
              Ledger-perm r (Loaded r q h) (Ledger-issue r (Loaded r q h) c inv.ledger)
                (Permᴰ.symm (Permᴰ.map ticket pushed)));
        }

    cached-Inv :
        (c : ConcurrentMap r.Key r.watch.Handle) (k : r.Key) (f : Found r c)
        → Shared r c k s.world f
        → Inv r q h
            (requested f.request ++ log)
            (record s { loader = enqueue_made r q f.request (record s.loader { world = f.world }) })
    unfolding held
    cached-Inv c k f shared = elim shared.source [
      | inl found ↦ rw found (record {
        staffed = Staffed-world r q s.loader f.world inv.staffed;
        loaded = inv.loaded;
        ledger = Ledger-extend r (Loaded r q h) inv.ledger shared.extends;
      })
      | inr (req, made, same, created) ↦ rw made (enqueue-Inv k req f.world created)
    ]

  module _ (c : ConcurrentMap r.Key r.watch.Handle) where
    -- In every reachable state, for any order of calls, tasks, jobs and callers that leave: a
    -- batch that waits has exactly one pending task and an empty queue has none; no sender is
    -- held twice; a held request has its channel and no reply; the results of every job come from
    -- a load of its requests' keys; and each request ever issued is held, or its caller has gone,
    -- or it was answered with what a load that was asked for its key gave for that key.
    pub Reach-Inv :
        {log : List (Request r)} {s : System r q} → Reach r q h c log s → Inv r q h log s
    unfolding load_by held
    Reach-Inv (start w) = init-Inv w
    Reach-Inv (work p step) = Work-Inv step (Reach-Inv p)
    Reach-Inv (load {s = s} p k) =
        let (created, same) = new_oneshot-Created r k s.world in
        enqueue-Inv (Reach-Inv p) k _ _ created
    Reach-Inv (load_cached {s = s} p others only_add k m f e) =
        let (f', e', shared) = get_or_create-Shared r c others 0 0 k m s.world only_add in
        cached-Inv (Reach-Inv p) c k f (subst (Shared r c k s.world) (cc) shared)
    Reach-Inv (drop {s = s} p t) =
        let inv = Reach-Inv p in
        record {
          staffed = Staffed-world r q s.loader _ inv.staffed;
          loaded = inv.loaded;
          ledger = Ledger-drop r (Loaded r q h) inv.ledger t;
        }
