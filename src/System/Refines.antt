-- ===== src/System/Refines.antt =====
-- The running loader does what the service of Service.antt does.
use mathlib.Core.List.Permᴰ
use channel_loader_rs.Service.{Event, asks, replies}
use channel_loader_rs.Base.{◌∷◌, Option, none, some, ◌≡◌, refl, subst, inl, inr, List, [], ◌++◌}
use channel_loader_rs.External.{SwapQueue, ConcurrentMap}
use channel_loader_rs.Request.{new_oneshot, Runtime, World, Request}
use channel_loader_rs.Request.Create.{drop_receivers}
use channel_loader_rs.Task.{run_job}
use channel_loader_rs.Loader.{new_loader, load_by, enqueue_made}
use channel_loader_rs.Loader.Staffed.{Staffed, queued, carried}
use channel_loader_rs.Handler.{TaskHandler}
use channel_loader_rs.Context.{Shared, get_or_create-Shared, Found}
use channel_loader_rs.System.{
  System, Work, handle, run, init, with_world, requested, Reach, start, work, load, load_cached,
  drop,
}
use channel_loader_rs.System.Held.{
  held, held-enqueue, held-after_handle, held-after_run, job_requests,
}
use channel_loader_rs.System.Ledgers.{split_off}
use channel_loader_rs.System.Steps.{Reach-Inv}
use channel_loader_rs.Tickets.{Ticket, ticket, tickets}
use channel_loader_rs.Tickets.Served.{
  Served, start-Served, moved-Served, pushed-Served, answered-Served,
}

module _ (r : Runtime) (q : SwapQueue (Request r)) (h : TaskHandler r q) where
  init-held : (w : World r) → held r q (init w) ≡ []
  unfolding held queued new_loader carried job_requests
  init-held w = rw q.buffer-new refl

  held-world : (s : System r q) (w : World r) → held r q (with_world s w) ≡ held r q s
  unfolding held queued
  held-world s w = refl

  -- What a step replies to: a job resolves each of its requests.
  abbrev pub work_events : {s t : System r q} → Work r q h s t → List (Event (Ticket r))
  work_events (handle o before after task e) = []
  work_events (run order before after job e) = replies (tickets (order.visit job.requests)) ∷ []

  -- A step of the loader, with other requests held elsewhere.
  pub Work-Served :
      {es : List (Event (Ticket r))} {log : List (Ticket r)} (elsewhere : List (Request r))
      {s t : System r q} (step : Work r q h s t)
      → Staffed r q s.loader
      → Served es log (tickets (elsewhere ++ held r q s))
      → Served (work_events step ++ es) log (tickets (elsewhere ++ held r q t))
  Work-Served elsewhere {s} (handle o before after task e) staffed = moved-Served (
      Permᴰ.map ticket
        (Permᴰ.append_left elsewhere (held-after_handle r q h s o before after task staffed e).1))
  Work-Served elsewhere {s} (run order before after job e) staffed =
      answered-Served (tickets (order.visit job.requests)) (
        split_off elsewhere (order.visit job.requests) (held r q s) _ (
          Permᴰ.trans (held-after_run r q s before after job (run_job r order job s.world) e)
            (Permᴰ.append_right _ (order.visit-perm job.requests))))

  -- A call takes a request if it made one.
  abbrev pub ask_events : Option (Request r) → List (Event (Ticket r))
  ask_events none = []
  ask_events (some req) = asks (ticket req) ∷ []

  module _ (c : ConcurrentMap r.Key r.watch.Handle) where
    -- What has been asked and replied on the way to a state, the latest first.
    abbrev pub history :
        {log : List (Request r)} {s : System r q} → Reach r q h c log s → List (Event (Ticket r))
    history (start w) = []
    history (work p step) = work_events step ++ history p
    history (load {s = s} p k) = asks (ticket (new_oneshot r k s.world).0.0) ∷ history p
    history (load_cached p others only_add k m f e) = ask_events f.request ++ history p
    history (drop p t) = history p

    cached-Served :
        {es : List (Event (Ticket r))} (log : List (Request r)) (s : System r q)
        → Staffed r q s.loader
        → (k : r.Key) (f : Found r c) → Shared r c k s.world f
        → Served es (tickets log) (tickets (held r q s))
        → Served (ask_events f.request ++ es) (tickets (requested f.request ++ log)) (
            tickets (
              held r q (record s {
                loader = enqueue_made r q f.request (record s.loader { world = f.world });
              })))
    cached-Served log s staffed k f shared served = elim shared.source [
      | inl found ↦ rw found (rw (held-world s f.world) served)
      | inr (req, made, same, created) ↦
          let (_, kept, pushed) = held-enqueue r q s req f.world staffed in
          rw made (pushed-Served (ticket req) (Permᴰ.map ticket pushed) served)
    ]

    pub Reach-Served :
        {log : List (Request r)} {s : System r q} (p : Reach r q h c log s)
        → Served (history p) (tickets log) (tickets (held r q s))
    unfolding load_by
    Reach-Served (start w) = rw (init-held w) start-Served
    Reach-Served (work p step) = Work-Served [] step (Reach-Inv r q h c p).staffed (Reach-Served p)
    Reach-Served (load {s = s} p k) =
        let (_, same, pushed) = held-enqueue r q s _ _ (Reach-Inv r q h c p).staffed in
        pushed-Served (ticket _) (Permᴰ.map ticket pushed) (Reach-Served p)
    Reach-Served (load_cached {log = log} {s = s} p others only_add k m f e) =
        let (f', e', shared) = get_or_create-Shared r c others 0 0 k m s.world only_add in
        cached-Served log s (Reach-Inv r q h c p).staffed k f
          (subst (Shared r c k s.world) (cc) shared) (Reach-Served p)
    Reach-Served (drop {s = s} p t) =
        rw (held-world s (drop_receivers r t s.world)) (Reach-Served p)
