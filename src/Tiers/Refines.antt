-- ===== src/Tiers/Refines.antt =====
-- The two loaders together do what the service of Service.antt does: a request that moves from the one to the
-- other stays outstanding.
use mathlib.Core.List.Permᴰ
use channel_loader_rs.Base.{◌≡◌, refl, subst, inl, inr, List, [], ◌∷◌, ◌++◌, Permᴰ}
use channel_loader_rs.External.{SwapQueue, ConcurrentMap}
use channel_loader_rs.External.Redis.{Text, Bytes}
use channel_loader_rs.Request.{new_oneshot, Runtime, World, Request}
use channel_loader_rs.Task.{get_assignment, from_requests}
use channel_loader_rs.Context.{Shared, get_or_create-Shared, Found}
use channel_loader_rs.Loader.{new_loader, load_by, enqueue, enqueue_made}
use channel_loader_rs.Loader.Staffed.{Staffed-world, queued, carried}
use channel_loader_rs.Loader.Schedule.{queued-enqueue}
use channel_loader_rs.Handler.{TaskHandler}
use channel_loader_rs.System.{requested}
use channel_loader_rs.System.Held.{held, held-enqueue, job_requests}
use channel_loader_rs.System.Refines.{Work-Served, work_events, ask_events}
use channel_loader_rs.Service.{Event, asks}
use channel_loader_rs.Tickets.{Ticket, ticket, tickets}
use channel_loader_rs.Tickets.Served.{Served, start-Served, moved-Served, pushed-Served}
use channel_loader_rs.Tiers.{
  Redises, tiers_runtime, State, front, with_front, with_store, init_tiers, Act, take, finish,
  below, Reach, start, act, load, load_store, load_cached, load_store_cached, drop,
}
use channel_loader_rs.Tiers.Invariant.{looked_up_requests, above, Inv}
use channel_loader_rs.Tiers.Adapter.{look_up_events, finish-Served}
use channel_loader_rs.Tiers.Steps.{take-above, tiers_Reach-Inv}

module _ (t : Runtime) (wq : SwapQueue (Text × Bytes)) where
  abbrev r : Runtime
  r = tiers_runtime t wq

  module _ (q d : SwapQueue (Request r)) (redises : Redises t) (h : TaskHandler r d) where
    -- All requests that the two loaders hold.
    abbrev pub outstanding : State t wq q d → List (Ticket r)
    outstanding s = tickets {r = r} (above t wq q d s ++ held r d s.store)

    init-outstanding : (w : World r) → outstanding (init_tiers w) ≡ []
    unfolding above held queued new_loader carried job_requests looked_up_requests
    init-outstanding w = rw (q.buffer-new, d.buffer-new) refl

    -- What a step replies to: a look-up answers what it found, and a job resolves each of its
    -- requests.
    abbrev pub act_events :
        {s u : State t wq q d} → Act t wq q d redises h s u → List (Event (Ticket r))
    act_events (take before after task e) = []
    act_events (finish time order visit before after batch e) =
        look_up_events t wq (redises.at time) order batch
    act_events (below step) = work_events r d h step

    module _ {es : List (Event (Ticket r))} {log : List (Request r)} {s : State t wq q d}
        (inv : Inv t wq q d redises h log s) where
      Act-Served :
          {u : State t wq q d} (step : Act t wq q d redises h s u)
          → Served es (tickets {r = r} log) (outstanding s)
          → Served (act_events step ++ es) (tickets {r = r} log) (outstanding u)
      unfolding get_assignment from_requests above queued
      Act-Served (take before after task e) = moved-Served (
          Permᴰ.map ticket (
            Permᴰ.append_right (held r d s.store)
              (take-above t wq q d redises h inv before after task e).1))
      Act-Served (finish time order visit before after batch e) =
          finish-Served t wq (redises.at time) q d s before after batch e order visit
            inv.store_staffed
      Act-Served (below step) = Work-Served r d h (above t wq q d s) step inv.store_staffed

      -- A new request is pushed on the CacheStore's loader.
      front-Served :
          (req : Request r) (w : World r)
          → Served es (tickets {r = r} log) (outstanding s)
          → Served
              (asks (ticket req) ∷ es)
              (tickets {r = r} (req ∷ log))
              (outstanding (with_front s (enqueue r q req (record (front s) { world = w }))))
      unfolding above held
      front-Served req w =
          let l = record (front s) { world = w } in
          let (staffed, same, pushed) =
            queued-enqueue r q req l (Staffed-world r q (front s) w inv.front_staffed) in
          pushed-Served (ticket req) (
            Permᴰ.map ticket (
              Permᴰ.append_right (held r d s.store)
                (Permᴰ.append_right (looked_up_requests s.loading) pushed)))

      -- A new request is pushed on the DataStore's loader.
      store-Served :
          (req : Request r) (w : World r)
          → Served es (tickets {r = r} log) (outstanding s)
          → Served
              (asks (ticket req) ∷ es)
              (tickets {r = r} (req ∷ log))
              (outstanding (with_store s (enqueue r d req (record s.store.loader { world = w }))))
      unfolding above queued
      store-Served req w =
          let (staffed, same, pushed) = held-enqueue r d s.store req w inv.store_staffed in
          let above' = queued r q (front s) ++ looked_up_requests s.loading in
          pushed-Served (ticket req) (
            Permᴰ.map ticket (
              Permᴰ.trans (Permᴰ.append_left above' pushed)
                (Permᴰ.middle req above' (held r d s.store))))

      module _ (c : ConcurrentMap t.Key t.watch.Handle) (k : t.Key) (f : Found r c)
          (shared : Shared r c k s.store.world f) where
        front_cached-Served :
            Served es (tickets {r = r} log) (outstanding s)
            → Served
                (ask_events r d h f.request ++ es)
                (tickets {r = r} (requested f.request ++ log))
                (outstanding (
                  with_front s (enqueue_made r q f.request (record (front s) { world = f.world }))))
        unfolding above held queued
        front_cached-Served served = elim shared.source [
          | inl found ↦ rw found served
          | inr (req, made, same, created) ↦ rw made (front-Served req f.world served)
        ]

        store_cached-Served :
            Served es (tickets {r = r} log) (outstanding s)
            → Served
                (ask_events r d h f.request ++ es)
                (tickets {r = r} (requested f.request ++ log))
                (outstanding (
                  with_store s
                    (enqueue_made r d f.request (record s.store.loader { world = f.world }))))
        unfolding above held queued
        store_cached-Served served = elim shared.source [
          | inl found ↦ rw found served
          | inr (req, made, same, created) ↦ rw made (store-Served req f.world served)
        ]

    module _ (c : ConcurrentMap t.Key t.watch.Handle) where
      -- What has been asked and replied on the way to a state, the latest first.
      abbrev pub tiers_history :
          {log : List (Request r)} {s : State t wq q d}
          → Reach t wq q d redises h c log s
          → List (Event (Ticket r))
      tiers_history (start w) = []
      tiers_history (act p step) = act_events step ++ tiers_history p
      tiers_history (load {s = s} p k) =
          asks (ticket {r = r} (new_oneshot r k s.store.world).0.0) ∷ tiers_history p
      tiers_history (load_store {s = s} p k) =
          asks (ticket {r = r} (new_oneshot r k s.store.world).0.0) ∷ tiers_history p
      tiers_history (load_cached p others only_add k m f e) =
          ask_events r d h f.request ++ tiers_history p
      tiers_history (load_store_cached p others only_add k m f e) =
          ask_events r d h f.request ++ tiers_history p
      tiers_history (drop p u) = tiers_history p

      pub tiers_Reach-Served :
          {log : List (Request r)} {s : State t wq q d} (p : Reach t wq q d redises h c log s)
          → Served (tiers_history p) (tickets {r = r} log) (outstanding s)
      unfolding load_by above held queued
      tiers_Reach-Served (start w) = rw (init-outstanding w) start-Served
      tiers_Reach-Served (act p step) =
          Act-Served (tiers_Reach-Inv t wq q d redises h c p) step (tiers_Reach-Served p)
      tiers_Reach-Served (load p k) =
          front-Served (tiers_Reach-Inv t wq q d redises h c p) _ _ (tiers_Reach-Served p)
      tiers_Reach-Served (load_store p k) =
          store-Served (tiers_Reach-Inv t wq q d redises h c p) _ _ (tiers_Reach-Served p)
      tiers_Reach-Served (load_cached {s = s} p others only_add k m f e) =
          let (f', e', shared) = get_or_create-Shared r c others 0 0 k m s.store.world only_add in
          front_cached-Served (tiers_Reach-Inv t wq q d redises h c p) c k f
            (subst (Shared r c k s.store.world) (cc) shared) (tiers_Reach-Served p)
      tiers_Reach-Served (load_store_cached {s = s} p others only_add k m f e) =
          let (f', e', shared) = get_or_create-Shared r c others 0 0 k m s.store.world only_add in
          store_cached-Served (tiers_Reach-Inv t wq q d redises h c p) c k f
            (subst (Shared r c k s.store.world) (cc) shared) (tiers_Reach-Served p)
      tiers_Reach-Served (drop p u) = tiers_Reach-Served p
