-- ===== src/Tiers/Steps.antt =====
-- Every step of the two loaders keeps the invariant.
use mathlib.Core.List.Permᴰ
use mathlib.Core.List.Memᴰ
use mathlib.Core.List.{append-nil}
use channel_loader_rs.Base.{◌≡◌, refl, sym, subst, inl, inr, List, [], ◌∷◌, ◌++◌, Permᴰ}
use channel_loader_rs.External.{SwapQueue, ConcurrentMap}
use channel_loader_rs.External.Redis.{Text, Bytes}
use channel_loader_rs.Request.{Runtime, Reply, World, Request}
use channel_loader_rs.Request.Create.{Created, new_oneshot-Created}
use channel_loader_rs.Task.{PendingAssignment, get_assignment, from_requests}
use channel_loader_rs.Context.{Shared, get_or_create-Shared, Found}
use channel_loader_rs.Loader.{new_loader, load_by, enqueue, enqueue_made}
use channel_loader_rs.Loader.Staffed.{Staffed, Staffed-world, queued, carried, idle}
use channel_loader_rs.Loader.Schedule.{queued-enqueue, take-Staffed}
use channel_loader_rs.Handler.{TaskHandler}
use channel_loader_rs.System.{with_world, requested}
use channel_loader_rs.System.Held.{held, held-enqueue, job_requests}
use channel_loader_rs.System.Ledgers.{Work-AllLoaded, Work-Staffed, Work-Ledger}
use channel_loader_rs.Tickets.{ticket, tickets, Ledger}
use channel_loader_rs.Tickets.Moves.{
  Ledger-perm, Ledger-extend, Ledger-drop, Ledger-issue, no_tickets-Ledger,
}
use channel_loader_rs.Tiers.{
  Redises, tiers_runtime, State, front, with_front, with_store, init_tiers, Act, take, finish,
  below, Reach, start, act, load, load_store, load_cached, load_store_cached, drop,
}
use channel_loader_rs.Tiers.Invariant.{looked_up_requests, above, Source, loaded, Inv}
use channel_loader_rs.Tiers.Adapter.{finish-Ledger, looked_up_requests-append}

module _ (t : Runtime) (wq : SwapQueue (Text × Bytes)) where
  abbrev r : Runtime
  r = tiers_runtime t wq

  module _ (q d : SwapQueue (Request r)) (redises : Redises t) (h : TaskHandler r d) where
    abbrev Good : t.Key → Reply r → Type 1
    Good = Source t wq q d redises h

    abbrev Holds : List (Request r) → State t wq q d → Type 1
    Holds = Inv t wq q d redises h

    init-Inv : (w : World r) → Holds [] (init_tiers w)
    unfolding above held queued new_loader carried job_requests looked_up_requests
    init-Inv w = record {
      front_staffed = idle q.waiting-new q.buffer-new refl;
      store_staffed = idle d.waiting-new d.buffer-new refl;
      jobs_loaded = λ job m. absurd (Memᴰ.not-nil m);
      ledger = rw (q.buffer-new, d.buffer-new) (no_tickets-Ledger r Good w);
    }

    module _ {log : List (Request r)} {s : State t wq q d} (inv : Holds log s) where
      pub take-above :
          (before after : List (PendingAssignment r q)) (task : PendingAssignment r q)
          → s.tasks ≡ before ++ task ∷ after
          → Staffed r q (record {
            world = s.store.world;
            queue = (q.take task.stealer s.queue).1;
            spawned = before ++ after;
          })
            × Permᴰ (above t wq q d s) (
                above t wq q d (record s {
                  queue = (q.take task.stealer s.queue).1;
                  tasks = before ++ after;
                  loading =
                      s.loading
                      ++ (record { requests = task.requests ++ (q.take task.stealer s.queue).0 })
                        ∷ [];
                }))
      unfolding above
      take-above before after task e =
          let (staffed, emptied, all_taken) =
            take-Staffed r q (front s) before after task s.store.world inv.front_staffed e in
          (
            staffed,
            rw
                (
                  emptied,
                  all_taken,
                  looked_up_requests-append s.loading
                      (record { requests = task.requests ++ (q.take task.stealer s.queue).0 } ∷ []),
                )
                (unfold looked_up_requests in
                  simp append-nil (
                    Permᴰ.append_comm (task.requests ++ (q.take task.stealer s.queue).0)
                      (looked_up_requests s.loading))),
          )

      Act-Inv : {u : State t wq q d} → Act t wq q d redises h s u → Holds log u
      unfolding get_assignment from_requests above queued
      Act-Inv (take before after task e) =
          let (staffed, moved) = take-above before after task e in
          record {
            front_staffed = staffed;
            store_staffed = inv.store_staffed;
            jobs_loaded = inv.jobs_loaded;
            ledger =
                Ledger-perm r Good inv.ledger
                  (Permᴰ.map ticket (Permᴰ.append_right (held r d s.store) moved));
          }
      Act-Inv (finish time order visit before after batch e) =
          let (staffed, ledger) =
            finish-Ledger t wq (redises.at time) q d s before after batch e redises time refl h
              order visit inv.store_staffed inv.ledger in
          record {
            front_staffed = Staffed-world r q (front s) _ inv.front_staffed;
            store_staffed = staffed;
            jobs_loaded = inv.jobs_loaded;
            ledger = ledger;
          }
      Act-Inv (below {u} step) = record {
        front_staffed = Staffed-world r q (front s) u.world inv.front_staffed;
        store_staffed = Work-Staffed r d h step inv.store_staffed;
        jobs_loaded = Work-AllLoaded r d h step inv.jobs_loaded;
        ledger =
            Work-Ledger r d h Good (λ k v. loaded) (above t wq q d s) step inv.store_staffed
              inv.jobs_loaded inv.ledger;
      }

      -- A new request is pushed on the CacheStore's loader.
      front-Inv :
          (k : t.Key) (req : Request r) (w : World r)
          → Created r k s.store.world req w
          → Holds (req ∷ log) (with_front s (enqueue r q req (record (front s) { world = w })))
      unfolding above held
      front-Inv k req w c =
          let l = record (front s) { world = w } in
          let (staffed, same, pushed) =
            queued-enqueue r q req l (Staffed-world r q (front s) w inv.front_staffed) in
          record {
            front_staffed = staffed;
            store_staffed = Staffed-world r d s.store.loader _ inv.store_staffed;
            jobs_loaded = inv.jobs_loaded;
            ledger = subst (Ledger r Good (tickets (req ∷ log)) _) (sym same) (
                Ledger-perm r Good (Ledger-issue r Good c inv.ledger) (
                  Permᴰ.map ticket (
                    Permᴰ.append_right (held r d s.store)
                      (Permᴰ.append_right (looked_up_requests s.loading) (Permᴰ.symm pushed)))));
          }

      -- A new request is pushed on the DataStore's loader.
      store-Inv :
          (k : t.Key) (req : Request r) (w : World r)
          → Created r k s.store.world req w
          → Holds (req ∷ log) (with_store s (enqueue r d req (record s.store.loader { world = w })))
      unfolding above queued enqueue
      store-Inv k req w c =
          let (staffed, same, pushed) = held-enqueue r d s.store req w inv.store_staffed in
          let above' = queued r q (front s) ++ looked_up_requests s.loading in
          record {
            front_staffed = Staffed-world r q (front s) _ inv.front_staffed;
            store_staffed = staffed;
            jobs_loaded = inv.jobs_loaded;
            ledger = subst (Ledger r Good (tickets (req ∷ log)) _) (sym same) (
                Ledger-perm r Good (Ledger-issue r Good c inv.ledger) (
                  Permᴰ.map ticket (
                    Permᴰ.trans (Permᴰ.symm (Permᴰ.middle req above' (held r d s.store)))
                      (Permᴰ.append_left above' (Permᴰ.symm pushed)))));
          }

      -- The channels change, and no request moves.
      with_world-Inv :
          (w : World r)
          → Ledger r Good (tickets log) (tickets (above t wq q d s ++ held r d s.store)) w
          → Holds log (record s { store = with_world s.store w })
      unfolding above held
      with_world-Inv w ledger = record {
        front_staffed = Staffed-world r q (front s) w inv.front_staffed;
        store_staffed = Staffed-world r d s.store.loader w inv.store_staffed;
        jobs_loaded = inv.jobs_loaded;
        ledger = ledger;
      }

      module _ (c : ConcurrentMap t.Key t.watch.Handle) (k : t.Key) (f : Found r c)
          (shared : Shared r c k s.store.world f) where
        front_cached-Inv :
            Holds
              (requested f.request ++ log)
              (with_front s (enqueue_made r q f.request (record (front s) { world = f.world })))
        front_cached-Inv = elim shared.source [
          | inl found ↦
              rw found (with_world-Inv f.world (Ledger-extend r Good inv.ledger shared.extends))
          | inr (req, made, same, created) ↦ rw made (front-Inv k req f.world created)
        ]

        store_cached-Inv :
            Holds (requested f.request ++ log) (
              with_store s (enqueue_made r d f.request (record s.store.loader { world = f.world })))
        store_cached-Inv = elim shared.source [
          | inl found ↦
              rw found (with_world-Inv f.world (Ledger-extend r Good inv.ledger shared.extends))
          | inr (req, made, same, created) ↦ rw made (store-Inv k req f.world created)
        ]

    module _ (c : ConcurrentMap t.Key t.watch.Handle) where
      -- In every reachable state of a cache's loader and the data store's loader behind it, for
      -- any order of calls of both, tasks, look-ups in Redis with any of the answers that Redis
      -- gives at its times, rayon jobs and callers that leave: each of the two queues fits its
      -- tasks (a batch that waits has exactly one pending task and an empty queue has none); of
      -- all queues, tasks, look-ups and jobs, no two requests have the same sender, and each has
      -- its channel and no reply; the results of every job come from a load of its requests'
      -- keys; and each request ever issued is held by one of them, with its key, or its caller
      -- has gone, or it was answered with the value that a look-up of keys with its key, with
      -- what Redis gives at one of those times, found for it, or with what a load asked for its
      -- key gave.
      pub tiers_Reach-Inv :
          {log : List (Request r)} {s : State t wq q d}
          → Reach t wq q d redises h c log s
          → Inv t wq q d redises h log s
      unfolding load_by
      tiers_Reach-Inv (start w) = init-Inv w
      tiers_Reach-Inv (act p step) = Act-Inv (tiers_Reach-Inv p) step
      tiers_Reach-Inv (load {s = s} p k) =
          front-Inv (tiers_Reach-Inv p) k _ _ (new_oneshot-Created r k s.store.world).0
      tiers_Reach-Inv (load_store {s = s} p k) =
          store-Inv (tiers_Reach-Inv p) k _ _ (new_oneshot-Created r k s.store.world).0
      tiers_Reach-Inv (load_cached {s = s} p others only_add k m f e) =
          let (f', e', shared) = get_or_create-Shared r c others 0 0 k m s.store.world only_add in
          front_cached-Inv (tiers_Reach-Inv p) c k f
            (subst (Shared r c k s.store.world) (cc) shared)
      tiers_Reach-Inv (load_store_cached {s = s} p others only_add k m f e) =
          let (f', e', shared) = get_or_create-Shared r c others 0 0 k m s.store.world only_add in
          store_cached-Inv (tiers_Reach-Inv p) c k f
            (subst (Shared r c k s.store.world) (cc) shared)
      tiers_Reach-Inv (drop {s = s} p u) =
          let inv = tiers_Reach-Inv p in with_world-Inv inv _ (Ledger-drop r Good inv.ledger u)
