-- ===== src/Handler/Together.antt =====
-- What the callers of one batch get, with any handler.
use mathlib.Core.List.Memᴰ
use channel_loader_rs.Base.{◌≡◌, refl, ◌∙◌, ap, none, some, List, [], ◌∷◌, map, Memᴰ, arith}
use channel_loader_rs.External.{SwapQueue, Order}
use channel_loader_rs.Request.{Runtime, Reply, World, Request, key}
use channel_loader_rs.Request.Answer.{tx, oneshot_tx, answer}
use channel_loader_rs.Request.Receive.{recv_oneshot, returns, recv_oneshot-answer}
use channel_loader_rs.Task.{PendingAssignment, keys, new_task}
use channel_loader_rs.Task.Resolve.{reply_to}
use channel_loader_rs.Loader.{DataLoader}
use channel_loader_rs.Loader.Together.{load_all, requested_by, load_all-Waits, keys-load_all, Waits}
use channel_loader_rs.Handler.{TaskHandler}
use channel_loader_rs.Handler.Answer.{run_handled, assigned_to, run_handled-answer}
use channel_loader_rs.Tickets.{uses-tickets}

module _ (r : Runtime) where
  -- Each of the calls has come back with the reply for its key.
  abbrev pub AllReturn : (r.Key → Reply r) → World r → List (r.Key × r.oneshot.Handle) → Type 0
  AllReturn reply w [] = Unit {0}
  AllReturn reply w (call ∷ calls) =
      (recv_oneshot r w call.1 ≡ returns (reply call.0)) × AllReturn reply w calls

  all_return :
      (reply : r.Key → Reply r) (w : World r) (calls : List (r.Key × r.oneshot.Handle))
      → ((call : r.Key × r.oneshot.Handle)
          → Memᴰ call calls
          → answer r w (oneshot_tx call.1) ≡ some (reply call.0))
      → AllReturn reply w calls
  all_return reply w [] answers = tt
  all_return reply w (call ∷ calls) answers = (
    recv_oneshot-answer r w call.1 (reply call.0) (answers call (Memᴰ.head refl)),
    all_return reply w calls (λ x m. answers x (Memᴰ.tail m)),
  )

  keys-requested_by :
      (q : SwapQueue (Request r)) (calls : List (r.Key × r.oneshot.Handle))
      → map (key r) (map (requested_by r q) calls) ≡ map (λ call. call.0) calls
  unfolding key
  keys-requested_by q [] = refl
  keys-requested_by q (call ∷ calls) = ap (λ x. call.0 ∷ x) (keys-requested_by q calls)

module _ (r : Runtime) (q : SwapQueue (Request r)) (h : TaskHandler r q) where
  -- The results of the load that a task makes.
  abbrev pub loaded_for : h.Oracle → PendingAssignment r q → q.Worker → r.Key → Reply r
  loaded_for o task queue =
      reply_to r (
        h.results_for o (keys r (h.key_order o) (record { requests = assigned_to r q task queue })))

  pub waiting-assigned :
      (l : DataLoader r q) (reqs : List (Request r)) (w : Waits r q l reqs)
      → assigned_to r q (new_task r q w.stealer) l.queue ≡ reqs
  unfolding new_task
  waiting-assigned l reqs w = (q.take_lem l.queue w.stealer w.waits).0 ∙ w.held

  -- The requests that wait are answered by the loader's task.
  pub waiting-answer :
      (o : h.Oracle) (visit : Order (Request r)) (l : DataLoader r q) (reqs : List (Request r))
      (w : Waits r q l reqs) (req : Request r)
      → Memᴰ req reqs
      → let task = new_task r q w.stealer in
        answer r (run_handled r q visit (h.handle_task o task l.queue) l.world) (tx r req)
        ≡ some (loaded_for o task l.queue (key r req))
  waiting-answer o visit l reqs w req m =
      let task = new_task r q w.stealer in
      let assigned = waiting-assigned l reqs w in
      run_handled-answer r q h o visit task l.queue l.world req (rw assigned m)
        (rw assigned (omega (arith, uses-tickets r (tx r req) reqs, w.apart.once (tx r req))))
        (w.apart.opened req m)

  call-answer :
      (o : h.Oracle) (visit : Order (Request r)) (l : DataLoader r q)
      (calls : List (r.Key × r.oneshot.Handle)) (w : Waits r q l (map (requested_by r q) calls))
      (call : r.Key × r.oneshot.Handle)
      → Memᴰ call calls
      → let task = new_task r q w.stealer in
        answer r (run_handled r q visit (h.handle_task o task l.queue) l.world) (oneshot_tx call.1)
        ≡ some (loaded_for o task l.queue call.0)
  unfolding key tx
  call-answer o visit l calls w call m =
      waiting-answer o visit l (map (requested_by r q) calls) w (requested_by r q call)
        (Memᴰ.map (requested_by r q) m)

  -- When keys are asked for one after the other on a loader with no batch waiting and no task
  -- spawned, one task is spawned for all of them, whose requests have those keys in that order.
  -- When the handler has run on the task and rayon its job, in any order of visit, each call
  -- returns what the one load gave for its key.
  pub load_all-one_batch :
      (o : h.Oracle) (visit : Order (Request r)) (k : r.Key) (ks : List r.Key) (l : DataLoader r q)
      → q.waiting l.queue ≡ none
      → l.spawned ≡ []
      → let (calls, l') = load_all r q (k ∷ ks) l in
        (task : PendingAssignment r q) × (l'.spawned ≡ task ∷ [])
        × (map (key r) (assigned_to r q task l'.queue) ≡ k ∷ ks)
        × AllReturn r
            (loaded_for o task l'.queue)
            (run_handled r q visit (h.handle_task o task l'.queue) l'.world)
            calls
  load_all-one_batch o visit k ks l out none_spawned =
      let (calls, l') = load_all r q (k ∷ ks) l in
      let w = load_all-Waits r q k ks l out none_spawned in
      let task = new_task r q w.stealer in
      (
        task,
        w.one,
        ap (map (key r)) (waiting-assigned l' (map (requested_by r q) calls) w)
            ∙ keys-requested_by r q calls
            ∙ keys-load_all r q (k ∷ ks) l,
        all_return r (loaded_for o task l'.queue) _ calls (call-answer o visit l' calls w),
      )
