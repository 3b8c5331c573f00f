-- ===== src/System/Drain.antt =====
-- The program's own steps come to an end, and then every caller that stayed has its reply.
use mathlib.Core.List.Memᴰ
use channel_loader_rs.Base.{
  ℕ, zero, suc, ◌+◌, ◌*◌, ◌≤◌, ◌≡◌, refl, ◌∙◌, sym, ap, subst, ◌⊎◌, inl, inr, true, false, List, [],
  ◌∷◌, ◌++◌, some, arith, Memᴰ, length, length-append,
}
use channel_loader_rs.External.{SwapQueue, Order, ConcurrentMap}
use channel_loader_rs.Request.{Runtime, Reply, World, Request, key, new_oneshot}
use channel_loader_rs.Request.Answer.{Tx, oneshot_tx, tx, answer, is_closed}
use channel_loader_rs.Request.Create.{Created, new_oneshot-Created}
use channel_loader_rs.Request.Receive.{recv_oneshot, returns, recv_oneshot-answer}
use channel_loader_rs.Task.{PendingAssignment, ResolveJob}
use channel_loader_rs.Task.Resolve.{is_closed-run_job}
use channel_loader_rs.Loader.{load_by}
use channel_loader_rs.Loader.Staffed.{Staffed, idle, busy, queued, carried}
use channel_loader_rs.Handler.{TaskHandler}
use channel_loader_rs.System.{System, Work, handle, run, Reach, work, load}
use channel_loader_rs.System.Held.{held, handle-eq, held-enqueue, job_of, job_requests}
use channel_loader_rs.System.Invariant.{Loaded, Inv}
use channel_loader_rs.Tickets.{ticket, waiting, gone, answered}
use channel_loader_rs.System.Steps.{Work-Inv, Reach-Inv}

module _ (r : Runtime) (q : SwapQueue (Request r)) (h : TaskHandler r q) where
  -- The steps that are left: a pending task is one to run, and the job that it gives.
  unfoldable pub work_left : System r q → ℕ
  work_left s = 2 * length s.spawned + length s.jobs

  -- Every step of the program leaves one less to do.
  pub work_left-Work : {s t : System r q} → Work r q h s t → work_left t + 1 ≡ work_left s
  unfolding work_left
  work_left-Work {s} (handle o before after task e) =
      ap (λ u. work_left u + 1) (handle-eq r q h o (before ++ after) task s)
      ∙ omega (
        arith,
        ap length e,
        length-append before (task ∷ after),
        length-append before after,
        length-append s.jobs (job_of r q h o task s ∷ []),
      )
  work_left-Work {s} (run order before after job e) =
      omega (arith, ap length e, length-append before (job ∷ after), length-append before after)

  pub data Works (s : System r q) : ℕ → System r q → Type 0 where
    done : Works s 0 s
    then : {n : ℕ} {t u : System r q} → Works s n t → Work r q h t u → Works s (suc n) u

  -- A run of n of the program's own steps takes n from the number of steps left, so no run is
  -- longer than the steps left at its start.
  work_left-Works : {s t : System r q} {n : ℕ} → Works s n t → n + work_left t ≡ work_left s
  work_left-Works done = omega arith
  work_left-Works (then ws w) = omega (arith, work_left-Works ws, work_left-Work w)

  abbrev pub IsIdle : System r q → Type 0
  IsIdle s = (s.spawned ≡ []) × (s.jobs ≡ [])

  -- The step has these answers of the load, or visits in this order.
  pub data Given (o : h.Oracle) (order : Order (Request r)) {s : System r q}
      : (t : System r q) → Work r q h s t → Type 0 where
    given_handle :
        (before after : List (PendingAssignment r q)) (task : PendingAssignment r q)
        (e : s.spawned ≡ before ++ task ∷ after)
        → Given o order _ (handle o before after task e)
    given_run :
        (before after : List (ResolveJob r)) (job : ResolveJob r)
        (e : s.jobs ≡ before ++ job ∷ after)
        → Given o order _ (run order before after job e)

  -- Nothing stops the program before: while something is pending, there is a step, whatever it is
  -- answered.
  pub progress :
      (o : h.Oracle) (order : Order (Request r)) (s : System r q)
      → IsIdle s ⊎ ((t : System r q) × (w : Work r q h s t) × Given o order t w)
  progress o order s = go s.spawned s.jobs refl refl
    where
      go :
          (tasks : List (PendingAssignment r q)) (jobs : List (ResolveJob r))
          → s.spawned ≡ tasks
          → s.jobs ≡ jobs
          → IsIdle s ⊎ ((t : System r q) × (w : Work r q h s t) × Given o order t w)
      go [] [] d e = inl (d, e)
      go [] (job ∷ jobs) d e = inr (_, run order [] jobs job e, given_run [] jobs job e)
      go (task ∷ tasks) jobs d e = inr (_, handle o [] tasks task d, given_handle [] tasks task d)

  work_left-idle : (s : System r q) → IsIdle s → work_left s ≡ 0
  unfolding work_left
  work_left-idle s (d, e) = omega (arith, ap length d, ap length e)

  prepend : {s t u : System r q} {n : ℕ} → Work r q h s t → Works t n u → Works s (suc n) u
  prepend w done = then done w
  prepend w (then ws x) = then (prepend w ws) x

  drain_steps :
      (o : h.Oracle) (order : Order (Request r)) (n : ℕ) (s : System r q)
      → work_left s ≤ n
      → (m : ℕ) × (t : System r q) × Works s m t × IsIdle t
  drain_steps o order zero s bound = elim (progress o order s) [
    | inl rest ↦ (0, s, done, rest)
    | inr (t, w, given) ↦ absurd (omega (arith, work_left-Work w))
  ]
  drain_steps o order (suc n) s bound = elim (progress o order s) [
    | inl rest ↦ (0, s, done, rest)
    | inr (t, w, given) ↦
        let (m, u, ws, rest) = drain_steps o order n t (omega (arith, work_left-Work w)) in
        (suc m, u, prepend w ws, rest)
  ]

  -- From every state there is a run of the program's own steps to a state with no pending task and
  -- no job, of exactly two steps for each pending task and one for each job.
  drain :
      (o : h.Oracle) (order : Order (Request r)) (s : System r q)
      → (t : System r q) × Works s (work_left s) t × IsIdle t
  drain o order s =
      let (m, t, ws, rest) = drain_steps o order (work_left s) s (omega arith) in
      (t, subst (λ n. Works s n t) (steps_all ws rest) ws, rest)
    where
      steps_all : {m : ℕ} {t : System r q} → Works s m t → IsIdle t → m ≡ work_left s
      steps_all {t = t} ws rest = omega (arith, work_left-Works ws, work_left-idle t rest)

  Works-Inv :
      {log : List (Request r)} {s t : System r q} {n : ℕ}
      → Works s n t
      → Inv r q h log s
      → Inv r q h log t
  Works-Inv done inv = inv
  Works-Inv (then ws w) inv = Work-Inv r q h w (Works-Inv ws inv)

  pub is_closed-Work :
      {s t : System r q}
      → Work r q h s t
      → (u : Tx r) → is_closed r t.world u ≡ is_closed r s.world u
  is_closed-Work (handle o before after task e) u = refl
  is_closed-Work {s} (run order before after job e) u = is_closed-run_job r order job s.world u

  is_closed-Works :
      {s t : System r q} {n : ℕ}
      → Works s n t
      → (u : Tx r) → is_closed r t.world u ≡ is_closed r s.world u
  is_closed-Works done u = refl
  is_closed-Works (then ws w) u = is_closed-Work w u ∙ is_closed-Works ws u

  pub idle-held : (s : System r q) → Staffed r q s.loader → IsIdle s → held r q s ≡ []
  unfolding held queued carried job_requests
  idle-held s (idle out empty none_spawned) (d, e) = rw (d, e, empty)
  idle-held s (busy task waits one) (d, e) = cc

  module _ (c : ConcurrentMap r.Key r.watch.Handle) where
    -- In a reachable state with no pending task and no running job, each request ever issued has
    -- been answered with what a load that was asked for its key gave for that key, unless its
    -- caller dropped the receivers.
    pub settled :
        {log : List (Request r)} {s : System r q}
        → Reach r q h c log s
        → IsIdle s
        → (req : Request r) → Memᴰ req log
        → (is_closed r s.world (tx r req) ≡ true)
          ⊎ ((v : Reply r) × (answer r s.world (tx r req) ≡ some v) × Loaded r q h (key r req) v)
    settled {log} {s} p rest req m = elim (inv.ledger.outcome (ticket req) (Memᴰ.map ticket m)) [
      | waiting held_here ↦ absurd (Memᴰ.not-nil (rw (idle-held s inv.staffed rest) at held_here))
      | gone shut ↦ inl shut
      | answered v a good ↦ inr (v, a, good)
    ]
      where
        inv : Inv r q h log s
        inv = Reach-Inv r q h c p

    Reach-Works :
        {log : List (Request r)} {s t : System r q} {n : ℕ}
        → Reach r q h c log s
        → Works s n t
        → Reach r q h c log t
    Reach-Works p done = p
    Reach-Works p (then ws w) = work (Reach-Works p ws) w

    -- After a call of `load_by` in any reachable state, whenever a run of the program's own steps
    -- (spawned tasks and rayon jobs, in any order, no caller leaving meanwhile) has come to rest,
    -- the receiver that the call returned gives a reply, and the reply is what a load that was
    -- asked for the call's key gave for that key.
    pub load_by-returns :
        {log : List (Request r)} {s : System r q}
        → Reach r q h c log s
        → (k : r.Key) {n : ℕ} (t : System r q)
        → Works (record s { loader = (load_by r q k s.loader).1 }) n t
        → IsIdle t
        → (v : Reply r) × (recv_oneshot r t.world (load_by r q k s.loader).0 ≡ returns v)
          × Loaded r q h k v
    unfolding load_by
    load_by-returns {log} {s} p k t ws rest =
        elim (settled (Reach-Works (load p k) ws) rest req (Memᴰ.head refl)) [
          | inl shut ↦ absurd (cc (sym shut ∙ still_open))
          | inr (v, a, good) ↦ (
            v,
            recv_oneshot-answer r t.world rx v (subst (λ u. answer r t.world u ≡ some v) same a),
            subst (λ j. Loaded r q h j v) created.keyed good,
          )
        ]
      where
        req : Request r
        req = (new_oneshot r k s.world).0.0

        rx : r.oneshot.Handle
        rx = (new_oneshot r k s.world).0.1

        w : World r
        w = (new_oneshot r k s.world).1

        created : Created r k s.world req w
        created = (new_oneshot-Created r k s.world).0

        same : tx r req ≡ oneshot_tx rx
        same = (new_oneshot-Created r k s.world).1

        still_open : is_closed r t.world (tx r req) ≡ false
        still_open =
            is_closed-Works ws (tx r req)
            ∙ ap (λ u. is_closed r u (tx r req))
                (held-enqueue r q s req w (Reach-Inv r q h c p).staffed).1
            ∙ created.opened
