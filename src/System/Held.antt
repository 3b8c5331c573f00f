-- ===== src/System/Held.antt =====
-- The requests that a loader holds, in its queue, its pending task and the running jobs.
use mathlib.Core.List.Permᴰ
use mathlib.Core.List.{append-nil, append_assoc}
use channel_loader_rs.Base.{pull_front, ◌≡◌, refl, sym, subst, List, [], ◌∷◌, ◌++◌, Permᴰ}
use channel_loader_rs.External.{SwapQueue}
use channel_loader_rs.Request.{Runtime, World, Request}
use channel_loader_rs.Task.{PendingAssignment, ResolveJob, keys}
use channel_loader_rs.Loader.{enqueue}
use channel_loader_rs.Loader.Staffed.{Staffed, carried, queued, Staffed-world}
use channel_loader_rs.Loader.Schedule.{queued-enqueue, take-Staffed}
use channel_loader_rs.Handler.{TaskHandler}
use channel_loader_rs.System.{System, with_world, after_handle}

module _ (r : Runtime) (q : SwapQueue (Request r)) where
  unfoldable pub job_requests : List (ResolveJob r) → List (Request r)
  job_requests [] = []
  job_requests (job ∷ jobs) = job.requests ++ job_requests jobs

  unfoldable pub held : System r q → List (Request r)
  unfolding job_requests queued
  held s = queued r q s.loader ++ job_requests s.jobs

  job_requests-append :
      (xs ys : List (ResolveJob r)) → job_requests (xs ++ ys) ≡ job_requests xs ++ job_requests ys
  unfolding job_requests
  job_requests-append [] ys = refl
  job_requests-append (x ∷ xs) ys = rw (job_requests-append xs ys, append_assoc)

  -- A request that is pushed is held, and nothing else changes.
  pub held-enqueue :
      (s : System r q) (req : Request r) (w : World r)
      → Staffed r q s.loader
      → let l = enqueue r q req (record s.loader { world = w }) in
        Staffed r q l × (l.world ≡ w) × Permᴰ (held (record s { loader = l })) (req ∷ held s)
  unfolding held
  held-enqueue s req w st =
      let (staffed, same, pushed) =
        queued-enqueue r q req (record s.loader { world = w }) (Staffed-world r q s.loader w st) in
      (staffed, same, Permᴰ.append_right (job_requests s.jobs) pushed)

  -- A job that is run leaves, with its requests.
  pub held-after_run :
      (s : System r q) (before after : List (ResolveJob r)) (job : ResolveJob r) (w : World r)
      → s.jobs ≡ before ++ job ∷ after
      → Permᴰ (held s) (job.requests ++ held (record (with_world s w) { jobs = before ++ after }))
  unfolding held
  held-after_run s before after job w e =
      let B = job_requests before in
      let A = job_requests after in
      let Q = queued r q s.loader in
      rw (e, job_requests-append before (job ∷ after), job_requests-append before after)
        (Permᴰ.trans (Permᴰ.append_left Q (pull_front B job.requests A))
          (pull_front Q job.requests (B ++ A)))

  module _ (h : TaskHandler r q) where
    -- The batch of a task goes whole into its job.
    pub taken : PendingAssignment r q → System r q → List (Request r)
    taken task s = task.requests ++ (q.take task.stealer s.queue).0

    pub job_of : h.Oracle → PendingAssignment r q → System r q → ResolveJob r
    unfolding taken
    job_of o task s = record {
      requests = taken task s;
      results = h.results_for o (keys r (h.key_order o) (record { requests = taken task s }));
    }

    -- The results of the job are those of the load of its requests' keys.
    pub job_of-IsLoaded :
        (o : h.Oracle) (task : PendingAssignment r q) (s : System r q)
        → let job = job_of o task s in
          job.results
          ≡ h.results_for o (keys r (h.key_order o) (record { requests = job.requests }))
    unfolding job_of
    job_of-IsLoaded o task s = refl

    pub handle-eq :
        (o : h.Oracle) (others : List (PendingAssignment r q)) (task : PendingAssignment r q)
        (s : System r q)
        → after_handle r q h o others task s ≡ record {
          loader = record {
            world = s.world;
            queue = (q.take task.stealer s.queue).1;
            spawned = others;
          };
          jobs = s.jobs ++ job_of o task s ∷ [];
        }
    unfolding job_of
    handle-eq o others task s = rw (h.handle_task_lem o task s.queue)

    -- A handler that runs leaves the queue idle, and holds the same requests.
    pub held-after_handle :
        (s : System r q) (o : h.Oracle) (before after : List (PendingAssignment r q))
        (task : PendingAssignment r q)
        → Staffed r q s.loader
        → s.spawned ≡ before ++ task ∷ after
        → let t = after_handle r q h o (before ++ after) task s in
          Staffed r q t.loader × Permᴰ (held s) (held t)
    unfolding held carried
    held-after_handle s o before after task st e =
        let (staffed, emptied, all_taken) =
          take-Staffed r q s.loader before after task s.world st e in
        subst (λ t. Staffed r q t.loader × Permᴰ (held s) (held t))
          (sym (handle-eq o (before ++ after) task s))
          (
            staffed,
            rw (emptied, all_taken, job_requests-append s.jobs (job_of o task s ∷ []))
                (unfold job_of taken job_requests in
                  simp append-nil (Permᴰ.append_comm (taken task s) (job_requests s.jobs))),
          )
