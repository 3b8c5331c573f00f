-- ===== src/Task/Resolve.antt =====
-- What `Task::resolve` does for each request of a batch, in whatever order rayon visits them.
use channel_loader_rs.Base.{
  ◌≡◌, refl, ◌≤◌, ◌∙◌, sym, true, false, List, Memᴰ, some, Result, ok, err, HashMap, get, perm-Memᴰ,
}
use channel_loader_rs.External.{Order}
use channel_loader_rs.Request.{Runtime, Reply, World, Request, key, resolve}
use channel_loader_rs.Request.Answer.{
  Tx, tx, answer, is_closed, is_made, answer-resolve, answer-resolve_ne, answer-resolve_closed,
  is_closed-resolve, is_made-resolve,
}
use channel_loader_rs.Task.{ResolveJob, run_job, for_each}
use channel_loader_rs.Task.ForEach.{
  TouchesOwn, senders, senders-perm, for_each-closed, for_each-made, for_each-keep, for_each-absent,
  for_each-hit,
}

module _ (r : Runtime) where
  -- The reply that a load's results hold for a key.
  unfoldable pub reply_to : Result (HashMap r.Key r.Value) r.Error → r.Key → Reply r
  reply_to (ok values) k = ok (get r.Key-discrete values k)
  reply_to (err e) k = err e

  abbrev replying : Result (HashMap r.Key r.Value) r.Error → Request r → World r → World r
  replying results req = resolve r req (reply_to results (key r req))

  replying-TouchesOwn :
      (results : Result (HashMap r.Key r.Value) r.Error) → TouchesOwn r (replying results)
  replying-TouchesOwn results = record {
    other = λ req w t ne. answer-resolve_ne r req (reply_to results (key r req)) w t ne;
    closed = λ req w t. is_closed-resolve r req (reply_to results (key r req)) w t;
    made = λ req w t. is_made-resolve r req (reply_to results (key r req)) w t;
  }

module _ (r : Runtime) (order : Order (Request r)) where
  run_job-for_each :
      (reqs : List (Request r)) (results : Result (HashMap r.Key r.Value) r.Error) (w : World r)
      → run_job r order (record { requests = reqs; results = results }) w
        ≡ for_each r (replying r results) (order.visit reqs) w
  unfolding run_job reply_to
  run_job-for_each reqs (ok values) w = refl
  run_job-for_each reqs (err e) w = refl

  module _ (job : ResolveJob r) (w : World r) where
    steps : run_job r order job w ≡ for_each r (replying r job.results) (order.visit job.requests) w
    steps = run_job-for_each job.requests job.results w

    pub is_closed-run_job : (t : Tx r) → is_closed r (run_job r order job w) t ≡ is_closed r w t
    is_closed-run_job t =
        rw steps
          (for_each-closed r _ (replying-TouchesOwn r job.results) (order.visit job.requests) w t)

    pub is_made-run_job : (t : Tx r) → is_made r (run_job r order job w) t ≡ is_made r w t
    is_made-run_job t =
        rw steps
          (for_each-made r _ (replying-TouchesOwn r job.results) (order.visit job.requests) w t)

    -- When rayon runs the closure of `resolve`, in any order of visit, a request of the batch
    -- that is the only one with its sender, and whose receivers are not dropped, is answered with
    -- what the results hold for its key, or with the load's error.
    pub run_job-answer :
        (req : Request r)
        → Memᴰ req job.requests
        → senders r (tx r req) job.requests ≤ 1
        → is_closed r w (tx r req) ≡ false
        → answer r (run_job r order job w) (tx r req) ≡ some (reply_to r job.results (key r req))
    run_job-answer req m once opened = rw steps (
        for_each-hit r _ (replying-TouchesOwn r job.results) (order.visit job.requests) w req
          (reply_to r job.results (key r req))
          (λ u. answer-resolve r req (reply_to r job.results (key r req)) u)
          (perm-Memᴰ (order.visit-perm job.requests) m)
          (rw (sym (senders-perm r (tx r req) (order.visit-perm job.requests))) once) opened)

    pub run_job-absent :
        (t : Tx r)
        → senders r t job.requests ≡ 0
        → answer r (run_job r order job w) t ≡ answer r w t
    run_job-absent t none_left = rw steps (
        for_each-absent r _ (replying-TouchesOwn r job.results) (order.visit job.requests) w t
          (sym (senders-perm r t (order.visit-perm job.requests)) ∙ none_left))

    pub run_job-closed :
        (t : Tx r) → is_closed r w t ≡ true → answer r (run_job r order job w) t ≡ answer r w t
    run_job-closed t shut = rw steps (
        for_each-keep r _ (replying-TouchesOwn r job.results) (order.visit job.requests) w t
          λ req m e v c.
            answer-resolve_closed r req (reply_to r job.results (key r req)) v t (rw e (c ∙ shut)))
