-- ===== src/Tickets/Answered.antt =====
-- What answers tickets: the closure that `Task::resolve` gives to rayon, and `apply_partial_results`
-- (deque-loader/src/task.rs).
use mathlib.Core.List.Permᴰ
use mathlib.Core.List.Memᴰ
use channel_loader_rs.Base.{
  ◌≤◌, ◌≡◌, refl, ◌∙◌, sym, ap, subst, false, List, [], ◌∷◌, ◌++◌, Option-cases, inl, inr, some,
  none, ok, HashMap, Memᴰ, Permᴰ, perm-Memᴰ, arith,
}
use channel_loader_rs.External.{Order}
use channel_loader_rs.Request.{Runtime, Reply, World, Request, key}
use channel_loader_rs.Request.Answer.{Tx, tx, answer, is_closed}
use channel_loader_rs.Task.{
  ResolveJob, LoadBatch, run_job, not_found, apply_partial_results, resolve_found,
}
use channel_loader_rs.Task.ForEach.{
  TouchesOwn, senders, senders_pos, for_each-closed, for_each-made, for_each-keep,
}
use channel_loader_rs.Task.Resolve.{
  reply_to, run_job-answer, run_job-absent, is_closed-run_job, is_made-run_job,
}
use channel_loader_rs.Task.Partial.{
  lookup, resolve_found-none, resolve_found-TouchesOwn, not_found-cons_some, not_found-cons_none,
  apply_partial_results-found, after,
}
use channel_loader_rs.Tickets.{Ticket, ticket, tickets, uses, uses-tickets, Answers}

module _ (r : Runtime) (results : HashMap r.Key r.Value) where
  -- The requests of a batch that partial results answer.
  unfoldable pub found_requests : List (Request r) → List (Request r)
  found_requests [] = []
  found_requests (req ∷ reqs) =
      let rest = found_requests reqs in
      elim (lookup r results req) [ some value ↦ req ∷ rest | none ↦ rest ]

  found_requests-cons_some :
      (x : Request r) (l : List (Request r)) {v : r.Value}
      → lookup r results x ≡ some v
      → found_requests (x ∷ l) ≡ x ∷ found_requests l
  unfolding found_requests
  found_requests-cons_some x l e = rw (e, found_requests)

  found_requests-cons_none :
      (x : Request r) (l : List (Request r))
      → lookup r results x ≡ none
      → found_requests (x ∷ l) ≡ found_requests l
  unfolding found_requests
  found_requests-cons_none x l e = rw (e, found_requests)

  -- Each request of the batch is answered or kept.
  pub found_requests-perm :
      (l : List (Request r)) → Permᴰ l (found_requests l ++ not_found r results l)
  found_requests-perm [] = unfold found_requests not_found in Permᴰ.nil
  found_requests-perm (x ∷ l) = elim (Option-cases (lookup r results x)) [
    | inl e ↦
        rw (found_requests-cons_none x l e, not_found-cons_none r results x l e)
          (Permᴰ.trans (Permᴰ.cons refl (found_requests-perm l))
            (Permᴰ.symm (Permᴰ.middle x (found_requests l) (not_found r results l))))
    | inr (v, e) ↦
        rw (found_requests-cons_some x l e, not_found-cons_some r results x l e)
          (Permᴰ.cons refl (found_requests-perm l))
  ]

  mem-found_requests :
      (req : Request r) (l : List (Request r)) {v : r.Value}
      → lookup r results req ≡ some v
      → Memᴰ req l
      → Memᴰ req (found_requests l)
  mem-found_requests req [] e m = elim m [ ]
  mem-found_requests req (x ∷ l) {v} e (Memᴰ.head p) =
      rw (found_requests-cons_some x l (subst (λ y. lookup r results y ≡ some v) p e)) (Memᴰ.head p)
  mem-found_requests req (x ∷ l) e (Memᴰ.tail m) = elim (Option-cases (lookup r results x)) [
    | inl f ↦ rw (found_requests-cons_none x l f) (mem-found_requests req l e m)
    | inr (v, f) ↦ rw (found_requests-cons_some x l f) (Memᴰ.tail (mem-found_requests req l e m))
  ]

  value_of_found :
      (req : Request r) (l : List (Request r))
      → Memᴰ req (found_requests l)
      → Memᴰ req l × (v : r.Value) × (lookup r results req ≡ some v)
  unfolding found_requests
  value_of_found req [] m = absurd (Memᴰ.not-nil m)
  value_of_found req (x ∷ l) m = elim (Option-cases (lookup r results x)) [
    | inl f ↦
        let (n, v, e) = value_of_found req l (rw (found_requests-cons_none x l f) at m) in
        (Memᴰ.tail n, v, e)
    | inr (v, f) ↦ elim (Memᴰ.cases_cons (rw (found_requests-cons_some x l f) at m)) [
      | inl e ↦ (Memᴰ.head e, v, rw e f)
      | inr n ↦ let (n', u, e) = value_of_found req l n in (Memᴰ.tail n', u, e)
    ]
  ]

module _ {ℓ} (r : Runtime) (Good : r.Key → Reply r → Type ℓ) where
  pub run_job-Answers :
      (order : Order (Request r)) (job : ResolveJob r) (w : World r)
      → ((t : Tx r) → senders r t job.requests ≤ 1)
      → ((req : Request r)
          → Memᴰ req job.requests
          → Good (key r req) (reply_to r job.results (key r req)))
      → Answers r Good w (run_job r order job w) (tickets job.requests)
  run_job-Answers order job w once good = record {
    closed_same = is_closed-run_job r order job w;
    made_same = is_made-run_job r order job w;
    others = λ t none_used.
        run_job-absent r order job w t (sym (uses-tickets r t job.requests) ∙ none_used);
    replies = λ p m opened. reply p (Memᴰ.of_map ticket job.requests m) opened;
  }
    where
      reply :
          (p : Ticket r)
          → (req : Request r) × Memᴰ req job.requests × (ticket req ≡ p)
          → is_closed r w p.0 ≡ false
          → (v : Reply r) × (answer r (run_job r order job w) p.0 ≡ some v) × Good p.1 v
      reply p (req, m, e) opened =
          subst
            (λ p.
              is_closed r w p.0 ≡ false
              → (v : Reply r) × (answer r (run_job r order job w) p.0 ≡ some v) × Good p.1 v)
            e
            (λ opened. (
              reply_to r job.results (key r req),
              run_job-answer r order job w req m (once (tx r req)) opened,
              good req m,
            ))
            opened

  module _ (results : HashMap r.Key r.Value) (visit : Order (Request r)) (batch : LoadBatch r)
      (w : World r) where
    abbrev w' : World r
    w' = (after r results visit batch w).1

    pub apply_partial_results-Answers :
        ((t : Tx r) → senders r t batch.requests ≤ 1)
        → ((req : Request r) (v : r.Value)
            → Memᴰ req batch.requests
            → lookup r results req ≡ some v
            → Good (key r req) (ok (some v)))
        → Answers r Good w w' (tickets (found_requests r results batch.requests))
    unfolding apply_partial_results
    apply_partial_results-Answers once good = record {
      closed_same = for_each-closed r (resolve_found r results) own (visit.visit batch.requests) w;
      made_same = for_each-made r (resolve_found r results) own (visit.visit batch.requests) w;
      others = λ t none_used.
          for_each-keep r (resolve_found r results) own (visit.visit batch.requests) w t
            λ req m same v c. elim (Option-cases (lookup r results req)) [
              | inl e ↦ ap (λ u. answer r u t) (resolve_found-none r results req v e)
              | inr (value, e) ↦
                  let m' =
                    mem-found_requests r results req batch.requests e
                      (perm-Memᴰ (Permᴰ.symm (visit.visit-perm batch.requests)) m) in
                  absurd (used req t same (found_requests r results batch.requests) m' none_used)
            ];
      replies = λ p m opened.
          reply p (Memᴰ.of_map ticket (found_requests r results batch.requests) m) opened;
    }
      where
        own : TouchesOwn r (resolve_found r results)
        own = resolve_found-TouchesOwn r results

        used :
            (req : Request r) (t : Tx r)
            → tx r req ≡ t
            → (l : List (Request r)) → Memᴰ req l
            → ¬ (uses r t (tickets l) ≡ 0)
        used req t same l m none_used =
            let pos = senders_pos r req l m in
            let none_sent : senders r (tx r req) l ≡ 0 =
              subst (λ t. senders r t l ≡ 0) (sym same) (sym (uses-tickets r t l) ∙ none_used) in
            omega arith

        reply :
            (p : Ticket r)
            → (req : Request r) × Memᴰ req (found_requests r results batch.requests)
              × (ticket req ≡ p)
            → is_closed r w p.0 ≡ false
            → (v : Reply r) × (answer r w' p.0 ≡ some v) × Good p.1 v
        reply p (req, m, e) opened =
            subst
              (λ p.
                is_closed r w p.0 ≡ false → (v : Reply r) × (answer r w' p.0 ≡ some v) × Good p.1 v)
              e
              (λ opened.
                let (m', v, found) = value_of_found r results req batch.requests m in
                (
                  ok (some v),
                  (apply_partial_results-found r results visit batch w req found m'
                      (once (tx r req)) opened).0,
                  good req v m' found,
                ))
              opened
