-- ===== src/Task/Partial.antt =====
-- `apply_partial_results`: what was found is answered, and the rest stays assigned.
use channel_loader_rs.Base.{
  ◌≡◌, refl, sym, ◌≤◌, false, List, [], ◌∷◌, Memᴰ, Option, none, some, Option-cases, inl, inr,
  subst, ap, ok, HashMap, get, arith, perm-Memᴰ,
}
use mathlib.Core.List.Permᴰ
use channel_loader_rs.External.{Order}
use channel_loader_rs.Request.{Runtime, World, Request, key, resolve}
use channel_loader_rs.Request.Answer.{
  Tx, tx, answer, is_closed, answer-resolve, answer-resolve_ne, is_closed-resolve, is_made-resolve,
}
use channel_loader_rs.Task.{
  LoadBatch, TaskAssignment, load_batch, no_assignment, resolve_found, not_found,
  apply_partial_results, assign_rest,
}
use channel_loader_rs.Task.ForEach.{
  TouchesOwn, senders, senders-perm, senders_pos, senders_unique, for_each-keep, for_each-hit,
}

-- The requests that an assignment leaves to be loaded.
abbrev pub assigned : {r : Runtime} → TaskAssignment r → List (Request r)
assigned (load_batch batch) = batch.requests
assigned (no_assignment receipt) = []

module _ (r : Runtime) (results : HashMap r.Key r.Value) where
  abbrev pub lookup : Request r → Option r.Value
  lookup req = get r.Key-discrete results (key r req)

  resolve_found-some :
      (req : Request r) (w : World r) {v : r.Value}
      → lookup req ≡ some v
      → resolve_found r results req w ≡ resolve r req (ok (some v)) w
  unfolding resolve_found
  resolve_found-some req w e = rw (e, resolve_found)

  pub resolve_found-none :
      (req : Request r) (w : World r) → lookup req ≡ none → resolve_found r results req w ≡ w
  unfolding resolve_found
  resolve_found-none req w e = rw (e, resolve_found)

  pub resolve_found-TouchesOwn : TouchesOwn r (resolve_found r results)
  resolve_found-TouchesOwn = record {
    other = λ req w t ne. elim (Option-cases (lookup req)) [
      | inl e ↦ rw (resolve_found-none req w e)
      | inr (v, e) ↦ rw (resolve_found-some req w e) (answer-resolve_ne r req (ok (some v)) w t ne)
    ];
    closed = λ req w t. elim (Option-cases (lookup req)) [
      | inl e ↦ rw (resolve_found-none req w e)
      | inr (v, e) ↦ rw (resolve_found-some req w e) (is_closed-resolve r req (ok (some v)) w t)
    ];
    made = λ req w t. elim (Option-cases (lookup req)) [
      | inl e ↦ rw (resolve_found-none req w e)
      | inr (v, e) ↦ rw (resolve_found-some req w e) (is_made-resolve r req (ok (some v)) w t)
    ];
  }

  pub not_found-cons_some :
      (x : Request r) (l : List (Request r)) {v : r.Value}
      → lookup x ≡ some v
      → not_found r results (x ∷ l) ≡ not_found r results l
  unfolding not_found
  not_found-cons_some x l e = rw (e, not_found)

  pub not_found-cons_none :
      (x : Request r) (l : List (Request r))
      → lookup x ≡ none
      → not_found r results (x ∷ l) ≡ x ∷ not_found r results l
  unfolding not_found
  not_found-cons_none x l e = rw (e, not_found)

  not_found-Memᴰ :
      (req : Request r) (l : List (Request r))
      → lookup req ≡ none
      → Memᴰ req l
      → Memᴰ req (not_found r results l)
  not_found-Memᴰ req [] e m = elim m [ ]
  not_found-Memᴰ req (x ∷ l) e (Memᴰ.head p) =
      rw (not_found-cons_none x l (subst (λ y. lookup y ≡ none) p e)) (Memᴰ.head p)
  not_found-Memᴰ req (x ∷ l) e (Memᴰ.tail m) = elim (Option-cases (lookup x)) [
    | inl f ↦ rw (not_found-cons_none x l f) (Memᴰ.tail (not_found-Memᴰ req l e m))
    | inr (v, f) ↦ rw (not_found-cons_some x l f) (not_found-Memᴰ req l e m)
  ]

  -- Partial results never add a request.
  pub senders-not_found-le :
      (t : Tx r) (l : List (Request r)) → senders r t (not_found r results l) ≤ senders r t l
  unfolding not_found senders
  senders-not_found-le t [] = omega arith
  senders-not_found-le t (x ∷ l) = ground (arith, senders-not_found-le t l)

  senders-not_found_hit :
      (req : Request r) (l : List (Request r)) {v : r.Value}
      → lookup req ≡ some v
      → Memᴰ req l
      → senders r (tx r req) l ≤ 1
      → senders r (tx r req) (not_found r results l) ≡ 0
  unfolding senders
  senders-not_found_hit req [] e m once = elim m [ ]
  senders-not_found_hit req (x ∷ l) {v} e (Memᴰ.head p) once =
      let same : tx r x ≡ tx r req = ap (tx r) (sym p) in
      rw (not_found-cons_some x l (subst (λ y. lookup y ≡ some v) p e))
        (ground (arith, senders-not_found-le (tx r req) l))
  senders-not_found_hit req (x ∷ l) e (Memᴰ.tail m) once = elim (Option-cases (lookup x)) [
    | inl f ↦
        rw (not_found-cons_none x l f)
          (ground (arith, senders_pos r req l m, senders-not_found_hit req l e m))
    | inr (v, f) ↦
        rw (not_found-cons_some x l f)
          (ground (arith, senders_pos r req l m, senders-not_found_hit req l e m))
  ]

  module _ (order : Order (Request r)) (batch : LoadBatch r) (w : World r) where
    abbrev pub after : TaskAssignment r × World r
    after = apply_partial_results r order batch results w

    pub assigned-after : assigned after.0 ≡ not_found r results batch.requests
    unfolding apply_partial_results
    assigned-after =
        elim (not_found r results batch.requests) as (λ l. assigned (assign_rest r l) ≡ l) [
          | [] ↦ refl
          | x ∷ l ↦ refl
        ]

    -- `apply_partial_results` answers a request of the batch whose key is in the partial results
    -- with that value, if the request is the only one with its sender and its receivers are not
    -- dropped, and no request with that sender stays assigned.
    pub apply_partial_results-found :
        (req : Request r) {v : r.Value}
        → lookup req ≡ some v
        → Memᴰ req batch.requests
        → senders r (tx r req) batch.requests ≤ 1
        → is_closed r w (tx r req) ≡ false
        → (answer r after.1 (tx r req) ≡ some (ok (some v)))
          × (senders r (tx r req) (assigned after.0) ≡ 0)
    unfolding apply_partial_results
    apply_partial_results-found req {v} e m once opened = (
      for_each-hit r (resolve_found r results) resolve_found-TouchesOwn (order.visit batch.requests)
          w req (ok (some v))
          (λ u o. rw (resolve_found-some req u e) (answer-resolve r req (ok (some v)) u o))
          (perm-Memᴰ (order.visit-perm batch.requests) m)
          (rw (sym (senders-perm r (tx r req) (order.visit-perm batch.requests))) once) opened,
      rw assigned-after (senders-not_found_hit req batch.requests e m once),
    )

    -- `apply_partial_results` keeps assigned a request of the batch whose key is not in the
    -- partial results, and leaves what its receivers see as it was, if the request is the only
    -- one with its sender.
    pub apply_partial_results-missing :
        (req : Request r)
        → lookup req ≡ none
        → Memᴰ req batch.requests
        → senders r (tx r req) batch.requests ≤ 1
        → Memᴰ req (assigned after.0) × (answer r after.1 (tx r req) ≡ answer r w (tx r req))
    unfolding apply_partial_results
    apply_partial_results-missing req e m once = (
      rw assigned-after (not_found-Memᴰ req batch.requests e m),
      for_each-keep r (resolve_found r results) resolve_found-TouchesOwn
          (order.visit batch.requests) w (tx r req)
          λ other n same v c.
            let n' : Memᴰ other batch.requests =
              perm-Memᴰ (Permᴰ.symm (order.visit-perm batch.requests)) n in
            rw (
              resolve_found-none other v
                (rw (senders_unique r req other batch.requests m n' same once) e)),
    )
