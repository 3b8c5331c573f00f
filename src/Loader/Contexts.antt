-- ===== src/Loader/Contexts.antt =====
-- The calls of `cached_load_by` in one request context (deque-loader/src/loader.rs), one after the other.
use Prim.Native.Nat.{min}
use mathlib.Core.List.Memᴰ
use channel_loader_rs.Base.{
  ℕ, suc, ◌+◌, ◌≡◌, ◌≢◌, refl, sym, ap, ◌∙◌, subst, inl, inr, none, some, Option-cases, List, [],
  ◌∷◌, ◌++◌, map, Memᴰ, count, count-append, arith,
}
use channel_loader_rs.External.{SwapQueue, ConcurrentMap}
use channel_loader_rs.Request.{Runtime, Request, new_watch}
use channel_loader_rs.Request.Create.{new_watch-Created}
use channel_loader_rs.Loader.{DataLoader, cached_load_by, enqueue}
use channel_loader_rs.Loader.Together.{Waits, enqueue-first, enqueue-more}
use channel_loader_rs.Loader.Shared.{
  alone, cached_all, cached_load_by_hit, cached_load_by_miss, Kept, Kept-asks, hit-Kept, miss-Kept,
  new-Kept,
}

module _ (r : Runtime) (q : SwapQueue (Request r)) (c : ConcurrentMap r.Key r.watch.Handle) where
  -- A context and a loader that come after the context `m`: receivers that it had are kept.
  pub record Later (asks : r.Key → ℕ) (m : c.Map) : Type 0 where
    pub context : c.Map
    pub loader : DataLoader r q
    pub requests : List (Request r)
    pub waits : Waits r q loader requests
    pub kept : Kept r q c asks context requests
    pub keeps : (j : r.Key) (rx : r.watch.Handle) → c.get m j ≡ some rx → c.get context j ≡ some rx

  -- One call.
  abbrev Called : ℕ → r.Key → (r.Key → ℕ) → c.Map → DataLoader r q → Type 0
  Called fuel k asks m l =
      (rx : r.watch.Handle) × (after : Later (λ j. count r.Key-discrete j (k ∷ []) + asks j) m)
      × (cached_load_by r q c (alone r q c) fuel k m l ≡ some (rx, after.context, after.loader))
      × (c.get after.context k ≡ some rx)

  try_insert-keeps :
      (k : r.Key) (rx : r.watch.Handle) (m : c.Map)
      → c.get m k ≡ none
      → (j : r.Key) (rx' : r.watch.Handle) → c.get m j ≡ some rx'
      → c.get (c.try_insert k rx m).1 j ≡ some rx'
  try_insert-keeps k rx m e j rx' found =
      let other : k ≢ j = λ p. cc (sym e ∙ subst (λ j. c.get m j ≡ some rx') (sym p) found) in
      c.get-try_insert_ne k j rx m other ∙ found

  cached_load_by-Called :
      (fuel : ℕ) (k : r.Key) {asks : r.Key → ℕ} (m : c.Map) (l : DataLoader r q)
      (reqs : List (Request r))
      → Waits r q l reqs
      → Kept r q c asks m reqs
      → Called (suc fuel) k asks m l
  cached_load_by-Called fuel k m l reqs waits kept = elim (Option-cases (c.get m k)) [
    | inr (rx, e) ↦ (
      rx,
      record {
        context = m;
        loader = l;
        requests = reqs;
        waits = waits;
        kept = hit-Kept r q c k rx e kept;
        keeps = λ j rx' found. found;
      },
      cached_load_by_hit r q c fuel k m l rx e,
      e,
    )
    | inl e ↦
        let ((req, rx), w) = new_watch r k l.world in
        let (created, same) = new_watch-Created r k l.world in
        (
          rx,
          record {
            context = (c.try_insert k rx m).1;
            loader = enqueue r q req (record l { world = w });
            requests = reqs ++ req ∷ [];
            waits = enqueue-more r q k req w l reqs created waits;
            kept = miss-Kept r q c k req rx e created.keyed same kept;
            keeps = try_insert-keeps k rx m e;
          },
          cached_load_by_miss r q c fuel k m l e,
          (c.try_insert_vacant k rx m e).1,
        )
  ]

  -- Several calls.
  abbrev pub AllCalled : ℕ → List r.Key → (r.Key → ℕ) → c.Map → DataLoader r q → Type 0
  AllCalled fuel ks asks m l =
      (calls : List (r.Key × r.watch.Handle)) × (after : Later
        (λ j. count r.Key-discrete j ks + asks j) m)
      × (cached_all r q c fuel ks m l ≡ some (calls, after.context, after.loader))
      × (map (λ call. call.0) calls ≡ ks)
      × ((call : r.Key × r.watch.Handle)
          → Memᴰ call calls
          → c.get after.context call.0 ≡ some call.1)

  cached_all-cons :
      (fuel : ℕ) (k : r.Key) (ks : List r.Key) (m : c.Map) (l : DataLoader r q)
      {rx : r.watch.Handle} {m' : c.Map} {l' : DataLoader r q}
      {calls : List (r.Key × r.watch.Handle)} {m'' : c.Map} {l'' : DataLoader r q}
      → cached_load_by r q c (alone r q c) fuel k m l ≡ some (rx, m', l')
      → cached_all r q c fuel ks m' l' ≡ some (calls, m'', l'')
      → cached_all r q c fuel (k ∷ ks) m l ≡ some ((k, rx) ∷ calls, m'', l'')
  unfolding cached_all
  cached_all-cons fuel k ks m l one others = rw (one, cached_all) (rw (others, cached_all) refl)

  AllCalled-cons :
      (fuel : ℕ) (k : r.Key) (ks : List r.Key) (asks : r.Key → ℕ) (m : c.Map) (l : DataLoader r q)
      (first : Called fuel k asks m l)
      → AllCalled fuel ks
          (λ j. count r.Key-discrete j (k ∷ []) + asks j)
          first.1.context
          first.1.loader
      → AllCalled fuel (k ∷ ks) asks m l
  AllCalled-cons fuel k ks asks m l (rx, next, one, found) (calls, last, others, keys, all) = (
    (k, rx) ∷ calls,
    record {
      context = last.context;
      loader = last.loader;
      requests = last.requests;
      waits = last.waits;
      kept =
          Kept-asks r q c (λ j. count r.Key-discrete j (k ∷ ks) + asks j)
            (λ j. ap (λ n. min 1 n) (omega (arith, count-append r.Key-discrete j (k ∷ []) ks)))
            last.kept;
      keeps = λ j rx' h. last.keeps j rx' (next.keeps j rx' h);
    },
    cached_all-cons fuel k ks m l one others,
    ap (λ ks. k ∷ ks) keys,
    λ call m'. elim m' [
      | Memᴰ.head e ↦
          subst (λ call. c.get last.context call.0 ≡ some call.1) (sym e) (last.keeps k rx found)
      | Memᴰ.tail m'' ↦ all call m''
    ],
  )

  cached_all-AllCalled :
      (fuel : ℕ) (ks : List r.Key) {asks : r.Key → ℕ} (m : c.Map) (l : DataLoader r q)
      (reqs : List (Request r))
      → Waits r q l reqs
      → Kept r q c asks m reqs
      → AllCalled (suc fuel) ks asks m l
  cached_all-AllCalled fuel [] {asks} m l reqs waits kept = (
    [],
    record {
      context = m;
      loader = l;
      requests = reqs;
      waits = waits;
      kept =
          Kept-asks r q c {asks = asks} (λ j. count r.Key-discrete j [] + asks j)
            (λ j. ap (λ n. min 1 n) (unfold count in omega arith)) kept;
      keeps = λ j rx h. h;
    },
    unfold cached_all in refl,
    refl,
    λ call m'. absurd (Memᴰ.not-nil m'),
  )
  cached_all-AllCalled fuel (k ∷ ks) {asks} m l reqs waits kept =
      let first = cached_load_by-Called fuel k m l reqs waits kept in
      AllCalled-cons (suc fuel) k ks asks m l first (
        cached_all-AllCalled fuel ks first.1.context first.1.loader first.1.requests first.1.waits
          first.1.kept)

  -- The first call on a loader with nothing to do, with a new context.
  first_call :
      (fuel : ℕ) (k : r.Key) (l : DataLoader r q)
      → q.waiting l.queue ≡ none
      → l.spawned ≡ []
      → Called (suc fuel) k (λ j. 0) c.new l
  first_call fuel k l out none_spawned =
      let ((req, rx), w) = new_watch r k l.world in
      let (created, same) = new_watch-Created r k l.world in
      let vacant = c.get-new k in
      (
        rx,
        record {
          context = (c.try_insert k rx c.new).1;
          loader = enqueue r q req (record l { world = w });
          requests = req ∷ [];
          waits = enqueue-first r q k req w l created out none_spawned;
          kept = miss-Kept r q c k req rx vacant created.keyed same (new-Kept r q c);
          keeps = try_insert-keeps k rx c.new vacant;
        },
        cached_load_by_miss r q c fuel k c.new l vacant,
        (c.try_insert_vacant k rx c.new vacant).1,
      )

  pub cached_all-new :
      (fuel : ℕ) (k : r.Key) (ks : List r.Key) (l : DataLoader r q)
      → q.waiting l.queue ≡ none
      → l.spawned ≡ []
      → AllCalled (suc fuel) (k ∷ ks) (λ j. 0) c.new l
  cached_all-new fuel k ks l out none_spawned =
      let first = first_call fuel k l out none_spawned in
      AllCalled-cons (suc fuel) k ks (λ j. 0) c.new l first
        (cached_all-AllCalled fuel ks first.1.context first.1.loader first.1.requests first.1.waits
          first.1.kept)
