-- ===== src/Graphql/Caches.antt =====
-- Which caches a request has after `insert_loader_caches`.
use channel_loader_rs.Base.{◌≡◌, refl, ◌∙◌, sym, subst, ◌⊎◌, inl, inr, List, [], ◌∷◌, some, Memᴰ}
use mathlib.Core.List.Memᴰ as In
use channel_loader_rs.Graphql.{
  RequestData, RequestLaws, refers, insert_loader_caches, cache_factory, as_ref,
}

module _ (g : RequestData) (laws : RequestLaws g) where
  insert_loader_caches-kept :
      (factories : List g.Handler) (h : g.Handler) (q : g.Request)
      → ¬ Memᴰ h factories
      → g.data_opt h (insert_loader_caches g factories q) ≡ g.data_opt h q
  unfolding insert_loader_caches cache_factory
  insert_loader_caches-kept [] h q absent = refl
  insert_loader_caches-kept (f ∷ fs) h q absent =
      insert_loader_caches-kept fs h (cache_factory g f q) (λ m. absent (Memᴰ.tail m))
      ∙ laws.kept f h (g.new_cache f) q (λ e. absent (Memᴰ.head (sym e)))

  insert_loader_caches-found :
      (factories : List g.Handler) (h : g.Handler) (q : g.Request)
      → Memᴰ h factories ⊎ (g.data_opt h q ≡ some (g.new_cache h))
      → g.data_opt h (insert_loader_caches g factories q) ≡ some (g.new_cache h)
  unfolding insert_loader_caches cache_factory
  insert_loader_caches-found [] h q (inl m) = absurd (In.not-nil m)
  insert_loader_caches-found [] h q (inr e) = e
  insert_loader_caches-found (f ∷ fs) h q there = elim (g.same_type f h) [
    | yes here ↦ insert_loader_caches-found fs h (cache_factory g f q) (
        inr (
          subst (λ x. g.data_opt x (cache_factory g f q) ≡ some (g.new_cache x)) here
            (laws.found f (g.new_cache f) q)))
    | no other ↦ insert_loader_caches-found fs h (cache_factory g f q) (elim there [
      | inr e ↦ inr (laws.kept f h (g.new_cache f) q other ∙ e)
      | inl m ↦ elim (In.cases_cons m) [
        | inl same ↦ absurd (other (sym same))
        | inr later ↦ inl later
      ]
    ])
  ]

  among : (fs : List g.Handler) (h : g.Handler) → Dec (Memᴰ h fs)
  among [] h = no In.not-nil
  among (f ∷ fs) h = elim (g.same_type h f) [
    | yes same ↦ yes (Memᴰ.head same)
    | no other ↦ elim (among fs h) [
      | yes later ↦ yes (Memᴰ.tail later)
      | no absent ↦
          no (λ m. elim (In.cases_cons m) [ inl same ↦ other same | inr later ↦ absent later ])
    ]
  ]

  -- If data set in a request is found and leaves the data of other types, then in a request that
  -- has gone through `insert_loader_caches`, `as_ref` for a handler does not panic and gives a
  -- new cache if the handler is registered, however often; if it is not, it does what it did
  -- before.
  pub insert_loader_caches-as_ref :
      (factories : List g.Handler) (h : g.Handler) (q : g.Request)
      → (Memᴰ h factories
          × (as_ref g h (insert_loader_caches g factories q) ≡ refers (g.new_cache h)))
        ⊎ ((¬ Memᴰ h factories) × (as_ref g h (insert_loader_caches g factories q) ≡ as_ref g h q))
  unfolding as_ref
  insert_loader_caches-as_ref factories h q = elim (among factories h) [
    | yes m ↦ inl (m, rw (insert_loader_caches-found factories h q (inl m), as_ref) refl)
    | no absent ↦ inr (absent, rw (insert_loader_caches-kept factories h q absent, as_ref) refl)
  ]
