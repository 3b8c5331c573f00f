-- ===== src/Derive/Coherence.antt =====
-- The loader that a loadable calls is one that its handler has.
use channel_loader_rs.Base.{
  ◌≡◌, refl, ◌∙◌, sym, subst, ap, List, [], ◌∷◌, Memᴰ, Option, none, some, Bool-cases, inl, inr,
  true, if◌then◌else◌,
}
use mathlib.Core.List.Memᴰ as In
use channel_loader_rs.Derive.{
  DataLoaderAttr, StoreType, data_store, cache_store, HandlerType, plain, adapted, LocalLoaderImpl,
  filter_map, uncached_handler, cached_handler, expand_load_by, expand_local_loader,
}

filter_map-Memᴰ :
    {A B : Type 0} (f : A → Option B) {x : A} {y : B} (xs : List A)
    → f x ≡ some y
    → Memᴰ x xs
    → Memᴰ y (filter_map f xs)
unfolding filter_map
filter_map-Memᴰ f [] e m = absurd (In.not-nil m)
filter_map-Memᴰ f (z ∷ xs) e (Memᴰ.head same) =
    rw (sym (ap f same) ∙ e, filter_map) (Memᴰ.head refl)
filter_map-Memᴰ {B = B} f {y = y} (z ∷ xs) e (Memᴰ.tail m) = go (f z) (filter_map-Memᴰ f xs e m)
  where
    go :
        (r : Option B)
        → Memᴰ y (filter_map f xs)
        → Memᴰ y (elim r [ none ↦ filter_map f xs | some w ↦ w ∷ filter_map f xs ])
    go none later = later
    go (some w) later = Memᴰ.tail later

module _ {Ident SynPath : Type 0} (named : SynPath → Ident) where
  -- What a handler has as its loaders, where each type is declared with the implementations
  -- `impls`. `named` is the type that derives: a path `DieselHandler<T>` passes on the loaders of
  -- `T`, and `RedisCacheAdapter<T>` those of `T`, if `T` has both.
  pub data HasLoader (impls : List (LocalLoaderImpl Ident SynPath))
      : HandlerType SynPath → StoreType → HandlerType SynPath → Type 0 where
    derived :
        (p : SynPath) (store : StoreType) (h : HandlerType SynPath)
        → Memᴰ (record { loader = named p; store = store; handler = h }) impls
        → HasLoader impls (plain p) store h
    passed_on :
        (p : SynPath) (store : StoreType) (h h' h'' : HandlerType SynPath)
        → HasLoader impls (plain p) data_store h'
        → HasLoader impls (plain p) cache_store h''
        → HasLoader impls (plain p) store h
        → HasLoader impls (adapted p) store h

  -- What a loadable loads with, and where it looks.
  abbrev pub handler_of : DataLoaderAttr SynPath → HandlerType SynPath
  handler_of l = if l.cached then adapted l.handler else plain l.handler

  abbrev pub store_of : DataLoaderAttr SynPath → StoreType
  store_of l = if l.cached then cache_store else data_store

  handler_of-expand :
      (loadable : Ident) (ls : List (DataLoaderAttr SynPath)) (l : DataLoaderAttr SynPath)
      → Memᴰ l ls
      → Memᴰ
          (record { loadable = loadable; handler = handler_of l; store = store_of l })
          (expand_load_by loadable ls)
  unfolding expand_load_by uncached_handler cached_handler
  handler_of-expand loadable ls l m = elim (Bool-cases l.cached) [
    | inl yes_cached ↦
        rw yes_cached
          (In.append_right _ (In.map _ (filter_map-Memᴰ cached_handler ls (rw yes_cached refl) m)))
    | inr uncached ↦
        rw uncached
          (In.append_left _ (In.map _ (filter_map-Memᴰ uncached_handler ls (rw uncached refl) m)))
  ]

  expand_local_loader-data :
      (ls : List (DataLoaderAttr SynPath)) (l : DataLoaderAttr SynPath)
      → Memᴰ l ls
      → HasLoader
          (expand_local_loader (named l.handler) ls)
          (plain l.handler)
          data_store
          (plain l.handler)
  unfolding expand_local_loader
  expand_local_loader-data ls l m =
      derived l.handler data_store (plain l.handler) (In.append_left _ (In.map _ m))

  expand_local_loader-cache :
      (ls : List (DataLoaderAttr SynPath)) (l : DataLoaderAttr SynPath)
      → l.cached ≡ true
      → Memᴰ l ls
      → HasLoader
          (expand_local_loader (named l.handler) ls)
          (plain l.handler)
          cache_store
          (adapted l.handler)
  unfolding expand_local_loader cached_handler
  expand_local_loader-cache ls l c m =
      derived l.handler cache_store (adapted l.handler)
        (In.append_right _ (In.map _ (filter_map-Memᴰ cached_handler ls (rw c refl) m)))

  -- If an attribute of a loadable and an attribute of the loader that derives for its path name
  -- the same handler, and the loader's is cached if the loadable's is, then the macro for the
  -- loadable generates an implementation for the handler, behind the Redis adapter if cached,
  -- which calls a loader that exists through what the macro for the loader generates, and whose
  -- handler is that same handler.
  pub expand_load_by-HasLoader :
      (loadable : Ident) (loadable_attrs loader_attrs : List (DataLoaderAttr SynPath))
      (l l' : DataLoaderAttr SynPath)
      → Memᴰ l loadable_attrs
      → Memᴰ l' loader_attrs
      → l'.handler ≡ l.handler
      → (l.cached ≡ true → l'.cached ≡ true)
      → Memᴰ
          (record { loadable = loadable; handler = handler_of l; store = store_of l })
          (expand_load_by loadable loadable_attrs)
        × HasLoader
            (expand_local_loader (named l.handler) loader_attrs)
            (handler_of l)
            (store_of l)
            (handler_of l)
  expand_load_by-HasLoader loadable loadable_attrs loader_attrs l l' m m' same both = (
    handler_of-expand loadable loadable_attrs l m,
    elim (Bool-cases l.cached) [
      | inl yes_cached ↦
          let over =
            subst
              (λ p.
                HasLoader (expand_local_loader (named p) loader_attrs) (plain p) data_store
                  (plain p))
              same (expand_local_loader-data loader_attrs l' m') in
          let front =
            subst
              (λ p.
                HasLoader (expand_local_loader (named p) loader_attrs) (plain p) cache_store
                  (adapted p))
              same (expand_local_loader-cache loader_attrs l' (both yes_cached) m') in
          rw yes_cached (
            passed_on l.handler cache_store (adapted l.handler) (plain l.handler)
              (adapted l.handler) over front front)
      | inr uncached ↦ rw uncached (
          subst
            (λ p.
              HasLoader (expand_local_loader (named p) loader_attrs) (plain p) data_store (plain p))
            same (expand_local_loader-data loader_attrs l' m'))
    ],
  )
