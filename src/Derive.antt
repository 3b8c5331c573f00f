-- ===== src/Derive.antt =====
-- deque-loader-derive/src/lib.rs: the derive macros, which implementations they generate from the attributes.
pub mod Attributes
pub mod Coherence
use channel_loader_rs.Base.{
  List, [], ◌∷◌, ◌++◌, map, Option, none, some, Result, ok, err, Bool, true, false, if◌then◌else◌,
}

-- A `SynPath` names the handler, as in `DieselHandler<UserLoader>`.
pub record DataLoaderAttr (SynPath : Type 0) : Type 0 where
  pub handler : SynPath
  pub cached : Bool

-- What darling does with an attribute, and whether it is a `data_loader`.
pub record Darling (Attribute Meta SynPath Error : Type 0) : Type 0 where
  pub is_data_loader : Attribute → Bool
  pub parse_attribute_to_meta_list : Attribute → Result Meta Error
  pub from_list : Meta → Result (DataLoaderAttr SynPath) Error
  pub multiple : List Error → Error

pub data StoreType : Type 0 where
  data_store cache_store : StoreType

-- A handler, or `RedisCacheAdapter` of it.
pub data HandlerType (SynPath : Type 0) : Type 0 where
  plain adapted : SynPath → HandlerType SynPath

-- `impl LoadBy<handler, ..> for loadable`, which calls the loader that `handler` has for `store`.
pub record LoadByImpl (Ident SynPath : Type 0) : Type 0 where
  pub loadable : Ident
  pub handler : HandlerType SynPath
  pub store : StoreType

-- `impl LocalLoader<store> for loader`, with its `Handler`.
pub record LocalLoaderImpl (Ident SynPath : Type 0) : Type 0 where
  pub loader : Ident
  pub store : StoreType
  pub handler : HandlerType SynPath

module _ {A B : Type 0} where
  unfoldable pub filter_map : (A → Option B) → List A → List B
  filter_map f [] = []
  filter_map f (x ∷ xs) = elim (f x) [ none ↦ filter_map f xs | some y ↦ y ∷ filter_map f xs ]

module _ {Attribute Meta SynPath Error : Type 0} (d : Darling Attribute Meta SynPath Error) where
  unfoldable pub parse_attribute : Attribute → Result (DataLoaderAttr SynPath) Error
  parse_attribute attr = elim (d.parse_attribute_to_meta_list attr) [
    | ok meta ↦ d.from_list meta
    | err e ↦ err e
  ]

  -- The loop, with the loaders and the errors that it has pushed.
  unfoldable pub sort_results :
      List Attribute
      → List (DataLoaderAttr SynPath)
      → List Error
      → List (DataLoaderAttr SynPath) × List Error
  unfolding parse_attribute
  sort_results [] loaders errors = (loaders, errors)
  sort_results (attr ∷ attrs) loaders errors =
      let skip = sort_results attrs loaders errors in
      if d.is_data_loader attr
      then elim (parse_attribute attr) [
        | ok loader ↦ sort_results attrs (loaders ++ loader ∷ []) errors
        | err e ↦ sort_results attrs loaders (errors ++ e ∷ [])
      ]
      else skip

  unfoldable pub parse_data_loaders : List Attribute → Result (List (DataLoaderAttr SynPath)) Error
  unfolding sort_results
  parse_data_loaders attrs =
      let (loaders, errors) = sort_results attrs [] [] in
      elim errors [ [] ↦ ok loaders | e ∷ es ↦ err (d.multiple (e ∷ es)) ]

unfoldable pub uncached_handler : {SynPath : Type 0} → DataLoaderAttr SynPath → Option SynPath
uncached_handler loader = if loader.cached then none else some loader.handler

unfoldable pub cached_handler :
    {SynPath : Type 0} → DataLoaderAttr SynPath → Option (HandlerType SynPath)
cached_handler loader = if loader.cached then some (adapted loader.handler) else none

module _ {Ident SynPath : Type 0} where
  -- `#[derive(Loadable)]`, once the attributes are parsed.
  unfoldable pub expand_load_by :
      Ident → List (DataLoaderAttr SynPath) → List (LoadByImpl Ident SynPath)
  unfolding filter_map uncached_handler cached_handler
  expand_load_by loadable loaders =
      map (λ h. record { loadable = loadable; handler = plain h; store = data_store })
        (filter_map uncached_handler loaders)
      ++ map (λ h. record { loadable = loadable; handler = h; store = cache_store })
          (filter_map cached_handler loaders)

  -- `#[derive(Loader)]`
  unfoldable pub expand_local_loader :
      Ident → List (DataLoaderAttr SynPath) → List (LocalLoaderImpl Ident SynPath)
  unfolding filter_map cached_handler
  expand_local_loader loader loaders =
      map
        (λ (l : DataLoaderAttr SynPath). record {
          loader = loader;
          store = data_store;
          handler = plain l.handler;
        })
        loaders
      ++ map (λ h. record { loader = loader; store = cache_store; handler = h })
          (filter_map cached_handler loaders)

  module _ {Attribute Meta Error : Type 0} (d : Darling Attribute Meta SynPath Error) where
    unfoldable pub load_by_impls :
        Ident → List Attribute → Result (List (LoadByImpl Ident SynPath)) Error
    unfolding parse_data_loaders expand_load_by
    load_by_impls loadable attrs = elim (parse_data_loaders d attrs) [
      | ok loaders ↦ ok (expand_load_by loadable loaders)
      | err e ↦ err e
    ]

    unfoldable pub local_loader :
        Ident → List Attribute → Result (List (LocalLoaderImpl Ident SynPath)) Error
    unfolding parse_data_loaders expand_local_loader
    local_loader loader attrs = elim (parse_data_loaders d attrs) [
      | ok loaders ↦ ok (expand_local_loader loader loaders)
      | err e ↦ err e
    ]
