-- ===== src/Graphql.antt =====
-- deque-loader/src/graphql.rs: the caches that are attached to a request, and how they are found.
pub mod Caches
use channel_loader_rs.Base.{◌≡◌, ◌≢◌, List, [], ◌∷◌, Option, none, some}

-- async_graphql's data of a request: one value for each type. A `Handler` names a `TaskHandler`,
-- and `ContextCache h` is its cache; `set_data` is `Request::data`. A context of the request finds the request's data.
pub record RequestData : Type 1 where
  pub Handler : Type 0
  pub same_type : (a b : Handler) → Dec (a ≡ b)
  pub ContextCache : Handler → Type 0
  pub new_cache : (h : Handler) → ContextCache h
  pub Request : Type 0
  pub set_data : (h : Handler) → ContextCache h → Request → Request
  pub data_opt : (h : Handler) → Request → Option (ContextCache h)

-- Data that is set is found, and setting it leaves that of other types.
pub record RequestLaws (g : RequestData) : Type 0 where
  pub found :
      (h : g.Handler) (c : g.ContextCache h) (q : g.Request)
      → g.data_opt h (g.set_data h c q) ≡ some c
  pub kept :
      (h other : g.Handler) (c : g.ContextCache h) (q : g.Request)
      → h ≢ other
      → g.data_opt other (g.set_data h c q) ≡ g.data_opt other q

pub data Referred (A : Type 0) : Type 0 where
  refers : A → Referred A
  panics : Referred A

module _ (g : RequestData) where
  -- `CacheFactory::new`, and the call of it that `insert_loader_cache` makes.
  unfoldable pub cache_factory : g.Handler → g.Request → g.Request
  cache_factory h request = g.set_data h (g.new_cache h) request

  -- The factories are those registered, by their handlers, in the order of the inventory.
  unfoldable pub insert_loader_caches : List g.Handler → g.Request → g.Request
  unfolding cache_factory
  insert_loader_caches [] request = request
  insert_loader_caches (h ∷ factories) request =
      insert_loader_caches factories (cache_factory h request)

  unfoldable pub as_ref : (h : g.Handler) → g.Request → Referred (g.ContextCache h)
  as_ref h request = elim (g.data_opt h request) [ some cache ↦ refers cache | none ↦ panics ]
