-- ===== src/External/Flurry.antt =====
-- flurry's concurrent HashMap, with the two operations that the crate calls.
use channel_loader_rs.Base.{◌≡◌, ◌≢◌, Option, none, some}

-- `try_insert` gives back what it stored, or `none` when the key is taken; a taken key keeps its value.
pub record ConcurrentMap (K V : Type 0) : Type 1 where
  pub Map : Type 0
  pub new : Map
  pub get : Map → K → Option V
  pub try_insert : K → V → Map → Option V × Map
  pub get-new : (k : K) → get new k ≡ none
  pub try_insert_vacant :
      (k : K) (v : V) (m : Map)
      → get m k ≡ none
      → ((try_insert k v m).0 ≡ some v) × (get (try_insert k v m).1 k ≡ some v)
  pub try_insert_taken :
      (k : K) (v : V) (m : Map) {u : V}
      → get m k ≡ some u
      → ((try_insert k v m).0 ≡ none) × (get (try_insert k v m).1 k ≡ some u)
  pub get-try_insert_ne : (k j : K) (v : V) (m : Map) → k ≢ j → get (try_insert k v m).1 j ≡ get m j
