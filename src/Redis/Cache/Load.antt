-- ===== src/Redis/Cache/Load.antt =====
-- `RedisCacheAdapter::load`: what the map of results holds under each key.
use channel_loader_rs.Base.{
  ◌≡◌, refl, sym, ◌∙◌, ap, ite, List, [], ◌∷◌, map, Option, none, some, Option-cases, inl, inr, ok,
  HashMap, get, extend, count, ℕ_discrete, arith, Memᴰ, count_pos,
}
use channel_loader_rs.External.Redis.{Text, Bytes, RedisCache}
use channel_loader_rs.Redis.Cache.{cache_key, decode, found, load}

-- Redis gives for each key what it holds; GET with one key and MGET with several agree.
pub record Holds {K V : Type 0} (c : RedisCache K V) (store : Text → Option Bytes) : Type 0 where
  pub get_one_lem : (k : Text) → c.get_one k ≡ ok (store k)
  pub get_many_lem :
      (j k : Text) (ks : List Text) → c.get_many (j ∷ k ∷ ks) ≡ ok (map store (j ∷ k ∷ ks))

module _ {K V : Type 0} (dec : Discrete K) (c : RedisCache K V) (store : Text → Option Bytes) where
  -- The value cached for a key: what Redis holds under its cache key, if that can be deserialized.
  abbrev pub cached : K → Option V
  cached k = decode dec c (store (cache_key c k))

  abbrev results : List K → List (Option Bytes)
  results keys = map store (map (cache_key c) keys)

  abbrev or_else : Option V → Option V → Option V
  or_else (some v) o = some v
  or_else none o = o

  found-none :
      (key : K) (keys : List K)
      → cached key ≡ none
      → found dec c (key ∷ keys) (results (key ∷ keys)) ≡ found dec c keys (results keys)
  unfolding found
  found-none key keys e = rw (e, found)

  found-some :
      (key : K) (keys : List K) {v : V}
      → cached key ≡ some v
      → found dec c (key ∷ keys) (results (key ∷ keys)) ≡ (key, v) ∷ found dec c keys (results keys)
  unfolding found
  found-some key keys e = rw (e, found)

  get-extend-found :
      (keys : List K) (m : HashMap K V) (k : K)
      → get dec (extend dec m (found dec c keys (results keys))) k
        ≡ ite (ℕ_discrete (count dec k keys) 0) (get dec m k) (or_else (cached k) (get dec m k))
  unfolding extend get count ℕ_discrete
  get-extend-found [] m k = unfold found in refl
  get-extend-found (key ∷ keys) m k = elim (Option-cases (cached key)) [
    | inl e ↦
        rw (found-none key keys e, get-extend-found keys m k)
          (elim (dec key k) [
            | yes same ↦
                let gone : cached k ≡ none = ap cached (sym same) ∙ e in rw gone (ground arith)
            | no other ↦ ground arith
          ])
    | inr (v, e) ↦
        rw (found-some key keys e, get-extend-found keys ((key, v) ∷ m) k)
          (elim (dec key k) [
            | yes same ↦
                let there : cached k ≡ some v = ap cached (sym same) ∙ e in rw there (ground arith)
            | no other ↦ ground arith
          ])
  ]

  -- What a load of the keys gives, as a map.
  abbrev loaded : List K → HashMap K V
  loaded keys = extend dec [] (found dec c keys (results keys))

  load-loaded :
      Holds c store → (key : K) (keys : List K) → load dec c (key ∷ keys) ≡ ok (loaded (key ∷ keys))
  unfolding load
  load-loaded h key [] = rw (h.get_one_lem (cache_key c key)) refl
  load-loaded h key (next ∷ keys) =
      rw (h.get_many_lem (cache_key c key) (cache_key c next) (map (cache_key c) keys)) refl

  -- If the commands to Redis give what it holds, `load` of one or more keys succeeds, and its map
  -- gives for each key asked what Redis holds under its cache key, deserialized, and nothing for
  -- a key whose value is missing or cannot be deserialized, nor for a key not asked.
  pub load-Holds :
      Holds c store
      → (key : K) (keys : List K)
      → (m : HashMap K V) × (load dec c (key ∷ keys) ≡ ok m)
        × ((k : K) → get dec m k ≡ ite (ℕ_discrete (count dec k (key ∷ keys)) 0) none (cached k))
  load-Holds h key keys = (
    loaded (key ∷ keys),
    load-loaded h key keys,
    λ k. get-extend-found (key ∷ keys) [] k ∙ unfold get in ground arith,
  )

  -- The same for one key among those that are asked for.
  pub load-Memᴰ :
      Holds c store
      → (keys : List K) {k : K} → Memᴰ k keys
      → (m : HashMap K V) × (load dec c keys ≡ ok m) × (get dec m k ≡ cached k)
  load-Memᴰ h [] m = elim m [ ]
  load-Memᴰ h (key ∷ keys) {k} asked =
      let (m, gives, held) = load-Holds h key keys in
      (m, gives, held k ∙ unfold ℕ_discrete in ground (arith, count_pos dec k (key ∷ keys) asked))
