-- ===== src/Base/Pairs.antt =====
-- `Iterator::zip`, and the map of keys that are each paired with the value at their position.
use mathlib.Core.Path.{◌≡◌, refl, ◌∙◌, ap}
use mathlib.Core.Logic.{ite}
use mathlib.Core.Option.{some}
use mathlib.Core.List.{List, [], ◌∷◌, map, Memᴰ}
use native.Mathlib.Decide.{ℕ_discrete}
use native.Mathlib.Omega.{arith}
use channel_loader_rs.Base.Lists.{count, count_pos}
use channel_loader_rs.Base.Maps.{HashMap, get, extend}

unfoldable pub zip : {A B : Type 0} → List A → List B → List (A × B)
zip [] ys = []
zip (x ∷ xs) [] = []
zip (x ∷ xs) (y ∷ ys) = (x, y) ∷ zip xs ys

module _ {K V : Type 0} (dec : Discrete K) (f : K → V) where
  get-extend-zip :
      (keys : List K) (m : HashMap K V) (k : K)
      → get dec (extend dec m (zip keys (map f keys))) k
        ≡ ite (ℕ_discrete (count dec k keys) 0) (get dec m k) (some (f k))
  unfolding extend zip get count ℕ_discrete
  get-extend-zip [] m k = refl
  get-extend-zip (key ∷ keys) m k =
      rw (get-extend-zip keys ((key, f key) ∷ m) k) (elim (dec key k) [
        | yes same ↦ let there : f key ≡ f k = ap f same in ground arith
        | no other ↦ ground arith
      ])

  -- Where the results are those of the keys in the order of the keys, each key has its own.
  pub get-zip :
      (keys : List K) (k : K)
      → Memᴰ k keys
      → get dec (extend dec [] (zip keys (map f keys))) k ≡ some (f k)
  get-zip keys k asked =
      get-extend-zip keys [] k ∙ unfold get ℕ_discrete in ground (arith, count_pos dec k keys asked)
