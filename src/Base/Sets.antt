-- ===== src/Base/Sets.antt =====
-- The standard library's HashSet, as a list with no repetitions whose order is not observed.
use Prim.Native.Nat.{min, ◌≤◌}
use mathlib.Core.Path.{◌≡◌, refl}
use mathlib.Core.Logic.{ite}
use mathlib.Core.List.{List, [], ◌∷◌, Memᴰ}
use native.Mathlib.Decide.{ℕ_discrete}
use native.Mathlib.Omega.{arith}
use channel_loader_rs.Base.Lists.{count, length, count_pos, count-le-length}

module _ {A : Type 0} (dec : Discrete A) where
  unfoldable pub hash_set : List A → List A
  unfolding count ℕ_discrete
  hash_set [] = []
  hash_set (x ∷ xs) =
      let rest = hash_set xs in ite (ℕ_discrete (count dec x rest) 0) (x ∷ rest) rest

  -- Each element that occurs is held once.
  pub count-hash_set : (a : A) (xs : List A) → count dec a (hash_set xs) ≡ min 1 (count dec a xs)
  unfolding hash_set count
  count-hash_set a [] = refl
  count-hash_set a (x ∷ xs) = elim (dec x a) [
    | yes e ↦ ground (arith, count-hash_set a xs)
    | no ne ↦ ground (arith, count-hash_set a xs)
  ]

  pub length-hash_set-le : (xs : List A) → length (hash_set xs) ≤ length xs
  unfolding hash_set ℕ_discrete
  length-hash_set-le [] = omega arith
  length-hash_set-le (x ∷ xs) = let rest = length-hash_set-le xs in ground arith

  pub length-hash_set_pos : (x : A) (xs : List A) → 1 ≤ length (hash_set (x ∷ xs))
  length-hash_set_pos x xs = omega (
    arith,
    count-le-length dec x (hash_set (x ∷ xs)),
    count-hash_set x (x ∷ xs),
    count_pos dec x (x ∷ xs) (Memᴰ.head refl),
  )
