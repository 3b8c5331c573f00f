-- ===== src/Base/Maps.antt =====
-- The standard library's Result and HashMap. A map is an association list: of the entries under one
-- key the first counts, and the order of the others is not observed.
use mathlib.Core.Path.{◌≡◌, refl}
use mathlib.Core.Logic.{ite, ◌⊎◌, inl, inr}
use mathlib.Core.Option.{Option, none, some}
use mathlib.Core.List.{List, [], ◌∷◌}

pub data Result (A E : Type 0) : Type 0 where
  ok : A → Result A E
  err : E → Result A E

pub Result-cases :
    {A E : Type 0} (x : Result A E) → ((a : A) × (x ≡ ok a)) ⊎ ((e : E) × (x ≡ err e))
Result-cases (ok a) = inl (a, refl)
Result-cases (err e) = inr (e, refl)

-- `Result::map_err`.
abbrev pub map_err : {A E F : Type 0} → (E → F) → Result A E → Result A F
map_err f (ok a) = ok a
map_err f (err e) = err (f e)

abbrev pub HashMap : Type 0 → Type 0 → Type 0
HashMap K V = List (K × V)

module _ {K V : Type 0} (dec : Discrete K) where
  unfoldable pub get : HashMap K V → K → Option V
  get [] k = none
  get ((j, v) ∷ m) k = ite (dec j k) (some v) (get m k)

  -- `extend`: the pairs are inserted in order, so a later one replaces an earlier one.
  unfoldable pub extend : HashMap K V → List (K × V) → HashMap K V
  extend m [] = m
  extend m (e ∷ es) = extend (e ∷ m) es
