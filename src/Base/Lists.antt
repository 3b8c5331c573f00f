-- ===== src/Base/Lists.antt =====
-- Lists measured and counted by native numbers, and predicates on lists.
use Prim.Native.Nat.{ℕ, zero, suc, ◌+◌, ◌≤◌}
use mathlib.Core.Path.{◌≡◌, refl, sym, ◌∙◌}
use mathlib.Core.Logic.{ite, ◌⊎◌, inl, inr}
use mathlib.Core.Bool.{Bool, true, false}
use mathlib.Core.Option.{Option, none, some}
use mathlib.Core.List.{List, [], ◌∷◌, ◌++◌, Memᴰ, Permᴰ, append_assoc}
use mathlib.Core.List.Permᴰ
use native.Mathlib.Omega.{arith}

infix 1 if◌then◌else◌
abbrev pub if◌then◌else◌ {ℓ} : {A : Type ℓ} → Bool → A → A → A
if true then x else y = x
if false then x else y = y

pub Bool-cases : (b : Bool) → (b ≡ true) ⊎ (b ≡ false)
Bool-cases true = inl refl
Bool-cases false = inr refl

pub Nat-cases : (n : ℕ) → (n ≡ 0) ⊎ (1 ≤ n)
Nat-cases zero = inl refl
Nat-cases (suc n) = inr (omega arith)

pub Option-cases {ℓ} : {A : Type ℓ} (o : Option A) → (o ≡ none) ⊎ ((a : A) × (o ≡ some a))
Option-cases none = inl refl
Option-cases (some a) = inr (a, refl)

pub some_injective {ℓ} : {A : Type ℓ} {x y : A} → some x ≡ some y → x ≡ y
some_injective h = cc

pub pull_front {ℓ} : {A : Type ℓ} (xs ys zs : List A) → Permᴰ (xs ++ (ys ++ zs)) (ys ++ (xs ++ zs))
pull_front xs ys zs =
    rw (← append_assoc xs ys zs, ← append_assoc ys xs zs)
      (Permᴰ.append_right zs (Permᴰ.append_comm xs ys))

pub single_split {ℓ} :
    {A : Type ℓ} {x y : A} (before after : List A)
    → x ∷ [] ≡ before ++ y ∷ after
    → (before ≡ []) × (after ≡ []) × (x ≡ y)
single_split [] after e = ground arith
single_split (b ∷ []) after e = absurd (cc)
single_split (b ∷ c ∷ before) after e = absurd (cc)

pub nil_split {ℓ} : {A : Type ℓ} (y : A) (before after : List A) → ¬ ([] ≡ before ++ y ∷ after)
nil_split y [] after e = cc
nil_split y (b ∷ before) after e = cc

module _ {ℓ} {A : Type ℓ} where
  abbrev pub length : List A → ℕ
  length [] = 0
  length (x ∷ xs) = suc (length xs)

  pub length-append : (xs ys : List A) → length (xs ++ ys) ≡ length xs + length ys
  length-append [] ys = omega arith
  length-append (x ∷ xs) ys = omega (arith, length-append xs ys)

  pub length-perm : {xs ys : List A} → Permᴰ xs ys → length xs ≡ length ys
  length-perm Permᴰ.nil = refl
  length-perm (Permᴰ.cons e p) = omega (arith, length-perm p)
  length-perm (Permᴰ.swap e f) = refl
  length-perm (Permᴰ.trans p q) = length-perm p ∙ length-perm q

  -- The occurrences of `a`.
  unfoldable pub count : Discrete A → A → List A → ℕ
  count dec a [] = 0
  count dec a (x ∷ xs) = ite (dec x a) 1 0 + count dec a xs

  pub count-append :
      (dec : Discrete A) (a : A) (xs ys : List A)
      → count dec a (xs ++ ys) ≡ count dec a xs + count dec a ys
  unfolding count
  count-append dec a [] ys = omega arith
  count-append dec a (x ∷ xs) ys = omega (arith, count-append dec a xs ys)

  pub count-perm :
      (dec : Discrete A) (a : A) {xs ys : List A} → Permᴰ xs ys → count dec a xs ≡ count dec a ys
  unfolding count
  count-perm dec a Permᴰ.nil = refl
  count-perm dec a (Permᴰ.cons {b = b} e p) = rw (e, count-perm dec a p)
  count-perm dec a (Permᴰ.swap e f) = rw (e, f) (omega arith)
  count-perm dec a (Permᴰ.trans p q) = count-perm dec a p ∙ count-perm dec a q

  pub perm-Memᴰ : {a : A} {xs ys : List A} → Permᴰ xs ys → Memᴰ a xs → Memᴰ a ys
  perm-Memᴰ Permᴰ.nil m = m
  perm-Memᴰ (Permᴰ.cons e p) (Memᴰ.head f) = Memᴰ.head (f ∙ e)
  perm-Memᴰ (Permᴰ.cons e p) (Memᴰ.tail m) = Memᴰ.tail (perm-Memᴰ p m)
  perm-Memᴰ (Permᴰ.swap e f) (Memᴰ.head g) = Memᴰ.tail (Memᴰ.head (g ∙ e))
  perm-Memᴰ (Permᴰ.swap e f) (Memᴰ.tail (Memᴰ.head g)) = Memᴰ.head (g ∙ f)
  perm-Memᴰ (Permᴰ.swap e f) (Memᴰ.tail (Memᴰ.tail m)) = Memᴰ.tail (Memᴰ.tail m)
  perm-Memᴰ (Permᴰ.trans p q) m = perm-Memᴰ q (perm-Memᴰ p m)

  pub count_pos : (dec : Discrete A) (a : A) (xs : List A) → Memᴰ a xs → 1 ≤ count dec a xs
  unfolding count
  count_pos dec a [] m = elim m [ ]
  count_pos dec a (x ∷ xs) (Memᴰ.head e) = let same : x ≡ a = sym e in ground arith
  count_pos dec a (x ∷ xs) (Memᴰ.tail m) = omega (arith, count_pos dec a xs m)

  pub count-le-length : (dec : Discrete A) (a : A) (xs : List A) → count dec a xs ≤ length xs
  unfolding count
  count-le-length dec a [] = omega arith
  count-le-length dec a (x ∷ xs) = let rest = count-le-length dec a xs in ground arith

  pub mem_of_count : (dec : Discrete A) (a : A) (xs : List A) → 1 ≤ count dec a xs → Memᴰ a xs
  unfolding count
  mem_of_count dec a [] h = absurd (omega arith)
  mem_of_count dec a (x ∷ xs) h = elim (dec x a) [
    | yes e ↦ Memᴰ.head (sym e)
    | no ne ↦ Memᴰ.tail (mem_of_count dec a xs (ground arith))
  ]
