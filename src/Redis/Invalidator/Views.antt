-- ===== src/Redis/Invalidator/Views.antt =====
-- What one observer of the invalidator gets to see, and how far the observers have been told.
use channel_loader_rs.Base.{
  ℕ, suc, ◌≤◌, ◌<◌, ◌≡◌, refl, ◌≢◌, ◌∙◌, ap, List, [], ◌∷◌, ◌++◌, Option, none, some, Bool, true,
  false, ite, if_pos, if_neg, ℕ_discrete, arith,
}
use mathlib.Core.List.{append-nil}
use channel_loader_rs.Redis.Invalidator.{Call, invalidate_cache, invalidate_keys}

module _ {Key : Type 0} where
  -- The calls that one observer gets: none stands for `invalidate_cache`.
  unfoldable pub view : ℕ → List (Call Key) → List (Option (List Key))
  unfolding ℕ_discrete
  view o [] = []
  view o (invalidate_cache i ∷ cs) = ite (ℕ_discrete i o) (none ∷ view o cs) (view o cs)
  view o (invalidate_keys i keys ∷ cs) = ite (ℕ_discrete i o) (some keys ∷ view o cs) (view o cs)

  -- Keys are invalidated in a cache that was invalidated before.
  unfoldable pub opens : List (Option (List Key)) → Bool
  opens [] = true
  opens (none ∷ V) = true
  opens (some keys ∷ V) = false

  view-append : (o : ℕ) (xs ys : List (Call Key)) → view o (xs ++ ys) ≡ view o xs ++ view o ys
  unfolding view ℕ_discrete
  view-append o [] ys = refl
  view-append o (invalidate_cache i ∷ cs) ys = let rest = view-append o cs ys in ground arith
  view-append o (invalidate_keys i keys ∷ cs) ys = let rest = view-append o cs ys in ground arith

  pub opens-append :
      (V W : List (Option (List Key)))
      → opens V ≡ true
      → V ≢ []
      → (opens (V ++ W) ≡ true) × (V ++ W ≢ [])
  unfolding opens
  opens-append [] W o ne = absurd (ne refl)
  opens-append (none ∷ V) W o ne = (refl, cc)
  opens-append (some keys ∷ V) W o ne = absurd (cc)

  pub opens-cache :
      (V : List (Option (List Key)))
      → opens V ≡ true
      → (opens (V ++ none ∷ []) ≡ true) × (V ++ none ∷ [] ≢ [])
  unfolding opens
  opens-cache [] o = (refl, cc)
  opens-cache (none ∷ V) o = (refl, cc)
  opens-cache (some keys ∷ V) o = absurd (cc)

  -- The call that an observer gets to see so.
  unfoldable pub call : ℕ → Option (List Key) → Call Key
  call i none = invalidate_cache i
  call i (some keys) = invalidate_keys i keys

  view-told :
      (x : Option (List Key)) (i o : ℕ) (calls : List (Call Key))
      → i ≡ o
      → view o (calls ++ call i x ∷ []) ≡ view o calls ++ x ∷ []
  unfolding view call
  view-told none i o calls here =
      view-append o calls (call i none ∷ [])
      ∙ ap (λ x. view o calls ++ x) (if_pos (ℕ_discrete i o) here (none ∷ []) [])
  view-told (some keys) i o calls here =
      view-append o calls (call i (some keys) ∷ [])
      ∙ ap (λ x. view o calls ++ x) (if_pos (ℕ_discrete i o) here (some keys ∷ []) [])

  view-not_told :
      (x : Option (List Key)) (i o : ℕ) (calls : List (Call Key))
      → i ≢ o
      → view o (calls ++ call i x ∷ []) ≡ view o calls
  unfolding view call
  view-not_told none i o calls other =
      view-append o calls (call i none ∷ [])
      ∙ ap (λ x. view o calls ++ x) (if_neg (ℕ_discrete i o) other (none ∷ []) [])
      ∙ append-nil (view o calls)
  view-not_told (some keys) i o calls other =
      view-append o calls (call i (some keys) ∷ [])
      ∙ ap (λ x. view o calls ++ x) (if_neg (ℕ_discrete i o) other (some keys ∷ []) [])
      ∙ append-nil (view o calls)

  -- All observers have been told `V`.
  abbrev pub All : ℕ → List (Call Key) → List (Option (List Key)) → Type 0
  All observers calls V = (o : ℕ) → o < observers → view o calls ≡ V

  -- The first `told` observers have been told `V` and then `x`, and the others `V`.
  abbrev pub Partly :
      ℕ → ℕ → List (Call Key) → List (Option (List Key)) → Option (List Key) → Type 0
  Partly observers told calls V x =
      ((o : ℕ) → o < told → o < observers → view o calls ≡ V ++ x ∷ [])
      × ((o : ℕ) → told ≤ o → o < observers → view o calls ≡ V)

  pub none-Partly :
      (observers : ℕ) (calls : List (Call Key)) (V : List (Option (List Key)))
      (x : Option (List Key))
      → All observers calls V
      → Partly observers 0 calls V x
  none-Partly observers calls V x all =
      (λ o small some_observer. absurd (omega arith), λ o low high. all o high)

  pub call-Partly :
      (observers told : ℕ) (calls : List (Call Key)) (V : List (Option (List Key)))
      (x : Option (List Key))
      → Partly observers told calls V x
      → Partly observers (suc told) (calls ++ call told x ∷ []) V x
  call-Partly observers told calls V x (done, rest) = (
    λ o small high. elim (ℕ_discrete told o) [
      | yes here ↦
          view-told x told o calls here ∙ ap (λ W. W ++ x ∷ []) (rest o (omega (arith, here)) high)
      | no other ↦ view-not_told x told o calls other ∙ done o (omega (arith, small, other)) high
    ],
    λ o low high.
        view-not_told x told o calls (λ e. absurd (omega (arith, low, e)))
        ∙ rest o (omega (arith, low)) high,
  )

  pub Partly-All :
      (observers told : ℕ) (calls : List (Call Key)) (V : List (Option (List Key)))
      (x : Option (List Key))
      → told ≡ observers
      → Partly observers told calls V x
      → All observers calls (V ++ x ∷ [])
  Partly-All observers told calls V x all (done, rest) o high =
      done o (omega (arith, high, all)) high
