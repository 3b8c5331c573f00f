-- ===== src/Base/Actions.antt =====
-- Closures that change a state and may return early with an error: what they have changed stays.
use channel_loader_rs.Base.Maps.{Result, ok, err, map_err}

abbrev pub Action : Type 0 → Type 0 → Type 0 → Type 0
Action S E A = S → Result A E × S

module _ {S E A B : Type 0} where
  abbrev pub continue : Result A E → (A → Action S E B) → Action S E B
  continue (ok a) f s = f a s
  continue (err e) f s = (err e, s)

  infixl 5 ◌>>=◌
  abbrev pub ◌>>=◌ : Action S E A → (A → Action S E B) → Action S E B
  m >>= f = λ s. let (r, s') = m s in continue r f s'

module _ {S E A : Type 0} where
  abbrev pub pure : A → Action S E A
  pure a s = (ok a, s)

abbrev pub modify : {S E : Type 0} → (S → S) → Action S E (Unit {0})
modify f s = (ok tt, f s)

infixl 5 ◌>>◌
abbrev pub ◌>>◌ : {S E B : Type 0} → Action S E (Unit {0}) → Action S E B → Action S E B
m >> n = m >>= λ _. n

-- `?` with the conversion of the error.
abbrev pub converted : {S E F A : Type 0} → (E → F) → Action S E A → Action S F A
converted into m s = let (r, s') = m s in (map_err into r, s')
