-- ===== src/Demo/Users.antt =====
-- `UserLoader::load`: which user each key is given.
use channel_loader_rs.Base.{
  ◌≡◌, refl, ◌≢◌, List, [], ◌∷◌, map, none, some, ok, HashMap, get, extend, Memᴰ, arith, zip,
  get-zip,
}
use channel_loader_rs.Demo.{User, Database, load_user}

module _ {UserId Name Content : Type 0} (dec : Discrete UserId)
    (db : Database UserId Name Content) where
  -- If the database gives a row for every key, in the order of the keys, the user loader gives
  -- each key its row.
  load_user-get :
      (keys : List UserId) (user : UserId → User UserId Name)
      → db.users_belonging_to keys ≡ ok (map user keys)
      → (k : UserId) → Memᴰ k keys
      → (m : HashMap UserId (User UserId Name)) × (load_user dec db keys ≡ ok m)
        × (get dec m k ≡ some (user k))
  unfolding load_user
  load_user-get keys user rows k asked = (
    extend dec [] (zip keys (map user keys)),
    rw (rows, load_user) refl,
    get-zip dec user keys k asked,
  )

  -- If the database answers the keys of two different users with the row of the second only, the
  -- user loader gives the first key the second key's user, and the second key nothing.
  pub load_user_misplaced :
      (a b : UserId) (user : User UserId Name)
      → a ≢ b
      → user.id ≡ b
      → db.users_belonging_to (a ∷ b ∷ []) ≡ ok (user ∷ [])
      → (m : HashMap UserId (User UserId Name)) × (load_user dec db (a ∷ b ∷ []) ≡ ok m)
        × (get dec m a ≡ some user)
        × (get dec m b ≡ none)
  unfolding load_user extend zip get
  load_user_misplaced a b user ne its rows =
      ((a, user) ∷ [], rw (rows, load_user) refl, ground arith, ground arith)
