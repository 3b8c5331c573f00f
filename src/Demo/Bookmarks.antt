-- ===== src/Demo/Bookmarks.antt =====
-- `BookmarkLoader::load`: which bookmarks each key is given.
use channel_loader_rs.Base.{
  ◌≤◌, ◌≡◌, refl, ite, List, [], ◌∷◌, map, some, ok, HashMap, get, extend, count, Memᴰ, zip,
  get-zip,
}
use channel_loader_rs.Demo.{Bookmark, Database, load_bookmarks}

module _ {UserId Content : Type 0} (dec : Discrete UserId) where
  -- The bookmarks of one user, in the order of the rows.
  unfoldable pub bookmarks_of :
      List (Bookmark UserId Content) → UserId → List (Bookmark UserId Content)
  bookmarks_of [] k = []
  bookmarks_of (row ∷ rows) k =
      let rest = bookmarks_of rows k in ite (dec row.user_id k) (row ∷ rest) rest

module _ {UserId Name Content : Type 0} (dec : Discrete UserId) where
  -- diesel's `grouped_by` gives for each of several distinct parents its children.
  pub record GroupsBy (db : Database UserId Name Content) : Type 0 where
    pub grouped_by_lem :
        (rows : List (Bookmark UserId Content)) (keys : List UserId)
        → ((k : UserId) → count dec k keys ≤ 1)
        → db.grouped_by rows keys ≡ map (bookmarks_of dec rows) keys

  -- If diesel's grouping gives each of several distinct keys its rows, the bookmark loader gives
  -- each key of a batch of distinct keys all bookmarks of that user among the rows of the
  -- database and no others, in the order of the rows; a user without bookmarks gets an empty
  -- list.
  pub load_bookmarks-get :
      (db : Database UserId Name Content)
      → GroupsBy db
      → (keys : List UserId) {rows : List (Bookmark UserId Content)}
      → db.bookmarks_belonging_to keys ≡ ok rows
      → ((k : UserId) → count dec k keys ≤ 1)
      → (k : UserId) → Memᴰ k keys
      → (m : HashMap UserId (List (Bookmark UserId Content))) × (load_bookmarks dec db keys ≡ ok m)
        × (get dec m k ≡ some (bookmarks_of dec rows k))
  unfolding load_bookmarks
  load_bookmarks-get db groups keys {rows} gives distinct k asked = (
    extend dec [] (zip keys (map (bookmarks_of dec rows) keys)),
    rw (gives, groups.grouped_by_lem rows keys distinct, load_bookmarks) refl,
    get-zip dec (bookmarks_of dec rows) keys k asked,
  )
