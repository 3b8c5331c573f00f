-- ===== src/Demo/Tables.antt =====
-- The tables of src/migrations, and the statements of the demo on them. What postgres and diesel make of a
-- statement is a parameter with laws: what the tables hold afterwards, and when there is no row.
use channel_loader_rs.Base.{
  arith, ℕ, ◌≡◌, ◌≢◌, refl, ◌⊎◌, ite, Bool, true, false, Option, none, some, Result, ok, err,
  if_pos, ap, ◌∙◌, sym,
}
use channel_loader_rs.External.Diesel.{QueryError}
use channel_loader_rs.Demo.{User, Bookmark}
use mathlib.Core.Path.{fun_ext}

pub record Content (ContentId Title : Type 0) : Type 0 where
  pub id : ContentId
  pub title : Title

-- What the three tables hold.
pub record Rows (UserId ContentId Name Title : Type 0) : Type 0 where
  pub name_of : UserId → Option Name
  pub title_of : ContentId → Option Title
  pub bookmarked : UserId → ContentId → Bool

module _ {K V : Type 0} (dec : Discrete K) where
  -- The function `f`, but for its value at `k`.
  abbrev pub updated : K → V → (K → V) → K → V
  updated k v f j = ite (dec j k) v (f j)

  updated_same : (k : K) (v : V) (f : K → V) → updated k v f k ≡ v
  updated_same k v f = if_pos (dec k k) refl v (f k)

  updated_twice : (k : K) (v w : V) (f : K → V) → updated k v (updated k w f) ≡ updated k v f
  updated_twice k v w f = fun_ext λ j. ground arith

  -- To give `k` the value it has changes nothing.
  updated_id : (k : K) (v : V) (f : K → V) → f k ≡ v → updated k v f ≡ f
  updated_id k v f e = fun_ext λ j. ground arith

module _ {UserId ContentId Name Title : Type 0} (users : Discrete UserId)
    (contents : Discrete ContentId) where
  -- The pair of `u` and `c` is put into `users_content`, or taken out of it.
  abbrev pub set_bookmark :
      Bool
      → UserId
      → ContentId
      → Rows UserId ContentId Name Title
      → Rows UserId ContentId Name Title
  set_bookmark b u c v = record v {
    bookmarked = updated users u (updated contents c b (v.bookmarked u)) v.bookmarked;
  }

  pub bookmarked-set_bookmark :
      (b : Bool) (u : UserId) (c : ContentId) (v : Rows UserId ContentId Name Title)
      → (set_bookmark b u c v).bookmarked u c ≡ b
  bookmarked-set_bookmark b u c v =
      ap (λ f. f c) (updated_same users u (updated contents c b (v.bookmarked u)) v.bookmarked)
      ∙ updated_same contents c b (v.bookmarked u)

  pub set_bookmark_id :
      (b : Bool) (u : UserId) (c : ContentId) (v : Rows UserId ContentId Name Title)
      → v.bookmarked u c ≡ b
      → set_bookmark b u c v ≡ v
  set_bookmark_id b u c v e =
      let same = updated_id contents c b (v.bookmarked u) e in
      ap (λ f. record v { bookmarked = f }) (updated_id users u _ v.bookmarked (sym same))

  pub set_bookmark_twice :
      (a b : Bool) (u : UserId) (c : ContentId) (v : Rows UserId ContentId Name Title)
      → set_bookmark a u c (set_bookmark b u c v) ≡ set_bookmark a u c v
  set_bookmark_twice a b u c v =
      let row = v.bookmarked u in
      let inner =
        ap (updated contents c a) (updated_same users u (updated contents c b row) v.bookmarked)
        ∙ updated_twice contents c a b row in
      ap (λ f. record v { bookmarked = f })
        (ap (λ x. updated users u x (updated users u (updated contents c b row) v.bookmarked)) inner
          ∙ updated_twice users u (updated contents c a row) (updated contents c b row)
              v.bookmarked)

-- The statements of the demo. Each may fail, and a failed statement may still have been asked, so
-- all give the state afterwards.
pub record Postgres (UserId ContentId Name Title Connection : Type 0) : Type 1 where
  pub State : Type 0
  pub insert_user : Connection → Name → State → Result (User UserId Name) QueryError × State
  pub insert_content :
      Connection → Title → State → Result (Content ContentId Title) QueryError × State
  pub insert_bookmark_or_nothing :
      Connection → UserId → ContentId → State → Result ℕ QueryError × State
  pub select_bookmark :
      Connection
      → UserId
      → ContentId
      → State
      → Result (Bookmark UserId (Content ContentId Title)) QueryError × State
  pub delete_bookmark :
      Connection → UserId → ContentId → State → Result ContentId QueryError × State

module _ {UserId ContentId Name Title Connection : Type 0} (users : Discrete UserId)
    (contents : Discrete ContentId) where
  -- Each statement is atomic: a failed one changes no row. `users_content` refers to the other two
  -- tables.
  pub record IsLawful (db : Postgres UserId ContentId Name Title Connection)
      (rows : db.State → Rows UserId ContentId Name Title) : Type 0 where
    pub insert_user-ok :
        (conn : Connection) (name : Name) (s : db.State) {user : User UserId Name}
        → (db.insert_user conn name s).0 ≡ ok user
        → (user.name ≡ name)
          × ((rows s).name_of user.id ≡ none)
          × (rows (db.insert_user conn name s).1
              ≡ record (rows s) { name_of = updated users user.id (some name) (rows s).name_of })
    pub insert_user-err :
        (conn : Connection) (name : Name) (s : db.State) {e : QueryError}
        → (db.insert_user conn name s).0 ≡ err e
        → rows (db.insert_user conn name s).1 ≡ rows s
    pub insert_content-ok :
        (conn : Connection) (title : Title) (s : db.State) {content : Content ContentId Title}
        → (db.insert_content conn title s).0 ≡ ok content
        → (content.title ≡ title)
          × ((rows s).title_of content.id ≡ none)
          × (rows (db.insert_content conn title s).1 ≡ record (rows s) {
            title_of = updated contents content.id (some title) (rows s).title_of;
          })
    pub insert_content-err :
        (conn : Connection) (title : Title) (s : db.State) {e : QueryError}
        → (db.insert_content conn title s).0 ≡ err e
        → rows (db.insert_content conn title s).1 ≡ rows s
    pub insert_bookmark-ok :
        (conn : Connection) (u : UserId) (c : ContentId) (s : db.State) {n : ℕ}
        → (db.insert_bookmark_or_nothing conn u c s).0 ≡ ok n
        → rows (db.insert_bookmark_or_nothing conn u c s).1
          ≡ set_bookmark users contents true u c (rows s)
    pub insert_bookmark-err :
        (conn : Connection) (u : UserId) (c : ContentId) (s : db.State) {e : QueryError}
        → (db.insert_bookmark_or_nothing conn u c s).0 ≡ err e
        → rows (db.insert_bookmark_or_nothing conn u c s).1 ≡ rows s
    pub select_bookmark-reads :
        (conn : Connection) (u : UserId) (c : ContentId) (s : db.State)
        → rows (db.select_bookmark conn u c s).1 ≡ rows s
    pub select_bookmark-ok :
        (conn : Connection) (u : UserId) (c : ContentId) (s : db.State)
        {b : Bookmark UserId (Content ContentId Title)}
        → (db.select_bookmark conn u c s).0 ≡ ok b
        → ((rows s).bookmarked u c ≡ true)
          × (b.user_id ≡ u)
          × (b.content.id ≡ c)
          × ((rows s).title_of c ≡ some b.content.title)
    pub delete_bookmark-ok :
        (conn : Connection) (u : UserId) (c : ContentId) (s : db.State) {id : ContentId}
        → (db.delete_bookmark conn u c s).0 ≡ ok id
        → ((rows s).bookmarked u c ≡ true)
          × (id ≡ c)
          × (rows (db.delete_bookmark conn u c s).1
              ≡ set_bookmark users contents false u c (rows s))
    pub delete_bookmark-err :
        (conn : Connection) (u : UserId) (c : ContentId) (s : db.State) {e : QueryError}
        → (db.delete_bookmark conn u c s).0 ≡ err e
        → rows (db.delete_bookmark conn u c s).1 ≡ rows s
    -- Without a row to give, and only then, `get_result` fails with NotFound.
    pub delete_bookmark-not_found :
        (conn : Connection) (u : UserId) (c : ContentId) (s : db.State)
        → (db.delete_bookmark conn u c s).0 ≡ err QueryError.not_found
        → (rows s).bookmarked u c ≡ false
    pub select_bookmark-not_found :
        (conn : Connection) (u : UserId) (c : ContentId) (s : db.State)
        → (db.select_bookmark conn u c s).0 ≡ err QueryError.not_found
        → ((rows s).bookmarked u c ≡ false) ⊎ ((rows s).title_of c ≡ none)
    -- `execute` needs no row.
    pub insert_bookmark-found :
        (conn : Connection) (u : UserId) (c : ContentId) (s : db.State)
        → (db.insert_bookmark_or_nothing conn u c s).0 ≢ err QueryError.not_found
    -- The foreign keys of `users_content`.
    pub bookmarked-title_of :
        (s : db.State) (u : UserId) (c : ContentId)
        → (rows s).bookmarked u c ≡ true
        → (title : Title) × ((rows s).title_of c ≡ some title)
    pub bookmarked-name_of :
        (s : db.State) (u : UserId) (c : ContentId)
        → (rows s).bookmarked u c ≡ true
        → (name : Name) × ((rows s).name_of u ≡ some name)
