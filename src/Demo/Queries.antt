-- ===== src/Demo/Queries.antt =====
-- The fields that load: `users` and `user_bookmarks` of crates/async-graphql-demo/src/schema/query_root.rs, and
-- `User::bookmarks` of crates/async-graphql-demo/src/data/user.rs. `load_by` is what an awaited call of the loader's
-- `load_by` gives.
pub mod Together
pub mod Bookmarks
use Prim.Native.String.{String}
use channel_loader_rs.Base.{List, [], Option, none, some, Result, ok, err}
use channel_loader_rs.Diesel.Error.{SimpleDieselError, code}
use channel_loader_rs.Demo.{User, Bookmark}

-- `.map_err(|err| err.extend())?.unwrap_or_else(|| Arc::new(vec![]))`
abbrev pub listed :
    {A : Type 0} → Result (Option (List A)) SimpleDieselError → Result (List A) String
listed (ok (some xs)) = ok xs
listed (ok none) = ok []
listed (err e) = err (code e)

unfoldable pub users :
    {UserId Name : Type 0}
    → (Unit {0} → Result (Option (List (User UserId Name))) SimpleDieselError)
    → Result (List (User UserId Name)) String
users load_by = listed (load_by tt)

unfoldable pub user_bookmarks :
    {UserId Content : Type 0}
    → (UserId → Result (Option (List (Bookmark UserId Content))) SimpleDieselError)
    → UserId
    → Result (List (Bookmark UserId Content)) String
user_bookmarks load_by user_id = listed (load_by user_id)

unfoldable pub bookmarks :
    {UserId Name Content : Type 0}
    → (UserId → Result (Option (List (Bookmark UserId Content))) SimpleDieselError)
    → User UserId Name
    → Result (List (Bookmark UserId Content)) String
bookmarks load_by user = listed (load_by user.id)
