-- ===== src/Demo.antt =====
-- crates/async-graphql-demo/src/data/user.rs and bookmark.rs: the loaders of the demo, which pair the keys of a
-- batch with what the database gives for them.
pub mod Users
pub mod Bookmarks
pub mod Tables
pub mod Mutations
pub mod Queries
use channel_loader_rs.Base.{List, [], ◌∷◌, Result, ok, err, HashMap, extend, zip}
use channel_loader_rs.External.Diesel.{QueryError}
use channel_loader_rs.Diesel.Error.{DieselError}

-- The identifiers are only compared. `UserId` is transparent.
pub record User (UserId Name : Type 0) : Type 0 where
  pub id : UserId
  pub name : Name

pub record Bookmark (UserId Content : Type 0) : Type 0 where
  pub user_id : UserId
  pub content : Content

-- The answers of the database to one load, and the method of diesel's `GroupedBy`.
pub record Database (UserId Name Content : Type 0) : Type 0 where
  pub users_belonging_to : List UserId → Result (List (User UserId Name)) QueryError
  pub bookmarks_belonging_to : List UserId → Result (List (Bookmark UserId Content)) QueryError
  pub users_limit_50 : Result (List (User UserId Name)) QueryError
  pub grouped_by :
      List (Bookmark UserId Content) → List UserId → List (List (Bookmark UserId Content))

module _ {UserId Name Content : Type 0} (dec : Discrete UserId)
    (db : Database UserId Name Content) where
  -- `UserLoader::load`
  unfoldable pub load_user : List UserId → Result (HashMap UserId (User UserId Name)) DieselError
  unfolding extend zip
  load_user keys = elim (db.users_belonging_to keys) [
    | ok users ↦ ok (extend dec [] (zip keys users))
    | err e ↦ err (DieselError.query_error e)
  ]

  -- `BookmarkLoader::load`
  unfoldable pub load_bookmarks :
      List UserId → Result (HashMap UserId (List (Bookmark UserId Content))) DieselError
  unfolding extend zip
  load_bookmarks keys = elim (db.bookmarks_belonging_to keys) [
    | ok bookmarks ↦ ok (extend dec [] (zip keys (db.grouped_by bookmarks keys)))
    | err e ↦ err (DieselError.query_error e)
  ]

  -- `UsersLoader::load`, whose only key is the unit.
  unfoldable pub load_users :
      List (Unit {0}) → Result (HashMap (Unit {0}) (List (User UserId Name))) DieselError
  load_users keys = elim db.users_limit_50 [
    | ok users ↦ ok ((tt, users) ∷ [])
    | err e ↦ err (DieselError.query_error e)
  ]
