-- ===== src/Demo/Mutations.antt =====
-- crates/async-graphql-demo/src/schema/mutation_root.rs: the mutations, each with what it makes of the tables.
pub mod Ways
pub mod Create
pub mod Bookmarks
pub mod Inserts
use Prim.Native.String.{String}
use channel_loader_rs.Base.{
  Result, ok, err, map_err, Action, ◌>>=◌, ◌>>◌, continue, pure, modify, converted,
}
use channel_loader_rs.Diesel.Error.{SimpleDieselError, from_query_error, code}
use channel_loader_rs.Demo.{User, Bookmark}
use channel_loader_rs.Demo.Tables.{Content, Postgres}

pub record DeletionReceipt (ContentId : Type 0) : Type 0 where
  pub id : ContentId

-- The outcome of `get_connection`, and the conversion of its error.
module _ {UserId ContentId Name Title Connection NoConnection : Type 0}
    (db : Postgres UserId ContentId Name Title Connection) (into : NoConnection → SimpleDieselError)
    (get_connection : Result Connection NoConnection) where
  -- `let mut conn = get_connection()?`
  abbrev pub connected : Action db.State SimpleDieselError Connection
  connected s = (map_err into get_connection, s)

  -- A GraphQL error is known by its code: what `map_err(|err| err.extend())` gives.
  abbrev pub extended :
      {A : Type 0} → Action db.State SimpleDieselError A → Action db.State String A
  extended = converted code

  unfoldable pub create_user : Name → Action db.State String (User UserId Name)
  create_user name =
      extended (do conn ← connected; converted from_query_error (db.insert_user conn name))

  unfoldable pub create_content : Title → Action db.State String (Content ContentId Title)
  create_content title =
      extended (do conn ← connected; converted from_query_error (db.insert_content conn title))

  -- The two statements are no transaction: `others` is what other sessions do between them.
  unfoldable pub create_bookmark :
      (db.State → db.State)
      → UserId
      → ContentId
      → Action db.State String (Bookmark UserId (Content ContentId Title))
  create_bookmark others u c = extended (do
    conn ← connected
    _ ← converted from_query_error (db.insert_bookmark_or_nothing conn u c)
    modify others
    converted from_query_error (db.select_bookmark conn u c))

  unfoldable pub delete_bookmark :
      UserId → ContentId → Action db.State String (DeletionReceipt ContentId)
  delete_bookmark u c = extended (do
    conn ← connected
    id ← converted from_query_error (db.delete_bookmark conn u c)
    pure (record { id = id }))
