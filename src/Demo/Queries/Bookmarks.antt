-- ===== src/Demo/Queries/Bookmarks.antt =====
-- The bookmarks of a user, from the field to the rows of the database.
use channel_loader_rs.Base.{◌≡◌, refl, ap, ◌∙◌, List, Option, Result, ok, arith, get, HashMap, Memᴰ}
use channel_loader_rs.External.{Order, Channel}
use channel_loader_rs.Request.{Runtime, Request, Keyed, LoadState, waiting, got, key}
use channel_loader_rs.Task.{LoadBatch, keys}
use channel_loader_rs.Task.Keys.{count-keys, key-mem-keys}
use channel_loader_rs.Diesel.Error.{SimpleDieselError}
use channel_loader_rs.Diesel.Loader.{DieselLoader, diesel_runtime}
use channel_loader_rs.Diesel.Answer.{diesel_reply}
use channel_loader_rs.Demo.{Bookmark, Database, load_bookmarks}
use channel_loader_rs.Demo.Bookmarks.{bookmarks_of, GroupsBy, load_bookmarks-get}
use channel_loader_rs.Demo.Queries.{listed, user_bookmarks, bookmarks}

module _ {UserId Name Content Connection NoConnection : Type 0}
    (oneshot : Channel {Start = Unit {0}}
      {Msg = Result (Option (List (Bookmark UserId Content))) SimpleDieselError}
      (λ _. waiting)
      got)
    (watch : Channel {Start = LoadState (List (Bookmark UserId Content)) SimpleDieselError}
      {Msg = LoadState (List (Bookmark UserId Content)) SimpleDieselError}
      (λ state. state)
      (λ state. state))
    (dec : Discrete UserId) (into : NoConnection → SimpleDieselError)
    (get_connection : Result Connection NoConnection)
    (db : Connection → Database UserId Name Content) where
  -- The types of `BookmarkLoader`, and the loader at the time of its load.
  abbrev pub bookmark_types : Keyed SimpleDieselError
  bookmark_types = record {
    Key = UserId;
    Value = List (Bookmark UserId Content);
    Cache = Unit {0};
    Key-discrete = dec;
    oneshot = oneshot;
    watch = watch;
  }

  abbrev pub bookmark_runtime : Runtime
  bookmark_runtime = diesel_runtime bookmark_types Connection NoConnection

  abbrev pub bookmark_loader : Order UserId → DieselLoader bookmark_types Connection NoConnection
  bookmark_loader order = record {
    into = into;
    get_connection = get_connection;
    load = λ conn. load_bookmarks dec (db conn);
    order = order;
  }

  diesel_reply-load_bookmarks :
      (order : Order UserId) (ks : List UserId) (k : UserId) (conn : Connection)
      {m : HashMap UserId (List (Bookmark UserId Content))}
      → get_connection ≡ ok conn
      → load_bookmarks dec (db conn) ks ≡ ok m
      → diesel_reply bookmark_types Connection NoConnection (bookmark_loader order) ks k
        ≡ ok (get dec m k)
  unfolding diesel_reply
  diesel_reply-load_bookmarks order ks k conn up loaded =
      rw (up, diesel_reply) (rw (loaded, diesel_reply) refl)

  -- If there is a connection, the query gives rows and diesel's grouping gives each of several
  -- distinct keys its rows, then for every request of a batch of `BookmarkLoader`, in any order
  -- of its set of keys, `user_bookmarks` and `User::bookmarks` make of the outcome all rows of
  -- that user and no others, in the order of the rows, which is an empty list for a user without
  -- bookmarks.
  pub user_bookmarks-diesel_reply :
      (order : Order UserId) (batch : LoadBatch bookmark_runtime) (req : Request bookmark_runtime)
      (conn : Connection) (name : Name) {rows : List (Bookmark UserId Content)}
      → GroupsBy dec (db conn)
      → get_connection ≡ ok conn
      → (db conn).bookmarks_belonging_to (keys bookmark_runtime order batch) ≡ ok rows
      → Memᴰ req batch.requests
      → let k = key bookmark_runtime req in
        let awaited =
          diesel_reply bookmark_types Connection NoConnection
            (bookmark_loader order)
            (keys bookmark_runtime order batch) in
        (user_bookmarks awaited k ≡ ok (bookmarks_of dec rows k))
        × (bookmarks awaited (record { id = k; name = name }) ≡ ok (bookmarks_of dec rows k))
  unfolding user_bookmarks bookmarks
  user_bookmarks-diesel_reply order batch req conn name {rows} groups up gives m =
      let k = key bookmark_runtime req in
      let ks = keys bookmark_runtime order batch in
      let (values, loaded, found) =
        load_bookmarks-get dec (db conn) groups ks gives
          (λ j. omega (arith, count-keys bookmark_runtime order batch j)) k
          (key-mem-keys bookmark_runtime order batch req m) in
      let replied = diesel_reply-load_bookmarks order ks k conn up loaded ∙ ap ok found in
      (ap listed replied, ap listed replied)
