-- ===== src/Demo/Queries/Together.antt =====
-- The queries of one batch, from the field to the rows of the database.
use Prim.Native.String.{String}
use channel_loader_rs.Base.{
  ◌≡◌, refl, ap, ◌∙◌, List, [], ◌∷◌, Option, none, Result, ok, err, arith, get,
}
use channel_loader_rs.External.{SwapQueue, Order, Channel}
use channel_loader_rs.Request.{Runtime, Reply, Request, Keyed, LoadState, waiting, got}
use channel_loader_rs.Task.{PendingAssignment, keys}
use channel_loader_rs.Loader.{DataLoader}
use channel_loader_rs.Loader.Together.{load_all}
use channel_loader_rs.Handler.Answer.{run_handled, assigned_to}
use channel_loader_rs.Handler.Together.{AllReturn, load_all-one_batch, loaded_for}
use channel_loader_rs.Diesel.Error.{SimpleDieselError, from_query_error, from_diesel_error, code}
use channel_loader_rs.Diesel.Loader.{DieselLoader, diesel_runtime, diesel_handler}
use channel_loader_rs.Diesel.Answer.{diesel_reply, reply_to-results_for}
use channel_loader_rs.Demo.{User, Database, load_users}
use channel_loader_rs.Demo.Queries.{listed, users}

abbrev pub unit_discrete : Discrete (Unit {0})
unit_discrete a b = yes refl

module _ {UserId Name Content Connection NoConnection : Type 0}
    (oneshot : Channel {Start = Unit {0}}
      {Msg = Result (Option (List (User UserId Name))) SimpleDieselError}
      (λ _. waiting)
      got)
    (watch : Channel {Start = LoadState (List (User UserId Name)) SimpleDieselError}
      {Msg = LoadState (List (User UserId Name)) SimpleDieselError}
      (λ state. state)
      (λ state. state))
    (dec : Discrete UserId) (into : NoConnection → SimpleDieselError)
    (get_connection : Result Connection NoConnection)
    (db : Connection → Database UserId Name Content) where
  -- The types of `UsersLoader`, and the loader at the time of its load.
  abbrev pub users_types : Keyed SimpleDieselError
  users_types = record {
    Key = Unit {0};
    Value = List (User UserId Name);
    Cache = Unit {0};
    Key-discrete = unit_discrete;
    oneshot = oneshot;
    watch = watch;
  }

  abbrev pub users_runtime : Runtime
  users_runtime = diesel_runtime users_types Connection NoConnection

  abbrev pub users_loader : Order (Unit {0}) → DieselLoader users_types Connection NoConnection
  users_loader order = record {
    into = into;
    get_connection = get_connection;
    load = λ conn. load_users dec (db conn);
    order = order;
  }

  -- What a client is to get: the rows, or the code of what failed.
  unfoldable pub users_listed : Result (List (User UserId Name)) String
  users_listed = elim get_connection [
    | err e ↦ err (code (into e))
    | ok conn ↦ elim (db conn).users_limit_50 [
      | err e ↦ err (code (from_query_error e))
      | ok rows ↦ ok rows
    ]
  ]

  users-diesel_reply :
      (order : Order (Unit {0})) (ks : List (Unit {0}))
      → users (diesel_reply users_types Connection NoConnection (users_loader order) ks)
        ≡ users_listed
  unfolding users users_listed diesel_reply load_users from_diesel_error get
  users-diesel_reply order ks = ground arith

  module _ (q : SwapQueue (Request users_runtime)) where
    -- When several clients ask for `users` one after the other on a loader with no batch waiting
    -- and no task spawned, one task is spawned for all. When the diesel handler of `UsersLoader`
    -- has run on it and rayon its job, in any order of visit, each awaits one and the same
    -- outcome, of which the field makes the rows of the one query, or the code of the error that
    -- the pool or the query gave.
    pub users-load_all :
        (order : Order (Unit {0})) (visit : Order (Request users_runtime)) (ks : List (Unit {0}))
        (l : DataLoader users_runtime q)
        → q.waiting l.queue ≡ none
        → l.spawned ≡ []
        → let (calls, l') = load_all users_runtime q (tt ∷ ks) l in
          (task : PendingAssignment users_runtime q) × (awaited : Unit {0} → Reply users_runtime)
          × (l'.spawned ≡ task ∷ [])
          × AllReturn users_runtime awaited
              (run_handled users_runtime q visit
                ((diesel_handler users_types Connection NoConnection q).handle_task
                  (users_loader order)
                  task
                  l'.queue)
                l'.world)
              calls
          × (users awaited ≡ users_listed)
    unfolding users
    users-load_all order visit ks l out none_spawned =
        let h = diesel_handler users_types Connection NoConnection q in
        let (calls, l') = load_all users_runtime q (tt ∷ ks) l in
        let (task, one, asked, all) =
          load_all-one_batch users_runtime q h (users_loader order) visit tt ks l out
            none_spawned in
        let asked_keys =
          keys users_runtime order
            (record { requests = assigned_to users_runtime q task l'.queue }) in
        (
          task,
          loaded_for users_runtime q h (users_loader order) task l'.queue,
          one,
          all,
          ap listed (
                reply_to-results_for users_types Connection NoConnection (users_loader order)
                  asked_keys tt)
              ∙ users-diesel_reply order asked_keys,
        )
