-- ===== src/Demo/Mutations/Ways.antt =====
-- The ways through the bookmark mutations.
use Prim.Native.String.{String}
use channel_loader_rs.Base.{
  ℕ, ◌≡◌, refl, sym, inl, inr, Result, ok, err, Result-cases, map_err, subst,
}
use channel_loader_rs.External.Diesel.{QueryError}
use channel_loader_rs.Diesel.Error.{SimpleDieselError, from_query_error, code}
use channel_loader_rs.Demo.{Bookmark}
use channel_loader_rs.Demo.Tables.{Content, Postgres}
use channel_loader_rs.Demo.Mutations.{DeletionReceipt, create_bookmark, delete_bookmark}

module _ {UserId ContentId Name Title Connection NoConnection : Type 0}
    (db : Postgres UserId ContentId Name Title Connection) (into : NoConnection → SimpleDieselError)
    (get_connection : Result Connection NoConnection) where
  -- The ways through `create_bookmark`, with its result and the state that it leaves.
  pub data Creates (others : db.State → db.State) (u : UserId) (c : ContentId) (s : db.State)
      : Result (Bookmark UserId (Content ContentId Title)) String → db.State → Type 0 where
    no_connection :
        (e : NoConnection) → get_connection ≡ err e → Creates others u c s (err (code (into e))) s
    not_inserted :
        (conn : Connection) (e : QueryError)
        → (db.insert_bookmark_or_nothing conn u c s).0 ≡ err e
        → Creates others u c s
            (err (code (from_query_error e)))
            (db.insert_bookmark_or_nothing conn u c s).1
    not_selected :
        (conn : Connection) (n : ℕ) (e : QueryError)
        → (db.insert_bookmark_or_nothing conn u c s).0 ≡ ok n
        → (db.select_bookmark conn u c (others (db.insert_bookmark_or_nothing conn u c s).1)).0
          ≡ err e
        → Creates others u c s
            (err (code (from_query_error e)))
            (db.select_bookmark conn u c (others (db.insert_bookmark_or_nothing conn u c s).1)).1
    selected :
        (conn : Connection) (n : ℕ) (b : Bookmark UserId (Content ContentId Title))
        → (db.insert_bookmark_or_nothing conn u c s).0 ≡ ok n
        → (db.select_bookmark conn u c (others (db.insert_bookmark_or_nothing conn u c s).1)).0
          ≡ ok b
        → Creates others u c s
            (ok b)
            (db.select_bookmark conn u c (others (db.insert_bookmark_or_nothing conn u c s).1)).1

  module _ (others : db.State → db.State) (u : UserId) (c : ContentId) (s : db.State) where
    abbrev selected_after :
        Connection → Result (Bookmark UserId (Content ContentId Title)) QueryError × db.State
    selected_after conn =
        db.select_bookmark conn u c (others (db.insert_bookmark_or_nothing conn u c s).1)

    create_bookmark-connected :
        (conn : Connection) (n : ℕ)
        → get_connection ≡ ok conn
        → (db.insert_bookmark_or_nothing conn u c s).0 ≡ ok n
        → create_bookmark db into get_connection others u c s ≡ (
          map_err code (map_err from_query_error (selected_after conn).0),
          (selected_after conn).1,
        )
    unfolding create_bookmark
    create_bookmark-connected conn n up stored =
        rw (up, create_bookmark) (rw (stored, create_bookmark) refl)

    create_bookmark-not_inserted :
        (conn : Connection) (e : QueryError)
        → get_connection ≡ ok conn
        → (db.insert_bookmark_or_nothing conn u c s).0 ≡ err e
        → create_bookmark db into get_connection others u c s
          ≡ (err (code (from_query_error e)), (db.insert_bookmark_or_nothing conn u c s).1)
    unfolding create_bookmark
    create_bookmark-not_inserted conn e up down =
        rw (up, create_bookmark) (rw (down, create_bookmark) refl)

    create_bookmark-no_connection :
        (e : NoConnection)
        → get_connection ≡ err e
        → create_bookmark db into get_connection others u c s ≡ (err (code (into e)), s)
    unfolding create_bookmark
    create_bookmark-no_connection e down = rw (down, create_bookmark) refl

    pub create_bookmark-Creates :
        let (r, s') = create_bookmark db into get_connection others u c s in
        Creates others u c s r s'
    create_bookmark-Creates = elim (Result-cases get_connection) [
      | inr (e, down) ↦
          subst (λ p. Creates others u c s p.0 p.1) (sym (create_bookmark-no_connection e down))
            (no_connection e down)
      | inl (conn, up) ↦ elim (Result-cases (db.insert_bookmark_or_nothing conn u c s).0) [
        | inr (e, down) ↦
            subst (λ p. Creates others u c s p.0 p.1)
              (sym (create_bookmark-not_inserted conn e up down)) (not_inserted conn e down)
        | inl (n, stored) ↦
            subst (λ p. Creates others u c s p.0 p.1)
              (sym (create_bookmark-connected conn n up stored))
              (elim (Result-cases (selected_after conn).0) [
                | inr (e, down) ↦
                    subst
                      (λ r.
                        Creates others u c s (map_err code (map_err from_query_error r))
                          (selected_after conn).1)
                      (sym down) (not_selected conn n e stored down)
                | inl (b, found) ↦
                    subst
                      (λ r.
                        Creates others u c s (map_err code (map_err from_query_error r))
                          (selected_after conn).1)
                      (sym found) (selected conn n b stored found)
              ])
      ]
    ]

  -- The ways through `delete_bookmark`.
  pub data Deletes (u : UserId) (c : ContentId) (s : db.State)
      : Result (DeletionReceipt ContentId) String → db.State → Type 0 where
    no_connection :
        (e : NoConnection) → get_connection ≡ err e → Deletes u c s (err (code (into e))) s
    not_deleted :
        (conn : Connection) (e : QueryError)
        → (db.delete_bookmark conn u c s).0 ≡ err e
        → Deletes u c s (err (code (from_query_error e))) (db.delete_bookmark conn u c s).1
    deleted :
        (conn : Connection) (id : ContentId)
        → (db.delete_bookmark conn u c s).0 ≡ ok id
        → Deletes u c s (ok (record { id = id })) (db.delete_bookmark conn u c s).1

  module _ (u : UserId) (c : ContentId) (s : db.State) where
    delete_bookmark-ok :
        (conn : Connection) (id : ContentId)
        → get_connection ≡ ok conn
        → (db.delete_bookmark conn u c s).0 ≡ ok id
        → delete_bookmark db into get_connection u c s
          ≡ (ok (record { id = id }), (db.delete_bookmark conn u c s).1)
    unfolding delete_bookmark
    delete_bookmark-ok conn id up gone = rw (up, delete_bookmark) (rw (gone, delete_bookmark) refl)

    delete_bookmark-err :
        (conn : Connection) (e : QueryError)
        → get_connection ≡ ok conn
        → (db.delete_bookmark conn u c s).0 ≡ err e
        → delete_bookmark db into get_connection u c s
          ≡ (err (code (from_query_error e)), (db.delete_bookmark conn u c s).1)
    unfolding delete_bookmark
    delete_bookmark-err conn e up down = rw (up, delete_bookmark) (rw (down, delete_bookmark) refl)

    delete_bookmark-no_connection :
        (e : NoConnection)
        → get_connection ≡ err e
        → delete_bookmark db into get_connection u c s ≡ (err (code (into e)), s)
    unfolding delete_bookmark
    delete_bookmark-no_connection e down = rw (down, delete_bookmark) refl

    pub delete_bookmark-Deletes :
        let (r, s') = delete_bookmark db into get_connection u c s in Deletes u c s r s'
    delete_bookmark-Deletes = elim (Result-cases get_connection) [
      | inr (e, down) ↦
          subst (λ p. Deletes u c s p.0 p.1) (sym (delete_bookmark-no_connection e down))
            (no_connection e down)
      | inl (conn, up) ↦ elim (Result-cases (db.delete_bookmark conn u c s).0) [
        | inr (e, down) ↦
            subst (λ p. Deletes u c s p.0 p.1) (sym (delete_bookmark-err conn e up down))
              (not_deleted conn e down)
        | inl (id, gone) ↦
            subst (λ p. Deletes u c s p.0 p.1) (sym (delete_bookmark-ok conn id up gone))
              (deleted conn id gone)
      ]
    ]
