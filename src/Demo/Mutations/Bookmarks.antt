-- ===== src/Demo/Mutations/Bookmarks.antt =====
-- The bookmark mutations one after the other, and `delete_bookmark` alone.
use Prim.Native.String.{String}
use channel_loader_rs.Base.{
  some_injective, ◌≡◌, ◌≢◌, refl, sym, ap, ◌∙◌, ◌⊎◌, inl, inr, true, false, some, Result, ok, err,
  arith, subst,
}
use channel_loader_rs.External.Diesel.{QueryError}
use channel_loader_rs.Diesel.Error.{SimpleDieselError, from_query_error, code, code_injective}
use channel_loader_rs.Demo.{Bookmark}
use channel_loader_rs.Demo.Tables.{
  Content, Rows, Postgres, IsLawful, set_bookmark, bookmarked-set_bookmark, set_bookmark_id,
  set_bookmark_twice,
}
use channel_loader_rs.Demo.Mutations.{DeletionReceipt, create_bookmark, delete_bookmark}
use channel_loader_rs.Demo.Mutations.Ways.{
  no_connection, Deletes, not_deleted, deleted, delete_bookmark-Deletes,
}
use channel_loader_rs.Demo.Mutations.Create.{Created, create_bookmark-Created}

not_found-cases :
    (e : QueryError)
    → (e ≡ QueryError.not_found) ⊎ (from_query_error e ≢ SimpleDieselError.not_found)
unfolding from_query_error
not_found-cases e = ground arith

same_bookmark :
    {U C T : Type 0} (a b : Bookmark U (Content C T))
    → a.user_id ≡ b.user_id
    → a.content.id ≡ b.content.id
    → a.content.title ≡ b.content.title
    → a ≡ b
same_bookmark a b user id title =
    λ i. record { user_id = user i; content = record { id = id i; title = title i } }

module _ {UserId ContentId Name Title Connection NoConnection : Type 0} (users : Discrete UserId)
    (contents : Discrete ContentId) (db : Postgres UserId ContentId Name Title Connection)
    (rows : db.State → Rows UserId ContentId Name Title) (lawful : IsLawful users contents db rows)
    (into : NoConnection → SimpleDieselError)
    (get_connection : Result Connection NoConnection) where
  abbrev Deleted :
      UserId → ContentId → db.State → Result (DeletionReceipt ContentId) String → db.State → Type 0
  Deleted u c s (ok receipt) s' =
      (receipt.id ≡ c)
      × ((rows s).bookmarked u c ≡ true)
      × (rows s' ≡ set_bookmark users contents false u c (rows s))
  Deleted u c s (err e) s' =
      (rows s' ≡ rows s)
      × (((rows s).bookmarked u c ≡ false) ⊎ (e ≢ code SimpleDieselError.not_found))

  Deletes-Deleted :
      ((e : NoConnection) → into e ≢ SimpleDieselError.not_found)
      → (u : UserId) (c : ContentId) (s : db.State) {r : Result (DeletionReceipt ContentId) String}
        {s' : db.State}
      → Deletes db into get_connection u c s r s'
      → Deleted u c s r s'
  Deletes-Deleted up u c s (no_connection e down) = (refl, inr λ h. up e (code_injective _ _ h))
  Deletes-Deleted up u c s (not_deleted conn e down) = (
    lawful.delete_bookmark-err conn u c s down,
    elim (not_found-cases e) [
      | inl same ↦ inl (lawful.delete_bookmark-not_found conn u c s (down ∙ ap err same))
      | inr other ↦ inr λ h. other (code_injective _ _ h)
    ],
  )
  Deletes-Deleted up u c s (deleted conn id gone) =
      let (there, same, after) = lawful.delete_bookmark-ok conn u c s gone in (same, there, after)

  -- If the statements do to the tables what postgres documents and a missing connection is no
  -- NotFound: a receipt has the id of the content, the bookmark was there, and it alone is gone;
  -- after an error the tables are as they were, and the code is NOT_FOUND only if there was no
  -- such bookmark.
  delete_bookmark-Deleted :
      ((e : NoConnection) → into e ≢ SimpleDieselError.not_found)
      → (u : UserId) (c : ContentId) (s : db.State)
      → let (r, s') = delete_bookmark db into get_connection u c s in Deleted u c s r s'
  delete_bookmark-Deleted up u c s =
      Deletes-Deleted up u c s (delete_bookmark-Deletes db into get_connection u c s)

  module _ (others : db.State → db.State) (quiet : (s : db.State) → rows (others s) ≡ rows s) where
    -- A call that is answered has stored the bookmark, and done nothing else.
    create_bookmark_quiet :
        (u : UserId) (c : ContentId) (s : db.State) {b : Bookmark UserId (Content ContentId Title)}
        → (create_bookmark db into get_connection others u c s).0 ≡ ok b
        → let s' = (create_bookmark db into get_connection others u c s).1 in
          (rows s' ≡ set_bookmark users contents true u c (rows s))
          × (b.user_id ≡ u)
          × (b.content.id ≡ c)
          × ((rows s').title_of c ≡ some b.content.title)
    create_bookmark_quiet u c s h =
        let s' = (create_bookmark db into get_connection others u c s).1 in
        let ((stored, inserted, seen), user, content, there, title) =
          subst (λ r. Created users contents db rows lawful into get_connection others u c s r s') h
            (create_bookmark-Created users contents db rows lawful into get_connection others u c
              s) in
        (seen ∙ quiet stored ∙ inserted, user, content, title)

    -- To create a bookmark again gives the same bookmark and changes no row, if both calls succeed
    -- and other sessions change no row between the two statements.
    create_bookmark_twice :
        (u : UserId) (c : ContentId) (s : db.State)
        {first second : Bookmark UserId (Content ContentId Title)}
        → let once = create_bookmark db into get_connection others u c s in
          let twice = create_bookmark db into get_connection others u c once.1 in
          once.0 ≡ ok first → twice.0 ≡ ok second → (second ≡ first) × (rows twice.1 ≡ rows once.1)
    create_bookmark_twice u c s one two =
        let first_call = create_bookmark db into get_connection others u c s in
        let (inserted, user, content, title) = create_bookmark_quiet u c s one in
        let (again, user', content', title') = create_bookmark_quiet u c first_call.1 two in
        let there =
          ap (λ v. v.bookmarked u c) inserted
          ∙ bookmarked-set_bookmark users contents true u c (rows s) in
        let same = again ∙ set_bookmark_id users contents true u c (rows first_call.1) there in
        (
          same_bookmark _ _ (user' ∙ sym user) (content' ∙ sym content)
              (some_injective (sym title' ∙ ap (λ v. v.title_of c) same ∙ title)),
          same,
        )

    -- If the statements do to the tables what postgres documents, a missing connection is no
    -- NotFound and other sessions change no row between the two statements, then creating a
    -- bookmark that is not there and deleting it, both with success, leaves the tables as they
    -- were, and the receipt has the id of the bookmark's content.
    pub delete_bookmark-create_bookmark :
        (u : UserId) (c : ContentId) (s : db.State) {b : Bookmark UserId (Content ContentId Title)}
        {receipt : DeletionReceipt ContentId}
        → ((e : NoConnection) → into e ≢ SimpleDieselError.not_found)
        → (rows s).bookmarked u c ≡ false
        → (create_bookmark db into get_connection others u c s).0 ≡ ok b
        → (delete_bookmark db into get_connection u c
            (create_bookmark db into get_connection others u c s).1).0
          ≡ ok receipt
        → (receipt.id ≡ b.content.id)
          × (rows
                (delete_bookmark db into get_connection u c
                  (create_bookmark db into get_connection others u c s).1).1
              ≡ rows s)
    delete_bookmark-create_bookmark u c s up free created gone =
        let first_call = create_bookmark db into get_connection others u c s in
        let second_call = delete_bookmark db into get_connection u c first_call.1 in
        let (inserted, user, content, title) = create_bookmark_quiet u c s created in
        let (same, there, removed) =
          subst (λ r. Deleted u c first_call.1 r second_call.1) gone
            (delete_bookmark-Deleted up u c first_call.1) in
        (
          same ∙ sym content,
          removed
              ∙ ap (set_bookmark users contents false u c) inserted
              ∙ set_bookmark_twice users contents false true u c (rows s)
              ∙ set_bookmark_id users contents false u c (rows s) free,
        )
