-- ===== src/Demo/Mutations/Create.antt =====
-- `create_bookmark`: what it tells the client, and what the tables hold afterwards.
use Prim.Native.String.{String}
use channel_loader_rs.Base.{
  none, Bool-cases, ◌≡◌, ◌≢◌, refl, ap, ◌∙◌, ◌⊎◌, inl, inr, true, false, some, Result, ok, err,
  arith,
}
use channel_loader_rs.External.Diesel.{QueryError}
use channel_loader_rs.Diesel.Error.{SimpleDieselError, from_query_error, code, code_injective}
use channel_loader_rs.Demo.{Bookmark}
use channel_loader_rs.Demo.Tables.{Content, Rows, Postgres, IsLawful, set_bookmark}
use channel_loader_rs.Demo.Mutations.{create_bookmark}
use channel_loader_rs.Demo.Mutations.Ways.{
  Creates, no_connection, not_inserted, not_selected, selected, create_bookmark-Creates,
}

-- Only diesel's own NotFound is converted to NotFound.
pub from_query_error-not_found :
    (e : QueryError) → from_query_error e ≡ SimpleDieselError.not_found → e ≡ QueryError.not_found
unfolding from_query_error
from_query_error-not_found e h = ground arith

-- The errors of two codes that are the same are the same.
reported_same :
    {A : Type 0} (d e : SimpleDieselError)
    → Path (Result A String) (err (code d)) (err (code e))
    → d ≡ e
reported_same d e h = code_injective d e cc

module _ {UserId ContentId Name Title Connection NoConnection : Type 0} (users : Discrete UserId)
    (contents : Discrete ContentId) (db : Postgres UserId ContentId Name Title Connection)
    (rows : db.State → Rows UserId ContentId Name Title) (lawful : IsLawful users contents db rows)
    (into : NoConnection → SimpleDieselError)
    (get_connection : Result Connection NoConnection) where
  abbrev Answered : Type 0
  Answered = Result (Bookmark UserId (Content ContentId Title)) String

  unbookmarked :
      (u : UserId) (c : ContentId) (s : db.State)
      → ((rows s).bookmarked u c ≡ false) ⊎ ((rows s).title_of c ≡ none)
      → (rows s).bookmarked u c ≡ false
  unbookmarked u c s (inl gone) = gone
  unbookmarked u c s (inr untitled) = elim (Bool-cases ((rows s).bookmarked u c)) [
    | inl there ↦ let (title, titled) = lawful.bookmarked-title_of s u c there in cc
    | inr gone ↦ gone
  ]

  -- What the tables hold after the call, if it has come to `s'` with the bookmark stored.
  abbrev pub IsStored : (db.State → db.State) → UserId → ContentId → db.State → db.State → Type 0
  IsStored others u c s s' =
      (stored : db.State) × (rows stored ≡ set_bookmark users contents true u c (rows s))
      × (rows s' ≡ rows (others stored))

  abbrev pub Created :
      (db.State → db.State) → UserId → ContentId → db.State → Answered → db.State → Type 0
  Created others u c s (ok b) s' =
      IsStored others u c s s'
      × (b.user_id ≡ u)
      × (b.content.id ≡ c)
      × ((rows s').bookmarked u c ≡ true)
      × ((rows s').title_of c ≡ some b.content.title)
  Created others u c s (err e) s' = (rows s' ≡ rows s) ⊎ IsStored others u c s s'

  Creates-Created :
      (others : db.State → db.State) (u : UserId) (c : ContentId) (s : db.State) {r : Answered}
      {s' : db.State}
      → Creates db into get_connection others u c s r s'
      → Created others u c s r s'
  Creates-Created others u c s (no_connection e down) = inl refl
  Creates-Created others u c s (not_inserted conn e down) =
      inl (lawful.insert_bookmark-err conn u c s down)
  Creates-Created others u c s (not_selected conn n e stored down) =
      let s₁ = (db.insert_bookmark_or_nothing conn u c s).1 in
      inr (
        s₁,
        lawful.insert_bookmark-ok conn u c s stored,
        lawful.select_bookmark-reads conn u c (others s₁),
      )
  Creates-Created others u c s (selected conn n b stored found) =
      let s₁ = (db.insert_bookmark_or_nothing conn u c s).1 in
      let reads = lawful.select_bookmark-reads conn u c (others s₁) in
      let (there, user, content, title) = lawful.select_bookmark-ok conn u c (others s₁) found in
      (
        (s₁, lawful.insert_bookmark-ok conn u c s stored, reads),
        user,
        content,
        ap (λ v. v.bookmarked u c) reads ∙ there,
        ap (λ v. v.title_of c) reads ∙ title,
      )

  -- If the statements do to the tables what postgres documents, then whatever other sessions do
  -- between the two statements of `create_bookmark`: if it gives a bookmark, that is the one
  -- asked for with the title of its content, it was stored, and it is there at the end; if it
  -- gives an error, either the tables are as they were, or the bookmark was stored all the same.
  pub create_bookmark-Created :
      (others : db.State → db.State) (u : UserId) (c : ContentId) (s : db.State)
      → let (r, s') = create_bookmark db into get_connection others u c s in
        Created others u c s r s'
  create_bookmark-Created others u c s =
      Creates-Created others u c s (create_bookmark-Creates db into get_connection others u c s)

  Creates-not_found :
      ((e : NoConnection) → into e ≢ SimpleDieselError.not_found)
      → (others : db.State → db.State) (u : UserId) (c : ContentId) (s : db.State) {r : Answered}
        {s' : db.State}
      → Creates db into get_connection others u c s r s'
      → r ≡ err (code SimpleDieselError.not_found)
      → IsStored others u c s s' × ((rows s').bookmarked u c ≡ false)
  Creates-not_found up others u c s (no_connection e down) h = elim (up e (reported_same _ _ h)) [ ]
  Creates-not_found up others u c s (not_inserted conn e down) h =
      elim (lawful.insert_bookmark-found conn u c s
        (down ∙ ap err (from_query_error-not_found e (reported_same _ _ h)))) [ ]
  Creates-not_found up others u c s (not_selected conn n e stored down) h =
      let s₁ = (db.insert_bookmark_or_nothing conn u c s).1 in
      let reads = lawful.select_bookmark-reads conn u c (others s₁) in
      let gone =
        lawful.select_bookmark-not_found conn u c (others s₁)
          (down ∙ ap err (from_query_error-not_found e (reported_same _ _ h))) in
      (
        (s₁, lawful.insert_bookmark-ok conn u c s stored, reads),
        ap (λ v. v.bookmarked u c) reads ∙ unbookmarked u c (others s₁) gone,
      )
  Creates-not_found up others u c s (selected conn n b stored found) h = ground arith

  -- If the statements do to the tables what postgres documents and a missing connection is no
  -- NotFound, then whenever `create_bookmark` reports the code NOT_FOUND, it has stored the
  -- bookmark, and after what other sessions have done between its two statements the bookmark is
  -- gone.
  pub create_bookmark-not_found :
      ((e : NoConnection) → into e ≢ SimpleDieselError.not_found)
      → (others : db.State → db.State) (u : UserId) (c : ContentId) (s : db.State)
      → (create_bookmark db into get_connection others u c s).0
        ≡ err (code SimpleDieselError.not_found)
      → let (_, s') = create_bookmark db into get_connection others u c s in
        IsStored others u c s s' × ((rows s').bookmarked u c ≡ false)
  create_bookmark-not_found up others u c s =
      Creates-not_found up others u c s
        (create_bookmark-Creates db into get_connection others u c s)
