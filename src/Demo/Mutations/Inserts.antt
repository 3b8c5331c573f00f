-- ===== src/Demo/Mutations/Inserts.antt =====
-- `create_user` and `create_content`, which are one statement each.
use Prim.Native.String.{String}
use channel_loader_rs.Base.{
  ◌≡◌, refl, sym, inl, inr, none, some, Result, ok, err, map_err, Result-cases, subst, Action,
  ◌>>=◌, converted,
}
use channel_loader_rs.External.Diesel.{QueryError}
use channel_loader_rs.Diesel.Error.{SimpleDieselError, from_query_error, code}
use channel_loader_rs.Demo.{User}
use channel_loader_rs.Demo.Tables.{Content, Rows, Postgres, IsLawful, updated}
use channel_loader_rs.Demo.Mutations.{connected, extended, create_user, create_content}

module _ {UserId ContentId Name Title Connection NoConnection : Type 0}
    (db : Postgres UserId ContentId Name Title Connection) (into : NoConnection → SimpleDieselError)
    (get_connection : Result Connection NoConnection) {A : Type 0}
    (statement : Connection → Action db.State QueryError A) (s : db.State) where
  -- One statement on a connection, if there is one.
  abbrev on_connection : Action db.State String A
  on_connection =
      extended db into get_connection
        (connected db into get_connection >>= λ conn. converted from_query_error (statement conn))

  -- What it comes to.
  data Comes : Result A String → db.State → Type 0 where
    refused : (e : SimpleDieselError) → Comes (err (code e)) s
    failed :
        (conn : Connection) (e : QueryError)
        → (statement conn s).0 ≡ err e
        → Comes (err (code (from_query_error e))) (statement conn s).1
    gives :
        (conn : Connection) (a : A)
        → (statement conn s).0 ≡ ok a
        → Comes (ok a) (statement conn s).1

  on_connection_up :
      (conn : Connection)
      → get_connection ≡ ok conn
      → on_connection s
        ≡ (map_err code (map_err from_query_error (statement conn s).0), (statement conn s).1)
  on_connection_up conn up = rw up refl

  on_connection_down :
      (e : NoConnection) → get_connection ≡ err e → on_connection s ≡ (err (code (into e)), s)
  on_connection_down e down = rw down refl

  on_connection-Comes : let (r, s') = on_connection s in Comes r s'
  on_connection-Comes = elim (Result-cases get_connection) [
    | inr (e, down) ↦
        subst (λ p. Comes p.0 p.1) (sym (on_connection_down e down)) (refused (into e))
    | inl (conn, up) ↦
        subst (λ p. Comes p.0 p.1) (sym (on_connection_up conn up))
          (elim (Result-cases (statement conn s).0) [
            | inr (e, down) ↦
                subst (λ r. Comes (map_err code (map_err from_query_error r)) (statement conn s).1)
                  (sym down) (failed conn e down)
            | inl (a, done) ↦
                subst (λ r. Comes (map_err code (map_err from_query_error r)) (statement conn s).1)
                  (sym done) (gives conn a done)
          ])
  ]

module _ {UserId ContentId Name Title Connection NoConnection : Type 0} (users : Discrete UserId)
    (contents : Discrete ContentId) (db : Postgres UserId ContentId Name Title Connection)
    (rows : db.State → Rows UserId ContentId Name Title) (lawful : IsLawful users contents db rows)
    (into : NoConnection → SimpleDieselError)
    (get_connection : Result Connection NoConnection) where
  -- A user that was not there, with the name asked for, or nothing.
  abbrev UserCreated : Name → db.State → Result (User UserId Name) String → db.State → Type 0
  UserCreated name s (ok user) s' =
      (user.name ≡ name)
      × ((rows s).name_of user.id ≡ none)
      × (rows s' ≡ record (rows s) { name_of = updated users user.id (some name) (rows s).name_of })
  UserCreated name s (err e) s' = rows s' ≡ rows s

  Comes-UserCreated :
      (name : Name) (s : db.State) {r : Result (User UserId Name) String} {s' : db.State}
      → Comes db into get_connection (λ conn. db.insert_user conn name) s r s'
      → UserCreated name s r s'
  Comes-UserCreated name s (refused e) = refl
  Comes-UserCreated name s (failed conn e down) = lawful.insert_user-err conn name s down
  Comes-UserCreated name s (gives conn user done) = lawful.insert_user-ok conn name s done

  -- If the statements do to the tables what postgres documents, `create_user` gives a new user of the name asked
  -- for, which is all that changes, or an error, and then no row changes.
  create_user-UserCreated :
      (name : Name) (s : db.State)
      → let (r, s') = create_user db into get_connection name s in UserCreated name s r s'
  unfolding create_user
  create_user-UserCreated name s =
      Comes-UserCreated name s
        (on_connection-Comes db into get_connection (λ conn. db.insert_user conn name) s)

  -- A content that was not there, with the title asked for, or nothing.
  abbrev ContentCreated :
      Title → db.State → Result (Content ContentId Title) String → db.State → Type 0
  ContentCreated title s (ok content) s' =
      (content.title ≡ title)
      × ((rows s).title_of content.id ≡ none)
      × (rows s' ≡ record (rows s) {
        title_of = updated contents content.id (some title) (rows s).title_of;
      })
  ContentCreated title s (err e) s' = rows s' ≡ rows s

  Comes-ContentCreated :
      (title : Title) (s : db.State) {r : Result (Content ContentId Title) String} {s' : db.State}
      → Comes db into get_connection (λ conn. db.insert_content conn title) s r s'
      → ContentCreated title s r s'
  Comes-ContentCreated title s (refused e) = refl
  Comes-ContentCreated title s (failed conn e down) = lawful.insert_content-err conn title s down
  Comes-ContentCreated title s (gives conn content done) =
      lawful.insert_content-ok conn title s done

  -- The same of `create_content`.
  create_content-ContentCreated :
      (title : Title) (s : db.State)
      → let (r, s') = create_content db into get_connection title s in ContentCreated title s r s'
  unfolding create_content
  create_content-ContentCreated title s =
      Comes-ContentCreated title s
        (on_connection-Comes db into get_connection (λ conn. db.insert_content conn title) s)
