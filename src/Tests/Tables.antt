-- ===== src/Tests/Tables.antt =====
-- A database whose rows are numbered, for the theorems on the mutations.
use Prim.Native.Nat.{compare, Ordering}
use channel_loader_rs.Base.{
  ℕ, suc, ◌≡◌, ◌≢◌, inl, inr, refl, ap, Bool, true, false, ◌&&◌, if◌then◌else◌, Option, none, some,
  ok, err, ℕ_discrete, arith, Bool-cases, ◌≤◌,
}
use channel_loader_rs.External.Diesel.{DatabaseErrorKind, QueryError}
use channel_loader_rs.Demo.{User, Bookmark}
use channel_loader_rs.Demo.Tables.{Content, Rows, Postgres, IsLawful, updated, set_bookmark}

abbrev pub ltb : ℕ → ℕ → Bool
ltb a b = elim (compare a b) [ Ordering.lt ↦ true | _ ↦ false ]

-- The users and the contents are those below the two numbers.
pub record Numbered : Type 0 where
  pub user_count : ℕ
  pub content_count : ℕ
  pub names : ℕ → ℕ
  pub titles : ℕ → ℕ
  pub marks : ℕ → ℕ → Bool

abbrev pub row : (ℕ → ℕ) → ℕ → ℕ → Option ℕ
row texts n i = if ltb i n then some (texts i) else none

abbrev pub marked : Numbered → ℕ → ℕ → Bool
marked s u c = s.marks u c && (ltb u s.user_count && ltb c s.content_count)

abbrev pub rows : Numbered → Rows ℕ ℕ ℕ ℕ
rows s = record {
  name_of = row s.names s.user_count;
  title_of = row s.titles s.content_count;
  bookmarked = marked s;
}

abbrev marking : Bool → ℕ → ℕ → Numbered → Numbered
marking b u c s = record s {
  marks = updated ℕ_discrete u (updated ℕ_discrete c b (s.marks u)) s.marks;
}

-- A connection is a number.
abbrev pub numbered : Postgres ℕ ℕ ℕ ℕ ℕ
numbered = record {
  State = Numbered;
  insert_user = λ conn name s. (
    ok (record { id = s.user_count; name = name }),
    record s {
      user_count = suc s.user_count;
      names = updated ℕ_discrete s.user_count name s.names;
      marks = marked s;
    },
  );
  insert_content = λ conn title s. (
    ok (record { id = s.content_count; title = title }),
    record s {
      content_count = suc s.content_count;
      titles = updated ℕ_discrete s.content_count title s.titles;
      marks = marked s;
    },
  );
  insert_bookmark_or_nothing = λ conn u c s.
      if ltb u s.user_count && ltb c s.content_count
      then (ok 1, marking true u c s)
      else (err (QueryError.database_error DatabaseErrorKind.foreign_key_violation), s);
  select_bookmark = λ conn u c s.
      if marked s u c
      then (ok (record { user_id = u; content = record { id = c; title = s.titles c } }), s)
      else (err QueryError.not_found, s);
  delete_bookmark = λ conn u c s.
      if marked s u c then (ok c, marking false u c s) else (err QueryError.not_found, s);
}

row_next :
    (texts : ℕ → ℕ) (n text i : ℕ)
    → row (updated ℕ_discrete n text texts) (suc n) i
      ≡ updated ℕ_discrete n (some text) (row texts n) i
row_next texts n text i = ground arith

row_new : (texts : ℕ → ℕ) (n : ℕ) → row texts n n ≡ none
row_new texts n = ground arith

marking_lem :
    (b : Bool) (u c : ℕ) (s : Numbered) (i j : ℕ)
    → (ltb u s.user_count && ltb c s.content_count) ≡ true
    → marked (marking b u c s) i j
      ≡ (set_bookmark ℕ_discrete ℕ_discrete b u c (rows s)).bookmarked i j
marking_lem b u c s i j h = ground arith

-- Marks of users and contents that are not there do not count.
marked_again :
    (s : Numbered) (u c n m : ℕ)
    → s.user_count ≤ n
    → s.content_count ≤ m
    → (marked s u c && (ltb u n && ltb c m)) ≡ marked s u c
marked_again s u c n m le le' = ground arith

same_rows :
    {a b : Rows ℕ ℕ ℕ ℕ}
    → ((i : ℕ) → a.name_of i ≡ b.name_of i)
    → ((i : ℕ) → a.title_of i ≡ b.title_of i)
    → ((i j : ℕ) → a.bookmarked i j ≡ b.bookmarked i j)
    → a ≡ b
same_rows names titles marks = λ k. record {
  name_of = λ i. names i k;
  title_of = λ i. titles i k;
  bookmarked = λ i j. marks i j k;
}

rows-marking :
    (b : Bool) (u c : ℕ) (s : Numbered)
    → (ltb u s.user_count && ltb c s.content_count) ≡ true
    → rows (marking b u c s) ≡ set_bookmark ℕ_discrete ℕ_discrete b u c (rows s)
rows-marking b u c s h = same_rows (λ i. refl) (λ i. refl) (λ i j. marking_lem b u c s i j h)

insert_bookmark-ok :
    (conn u c : ℕ) (s : Numbered) {n : ℕ}
    → (numbered.insert_bookmark_or_nothing conn u c s).0 ≡ ok n
    → rows (numbered.insert_bookmark_or_nothing conn u c s).1
      ≡ set_bookmark ℕ_discrete ℕ_discrete true u c (rows s)
insert_bookmark-ok conn u c s h = elim (Bool-cases (ltb u s.user_count && ltb c s.content_count)) [
  | inl there ↦ rw there (rows-marking true u c s there)
  | inr absent ↦ ground arith
]

insert_bookmark-err :
    (conn u c : ℕ) (s : Numbered) {e : QueryError}
    → (numbered.insert_bookmark_or_nothing conn u c s).0 ≡ err e
    → (numbered.insert_bookmark_or_nothing conn u c s).1 ≡ s
insert_bookmark-err conn u c s h = ground arith

insert_bookmark-found :
    (conn u c : ℕ) (s : Numbered)
    → (numbered.insert_bookmark_or_nothing conn u c s).0 ≢ err QueryError.not_found
insert_bookmark-found conn u c s h = ground arith

select_bookmark-reads : (conn u c : ℕ) (s : Numbered) → (numbered.select_bookmark conn u c s).1 ≡ s
select_bookmark-reads conn u c s = ground arith

select_bookmark-ok :
    (conn u c : ℕ) (s : Numbered) {b : Bookmark ℕ (Content ℕ ℕ)}
    → (numbered.select_bookmark conn u c s).0 ≡ ok b
    → (marked s u c ≡ true)
      × (b.user_id ≡ u)
      × (b.content.id ≡ c)
      × (row s.titles s.content_count c ≡ some b.content.title)
select_bookmark-ok conn u c s h = ground arith

select_bookmark-not_found :
    (conn u c : ℕ) (s : Numbered)
    → (numbered.select_bookmark conn u c s).0 ≡ err QueryError.not_found
    → marked s u c ≡ false
select_bookmark-not_found conn u c s h = ground arith

marked-there :
    (s : Numbered) (u c : ℕ)
    → marked s u c ≡ true
    → (ltb u s.user_count && ltb c s.content_count) ≡ true
marked-there s u c h = ground arith

delete_bookmark-ok :
    (conn u c : ℕ) (s : Numbered) {id : ℕ}
    → (numbered.delete_bookmark conn u c s).0 ≡ ok id
    → (marked s u c ≡ true)
      × (id ≡ c)
      × (rows (numbered.delete_bookmark conn u c s).1
          ≡ set_bookmark ℕ_discrete ℕ_discrete false u c (rows s))
delete_bookmark-ok conn u c s h = elim (Bool-cases (marked s u c)) [
  | inl there ↦
      (there, ground arith, rw there (rows-marking false u c s (marked-there s u c there)))
  | inr absent ↦ ground arith
]

delete_bookmark-err :
    (conn u c : ℕ) (s : Numbered) {e : QueryError}
    → (numbered.delete_bookmark conn u c s).0 ≡ err e
    → ((numbered.delete_bookmark conn u c s).1 ≡ s) × (marked s u c ≡ false)
delete_bookmark-err conn u c s h = ground arith

insert_user-ok :
    (conn name : ℕ) (s : Numbered) {user : User ℕ ℕ}
    → (numbered.insert_user conn name s).0 ≡ ok user
    → (user.name ≡ name)
      × (row s.names s.user_count user.id ≡ none)
      × (rows (numbered.insert_user conn name s).1 ≡ record (rows s) {
        name_of = updated ℕ_discrete user.id (some name) (row s.names s.user_count);
      })
insert_user-ok conn name s {user} h =
    let fresh : user.id ≡ s.user_count = ground arith in
    (
      ground arith,
      rw fresh (row_new s.names s.user_count),
      rw fresh (
          same_rows (row_next s.names s.user_count name) (λ i. refl)
            (λ i j.
              marked_again s i j (suc s.user_count) s.content_count (omega arith) (omega arith))),
    )

insert_content-ok :
    (conn title : ℕ) (s : Numbered) {content : Content ℕ ℕ}
    → (numbered.insert_content conn title s).0 ≡ ok content
    → (content.title ≡ title)
      × (row s.titles s.content_count content.id ≡ none)
      × (rows (numbered.insert_content conn title s).1 ≡ record (rows s) {
        title_of = updated ℕ_discrete content.id (some title) (row s.titles s.content_count);
      })
insert_content-ok conn title s {content} h =
    let fresh : content.id ≡ s.content_count = ground arith in
    (
      ground arith,
      rw fresh (row_new s.titles s.content_count),
      rw fresh (
          same_rows (λ i. refl) (row_next s.titles s.content_count title)
            (λ i j.
              marked_again s i j s.user_count (suc s.content_count) (omega arith) (omega arith))),
    )

pub numbered-IsLawful : IsLawful ℕ_discrete ℕ_discrete numbered rows
numbered-IsLawful = record {
  insert_user-ok = insert_user-ok;
  insert_user-err = λ conn name s h. ground arith;
  insert_content-ok = insert_content-ok;
  insert_content-err = λ conn name s h. ground arith;
  insert_bookmark-ok = insert_bookmark-ok;
  insert_bookmark-err = λ conn u c s h. ap rows (insert_bookmark-err conn u c s h);
  insert_bookmark-found = insert_bookmark-found;
  select_bookmark-reads = λ conn u c s. ap rows (select_bookmark-reads conn u c s);
  select_bookmark-ok = select_bookmark-ok;
  select_bookmark-not_found = λ conn u c s h. inl (select_bookmark-not_found conn u c s h);
  delete_bookmark-ok = delete_bookmark-ok;
  delete_bookmark-err = λ conn u c s h. ap rows (delete_bookmark-err conn u c s h).0;
  delete_bookmark-not_found = λ conn u c s h. (delete_bookmark-err conn u c s h).1;
  bookmarked-title_of = λ s u c h. (s.titles c, ground arith);
  bookmarked-name_of = λ s u c h. (s.names u, ground arith);
}
