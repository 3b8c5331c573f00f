-- ===== src/Tests/Demos.antt =====
-- The theorems on the loaders of the demo, at concrete inputs.
use channel_loader_rs.Base.{
  ℕ, ◌≤◌, ◌≡◌, ◌≢◌, refl, List, [], ◌∷◌, map, none, some, ok, HashMap, get, arith, ℕ_discrete,
  count,
}
use channel_loader_rs.Demo.{User, Bookmark, Database, load_user}
use channel_loader_rs.Demo.Users.{load_user_misplaced}
use channel_loader_rs.Demo.Bookmarks.{bookmarks_of, GroupsBy}
use channel_loader_rs.Tests.Loads.{program}

abbrev pub user : ℕ → User ℕ ℕ
user i = record { id = i; name = 100 }

abbrev pub bookmark_rows : List (Bookmark ℕ ℕ)
bookmark_rows =
    (record { user_id = 2; content = 7 })
    ∷ (record { user_id = 1; content = 8 })
    ∷ (record { user_id = 2; content = 9 })
    ∷ []

-- Every user exists, and the rows come in the order of the keys.
abbrev pub full : Database ℕ ℕ ℕ
full = record {
  users_belonging_to = λ keys. ok (map user keys);
  bookmarks_belonging_to = λ keys. ok bookmark_rows;
  users_limit_50 = ok (user 1 ∷ []);
  grouped_by = λ bookmarks keys. map (bookmarks_of ℕ_discrete bookmarks) keys;
}

-- Only the second user exists.
abbrev sparse : Database ℕ ℕ ℕ
sparse = record full { users_belonging_to = λ keys. ok (user 2 ∷ []) }

one-two_ne : ◌≢◌ {A = ℕ} 1 2
one-two_ne = ground arith

load_user_misplaced_example :
    (m : HashMap ℕ (User ℕ ℕ)) × (load_user ℕ_discrete sparse (1 ∷ 2 ∷ []) ≡ ok m)
    × (get ℕ_discrete m 1 ≡ some (user 2))
    × (get ℕ_discrete m 2 ≡ none)
load_user_misplaced_example =
    load_user_misplaced ℕ_discrete sparse 1 2 (user 2) one-two_ne refl refl

pub full-GroupsBy : GroupsBy ℕ_discrete full
full-GroupsBy = record { grouped_by_lem = λ bookmarks keys distinct. refl }

distinct : (k : ℕ) → count ℕ_discrete k (1 ∷ 2 ∷ []) ≤ 1
unfolding program count ℕ_discrete
distinct k = ground arith
