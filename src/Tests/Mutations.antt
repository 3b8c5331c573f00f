-- ===== src/Tests/Mutations.antt =====
-- The theorems on the fields of the demo, at concrete inputs.
use channel_loader_rs.Base.{
  ℕ, ◌≡◌, ◌≢◌, refl, false, [], ◌∷◌, none, Result, ok, arith, ℕ_discrete, Memᴰ,
}
use channel_loader_rs.External.{SwapQueue}
use channel_loader_rs.External.Diesel.{PoolError}
use channel_loader_rs.Request.{Runtime, World, Request, Reply, oneshot, waiting, pending, got, key}
use channel_loader_rs.Task.{PendingAssignment, LoadBatch, keys}
use channel_loader_rs.Loader.{new_loader}
use channel_loader_rs.Loader.Together.{load_all}
use channel_loader_rs.Handler.Answer.{run_handled}
use channel_loader_rs.Handler.Together.{AllReturn}
use channel_loader_rs.Diesel.Error.{SimpleDieselError, code, from_pool_error, from_query_error}
use channel_loader_rs.Diesel.Loader.{diesel_handler}
use channel_loader_rs.Diesel.Answer.{diesel_reply}
use channel_loader_rs.Demo.Bookmarks.{bookmarks_of}
use channel_loader_rs.Demo.Mutations.{create_bookmark, delete_bookmark}
use channel_loader_rs.Demo.Mutations.Create.{
  IsStored, Created, create_bookmark-Created, create_bookmark-not_found,
}
use channel_loader_rs.Demo.Mutations.Bookmarks.{delete_bookmark-create_bookmark}
use channel_loader_rs.Demo.Queries.{users, user_bookmarks, bookmarks}
use channel_loader_rs.Demo.Queries.Together.{
  users_types, users_runtime, users_loader, users_listed, users-load_all,
}
use channel_loader_rs.Demo.Queries.Bookmarks.{
  bookmark_types, bookmark_runtime, bookmark_loader, user_bookmarks-diesel_reply,
}
use channel_loader_rs.Tests.Demos.{user, full, full-GroupsBy, bookmark_rows}
use channel_loader_rs.Tests.Instances.{slots, swap_queue, backwards}
use channel_loader_rs.Tests.Loads.{program}
use channel_loader_rs.Tests.Tables.{Numbered, numbered, numbered-IsLawful, rows}

-- Three users and four contents, and no bookmark.
abbrev started : Numbered
started = record {
  user_count = 3;
  content_count = 4;
  names = λ i. 100;
  titles = λ i. 200;
  marks = λ i j. false;
}

abbrev pooled : Result ℕ PoolError
pooled = ok 7

pooled_found : (e : PoolError) → from_pool_error e ≢ SimpleDieselError.not_found
unfolding from_pool_error
pooled_found e h = ground arith

-- Another session deletes the bookmark before it is read.
abbrev snatched : Numbered → Numbered
snatched s = (numbered.delete_bookmark 8 1 2 s).1

create_bookmark-Created_example :
    let (r, s') = create_bookmark numbered from_pool_error pooled (λ s. s) 1 2 started in
    Created ℕ_discrete ℕ_discrete numbered rows numbered-IsLawful from_pool_error pooled
      (λ s. s)
      1
      2
      started
      r
      s'
create_bookmark-Created_example =
    create_bookmark-Created ℕ_discrete ℕ_discrete numbered rows numbered-IsLawful from_pool_error
      pooled (λ s. s) 1 2 started

create_bookmark-not_found_example :
    let (_, s') = create_bookmark numbered from_pool_error pooled snatched 1 2 started in
    IsStored ℕ_discrete ℕ_discrete numbered rows numbered-IsLawful from_pool_error pooled snatched 1
      2 started s'
    × ((rows s').bookmarked 1 2 ≡ false)
unfolding create_bookmark code program from_query_error
create_bookmark-not_found_example =
    create_bookmark-not_found ℕ_discrete ℕ_discrete numbered rows numbered-IsLawful from_pool_error
      pooled pooled_found snatched 1 2 started refl

delete_bookmark-create_bookmark_example :
    ◌≡◌ {A = ℕ} 2 2
    × (rows
          (delete_bookmark numbered from_pool_error pooled 1 2
            (create_bookmark numbered from_pool_error pooled (λ s. s) 1 2 started).1).1
        ≡ rows started)
unfolding create_bookmark delete_bookmark program
delete_bookmark-create_bookmark_example =
    delete_bookmark-create_bookmark ℕ_discrete ℕ_discrete numbered rows numbered-IsLawful
      from_pool_error pooled (λ s. s) (λ s. refl) 1 2 started pooled_found refl refl refl

abbrev listing : Runtime
listing =
    users_runtime (slots (λ _. waiting) got) (slots (λ state. state) (λ state. state)) ℕ_discrete
      from_pool_error pooled (λ conn. full)

abbrev listing_world : World listing
listing_world = record {
  oneshots = record { next = 0; views = λ _. waiting; closed = λ _. false };
  watches = record { next = 0; views = λ _. pending; closed = λ _. false };
  cache = tt;
}

abbrev listing_queue : SwapQueue (Request listing)
listing_queue = swap_queue (Request listing)

-- Three clients ask for the users.
users-load_all_example :
    let (calls, l) =
      load_all listing listing_queue
        (tt ∷ tt ∷ tt ∷ [])
        (new_loader listing listing_queue listing_world) in
    (task : PendingAssignment listing listing_queue) × (awaited : Unit {0} → Reply listing)
    × (l.spawned ≡ task ∷ [])
    × AllReturn listing awaited
        (run_handled listing listing_queue
          (backwards (Request listing))
          ((diesel_handler
              (users_types
                (slots (λ _. waiting) got)
                (slots (λ state. state) (λ state. state))
                ℕ_discrete
                from_pool_error
                pooled
                (λ conn. full))
              ℕ
              PoolError
              listing_queue).handle_task
            (users_loader
              (slots (λ _. waiting) got)
              (slots (λ state. state) (λ state. state))
              ℕ_discrete
              from_pool_error
              pooled
              (λ conn. full)
              (backwards (Unit {0})))
            task
            l.queue)
          l.world)
        calls
    × (users awaited
        ≡ users_listed
            (slots (λ _. waiting) got)
            (slots (λ state. state) (λ state. state))
            ℕ_discrete
            from_pool_error
            pooled
            (λ conn. full))
unfolding program
users-load_all_example =
    users-load_all (slots (λ _. waiting) got) (slots (λ state. state) (λ state. state)) ℕ_discrete
      from_pool_error pooled (λ conn. full) listing_queue (backwards (Unit {0}))
      (backwards (Request listing)) (tt ∷ tt ∷ []) (new_loader listing listing_queue listing_world)
      refl refl

abbrev bookmarking : Runtime
bookmarking =
    bookmark_runtime (slots (λ _. waiting) got) (slots (λ state. state) (λ state. state)) ℕ_discrete
      from_pool_error pooled (λ conn. full)

-- Two requests for the bookmarks of one user.
abbrev asked : LoadBatch bookmarking
asked = record { requests = oneshot 2 0 none ∷ oneshot 2 1 none ∷ [] }

user_bookmarks-diesel_reply_example :
    let awaited =
      diesel_reply
        (bookmark_types
          (slots (λ _. waiting) got)
          (slots (λ state. state) (λ state. state))
          ℕ_discrete
          from_pool_error
          pooled
          (λ conn. full))
        ℕ
        PoolError
        (bookmark_loader
          (slots (λ _. waiting) got)
          (slots (λ state. state) (λ state. state))
          ℕ_discrete
          from_pool_error
          pooled
          (λ conn. full)
          (backwards ℕ))
        (keys bookmarking (backwards ℕ) asked) in
    (user_bookmarks awaited 2 ≡ ok (bookmarks_of ℕ_discrete bookmark_rows 2))
    × (bookmarks awaited (user 2) ≡ ok (bookmarks_of ℕ_discrete bookmark_rows 2))
unfolding key
user_bookmarks-diesel_reply_example =
    user_bookmarks-diesel_reply (slots (λ _. waiting) got) (slots (λ state. state) (λ state. state))
      ℕ_discrete from_pool_error pooled (λ conn. full) (backwards ℕ) asked (oneshot 2 0 none) 7 100
      full-GroupsBy refl refl (Memᴰ.head refl)
