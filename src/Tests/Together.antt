-- ===== src/Tests/Together.antt =====
-- The theorems on the calls of one batch, at concrete inputs.
use Prim.Native.Nat.{min}
use channel_loader_rs.Handler.Shared.{AllShare, cached_all-one_batch}
use channel_loader_rs.Loader.Shared.{cached_all}
use channel_loader_rs.Base.{
  ℕ, ◌≤◌, ◌≡◌, refl, length, map, List, [], ◌∷◌, some, ok, ℕ_discrete, count, hash_set,
}
use channel_loader_rs.Loader.Together.{load_all}
use channel_loader_rs.Handler.Together.{AllReturn, loaded_for, load_all-one_batch}
use channel_loader_rs.Handler.Answer.{run_handled, assigned_to}
use channel_loader_rs.Request.{Request, key}
use channel_loader_rs.Task.{PendingAssignment}
use channel_loader_rs.Loader.{new_loader}
use channel_loader_rs.Batch.Sizes.{sized_handler}
use channel_loader_rs.Batch.Sizes.Bounds.{load_all-bounds}
use channel_loader_rs.Tests.Instances.{runtime, empty, backwards, concurrent_map, batch_size_loader}
use channel_loader_rs.Loader.{DataLoader}
use channel_loader_rs.Tests.Loads.{program, queue, handler}

-- Three calls for two keys.
load_all-bounds_example :
    let (calls, l) = load_all runtime queue (2 ∷ 3 ∷ 2 ∷ []) (new_loader runtime queue empty) in
    (task : PendingAssignment runtime queue) × (n : ℕ) × (l.spawned ≡ task ∷ [])
    × (n ≡ length (hash_set ℕ_discrete (2 ∷ 3 ∷ 2 ∷ [])))
    × (1 ≤ n)
    × (n ≤ 3)
    × AllReturn runtime
        (λ key. ok (some n))
        (run_handled runtime queue
          (backwards (Request runtime))
          ((sized_handler runtime (λ n. n) queue).handle_task
            (backwards ℕ, backwards ℕ)
            task
            l.queue)
          l.world)
        calls
unfolding program
load_all-bounds_example =
    load_all-bounds runtime (λ n. n) queue (sized_handler runtime (λ n. n) queue)
      (backwards ℕ, backwards ℕ) (λ ks. refl) (backwards (Request runtime)) 2 (3 ∷ 2 ∷ [])
      (new_loader runtime queue empty) refl refl

load_all-one_batch_example :
    let (calls, l) = load_all runtime queue (2 ∷ 3 ∷ 2 ∷ []) (new_loader runtime queue empty) in
    (task : PendingAssignment runtime queue) × (l.spawned ≡ task ∷ [])
    × (map (key runtime) (assigned_to runtime queue task l.queue) ≡ 2 ∷ 3 ∷ 2 ∷ [])
    × AllReturn runtime
        (loaded_for runtime queue handler batch_size_loader task l.queue)
        (run_handled runtime queue
          (backwards (Request runtime))
          (handler.handle_task batch_size_loader task l.queue)
          l.world)
        calls
unfolding program
load_all-one_batch_example =
    load_all-one_batch runtime queue handler batch_size_loader (backwards (Request runtime)) 2
      (3 ∷ 2 ∷ []) (new_loader runtime queue empty) refl refl

-- Three cached calls for two keys.
cached_all-one_batch_example :
    (calls : List (ℕ × runtime.watch.Handle)) × (m : (concurrent_map ℕ).Map) × (l : DataLoader
      runtime queue)
    × (task : PendingAssignment runtime queue) × (cached_all runtime queue
          (concurrent_map ℕ)
          1
          (2 ∷ 3 ∷ 2 ∷ [])
          (concurrent_map ℕ).new
          (new_loader runtime queue empty)
        ≡ some (calls, m, l))
    × (map (λ call. call.0) calls ≡ 2 ∷ 3 ∷ 2 ∷ [])
    × (l.spawned ≡ task ∷ [])
    × ((j : ℕ)
        → count ℕ_discrete j (map (key runtime) (assigned_to runtime queue task l.queue))
          ≡ min 1 (count ℕ_discrete j (2 ∷ 3 ∷ 2 ∷ [])))
    × AllShare runtime
        (loaded_for runtime queue handler batch_size_loader task l.queue)
        (run_handled runtime queue
          (backwards (Request runtime))
          (handler.handle_task batch_size_loader task l.queue)
          l.world)
        calls
unfolding program
cached_all-one_batch_example =
    cached_all-one_batch runtime queue handler (concurrent_map ℕ) 0 batch_size_loader
      (backwards (Request runtime)) 2 (3 ∷ 2 ∷ []) (new_loader runtime queue empty) refl refl
