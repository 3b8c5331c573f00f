-- ===== src/Tests/Parts.antt =====
-- The theorems on single operations, at concrete inputs.
use Prim.Native.Nat.{min}
use channel_loader_rs.Base.{
  ℕ, zero, suc, ite, ◌≤◌, ◌≡◌, refl, false, [], ◌∷◌, ◌++◌, Option, none, some, ok, arith, Memᴰ,
  Permᴰ, ℕ_discrete, count, HashMap,
}
use channel_loader_rs.Request.{World, Request, oneshot, watch, new_watch, resolve}
use channel_loader_rs.Request.Answer.{Tx-discrete, tx, oneshot_tx, answer, is_closed}
use channel_loader_rs.Request.Receive.{returns, waits, recv_watch-resolve, recv_watch}
use channel_loader_rs.Task.{TaskAssignment, LoadBatch, run_job, keys, apply_partial_results}
use channel_loader_rs.Task.ForEach.{senders}
use channel_loader_rs.Task.Resolve.{reply_to, run_job-answer}
use channel_loader_rs.Task.Partial.{assigned, apply_partial_results-found}
use channel_loader_rs.Task.Keys.{count-keys}
use channel_loader_rs.Context.{Found, Shared, get_or_create, get_or_create-Shared}
use channel_loader_rs.Loader.{DataLoader, new_loader, schedule}
use channel_loader_rs.Loader.Staffed.{Staffed, busy, queued, new_loader-Staffed}
use channel_loader_rs.Loader.Schedule.{queued-schedule}
use channel_loader_rs.Tests.Instances.{runtime, empty, backwards, concurrent_map}
use channel_loader_rs.Tests.Loads.{program, queue, two_calls, task, requests, job}

-- Two requests that wait, in the channels that their calls made.
abbrev waiting_world : World runtime
waiting_world = two_calls.world

abbrev batch : LoadBatch runtime
batch = record { requests = requests }

abbrev second : Request runtime
second = oneshot 3 1 none

second_once : senders runtime (oneshot_tx 1) requests ≤ 1
unfolding senders Tx-discrete tx program
second_once = omega arith

second_open : is_closed runtime waiting_world (oneshot_tx 1) ≡ false
unfolding is_closed program
second_open = refl

run_job-answer_example :
    answer runtime (run_job runtime (backwards (Request runtime)) job waiting_world) (oneshot_tx 1)
    ≡ some (ok (some 2))
unfolding tx program reply_to
run_job-answer_example =
    run_job-answer runtime (backwards (Request runtime)) job waiting_world second
      (Memᴰ.tail (Memᴰ.head refl)) second_once second_open

-- Redis holds a value for one of the two keys.
abbrev cached : HashMap ℕ ℕ
cached = (3, 30) ∷ []

abbrev partial : TaskAssignment runtime × World runtime
partial = apply_partial_results runtime (backwards (Request runtime)) batch cached waiting_world

apply_partial_results-found_example :
    (answer runtime partial.1 (oneshot_tx 1) ≡ some (ok (some 30)))
    × (senders runtime (oneshot_tx 1) (assigned partial.0) ≡ 0)
unfolding tx program
apply_partial_results-found_example =
    apply_partial_results-found runtime cached (backwards (Request runtime)) batch waiting_world
      second refl (Memᴰ.tail (Memᴰ.head refl)) second_once second_open

abbrev first : Request runtime
first = oneshot 2 0 none

first_once : senders runtime (oneshot_tx 0) requests ≤ 1
unfolding senders Tx-discrete tx program
first_once = omega arith

abbrev fresh : DataLoader runtime queue
fresh = new_loader runtime queue waiting_world

queued-schedule_example :
    Permᴰ
      (queued runtime queue (schedule runtime queue requests fresh))
      (queued runtime queue fresh ++ requests)
queued-schedule_example =
    queued-schedule runtime queue requests fresh (new_loader-Staffed runtime queue waiting_world)

two_calls-Staffed : Staffed runtime queue two_calls.loader
unfolding program
two_calls-Staffed = busy task refl refl

-- Three requests for two keys: the loader is asked for each key once.
count-keys_example :
    count ℕ_discrete 2
      (keys runtime (backwards ℕ) (record { requests = oneshot 2 2 none ∷ requests }))
    ≡ min 1 2
unfolding program
count-keys_example =
    count-keys runtime (backwards ℕ) (record { requests = oneshot 2 2 none ∷ requests }) 2

-- Another thread stores a receiver for the key between the lookup and the insertion.
abbrev overtaking : ℕ → (ℕ → Option ℕ) → ℕ → Option ℕ
overtaking zero m j = m j
overtaking (suc i) m j = elim (m j) [
  | some rx ↦ some rx
  | none ↦ ite (ℕ_discrete j 7) (some 42) none
]

overtaking_adds : (i : ℕ) (m : ℕ → Option ℕ) (k rx : ℕ) → m k ≡ some rx → overtaking i m k ≡ some rx
overtaking_adds zero m k rx e = e
overtaking_adds (suc i) m k rx e = ground arith

get_or_create-Shared_example :
    (f : Found runtime (concurrent_map ℕ)) × (get_or_create runtime
        (concurrent_map ℕ)
        overtaking
        2
        0
        7
        (λ _. none)
        empty
      ≡ some f)
    × Shared runtime (concurrent_map ℕ) 7 empty f
get_or_create-Shared_example =
    get_or_create-Shared runtime (concurrent_map ℕ) overtaking 0 0 7 (λ _. none) empty
      overtaking_adds

recv_watch-resolve_example :
    (recv_watch runtime 0 (new_watch runtime 5 empty).1 [] ≡ waits)
    × (recv_watch runtime 0
          (new_watch runtime 5 empty).1
          (ok (resolve runtime (watch 5 0 none) (ok none) (new_watch runtime 5 empty).1) ∷ [])
        ≡ returns (ok none))
    × (recv_watch runtime 0
          (resolve runtime (watch 5 0 none) (ok none) (new_watch runtime 5 empty).1)
          []
        ≡ returns (ok none))
unfolding program
recv_watch-resolve_example = recv_watch-resolve runtime 5 (ok none) empty
