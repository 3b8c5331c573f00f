-- ===== src/Tests/Machines.antt =====
-- The theorems on a connection manager with its callers, at concrete inputs.
use channel_loader_rs.Base.{ℕ, suc, ◌≡◌, refl, Bool, true, [], ◌∷◌, ok, err, ℕ_discrete}
use channel_loader_rs.Redis.Connection.{
  connecting, connected, round, establish_connection, connect, store,
}
use channel_loader_rs.Redis.Connection.Machine.{
  Machine, turning, waiting, after_load, settle, joined, Step, arrive, load, swap, Reach, start,
  step,
}
use channel_loader_rs.Redis.Connection.Machine.Pending.{waiters, joined-no_waiting}
use channel_loader_rs.Redis.Connection.Machine.Missed.{Reach-misses}

abbrev always : ℕ → Bool
always kind = true

-- One caller has begun an attempt, and has loaded Connecting.
abbrev turned : Machine ℕ ℕ
turned = record {
  manager = record { state = connecting; version = 1; attempts = 1; wakes = 0 };
  callers = turning 1 ∷ [];
  joining = 1;
  redirecting = 0;
}

turned_reached : Reach always (ok tt) turned
unfolding round after_load settle establish_connection connect store ℕ_discrete
turned_reached =
    step (step (step (step start arrive) (load [] [] 0 refl)) (swap [] [] 0 0 refl))
      (load [] [] 1 refl)

joined-no_waiting_example :
    (n : ℕ) × (1 ≡ suc n)
    × Step always (ok tt) turned (joined (err 7) (record turned { joining = n }))
    × (waiters (joined (err 7) (record turned { joining = n })).callers ≡ 0)
joined-no_waiting_example = joined-no_waiting (ok tt) always turned turned_reached refl (err 7)

Reach-misses_example :
    (u : Machine ℕ ℕ) × Reach always (ok tt) u
    × (u.manager.state ≡ connected 5)
    × (u.joining ≡ 0)
    × (u.redirecting ≡ 0)
    × (u.callers ≡ waiting 1 ∷ [])
Reach-misses_example = Reach-misses always (ok tt) turned turned_reached [] [] 1 0 refl refl 5
