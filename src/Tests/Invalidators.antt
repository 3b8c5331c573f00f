-- ===== src/Tests/Invalidators.antt =====
-- The theorems on the cache invalidator, at concrete inputs.
use channel_loader_rs.Base.{ℕ, ◌≡◌, refl, [], ◌∷◌, ok, Bool, true, arith, ℕ_discrete}
use channel_loader_rs.Redis.Connection.{
  connected, ConnectionManager, round, establish_connection, connect, store,
}
use channel_loader_rs.Redis.Invalidator.{
  forwarding, panicked, panic, invalidate_cache, invalidate_keys, Invalidator, dials,
  establish_invalidator, tell, dialed, load, swap, dial, announce, listen, message, Reach, start,
  step,
}
use channel_loader_rs.Redis.Invalidator.Fits.{Fits}
use channel_loader_rs.Redis.Invalidator.Tasks.{Reach-Fits}
use channel_loader_rs.Redis.Invalidator.Told.{Told}
use channel_loader_rs.Redis.Invalidator.Panic.{Later, now, next, Later-panicked}
use channel_loader_rs.Redis.Invalidator.History.{Reach-Told}

abbrev always : ℕ → Bool
always kind = true

-- A connection with client id 7 forwards a message, and has told the first of the two observers.
abbrev forwarded : Invalidator ℕ ℕ ℕ
forwarded = record {
  manager = record { state = connected 7; version = 2; attempts = 1; wakes = 1 };
  seen = [];
  tasks = forwarding 7 (4 ∷ 5 ∷ []) 1 ∷ [];
  calls = invalidate_cache 0 ∷ invalidate_cache 1 ∷ invalidate_keys 0 (4 ∷ 5 ∷ []) ∷ [];
}

forwarded_reached : Reach always (ok tt) 2 forwarded
unfolding round establish_invalidator establish_connection connect store dials dialed ℕ_discrete
forwarded_reached =
    let dialed_it =
      step (step (step start (load 0 refl)) (swap [] [] 0 refl)) (dial [] [] (ok 7) refl) in
    let announced =
      step (step dialed_it (announce [] [] 7 0 refl (omega arith)))
        (announce [] [] 7 1 refl (omega arith)) in
    step (step (step announced (listen [] [] 7 refl)) (message [] [] 7 (4 ∷ 5 ∷ []) refl))
      (tell [] [] 7 (4 ∷ 5 ∷ []) 0 refl (omega arith))

Reach-Fits_example : Fits forwarded.manager.state forwarded.tasks
Reach-Fits_example = Reach-Fits always (ok tt) 2 forwarded forwarded_reached

Reach-Told_example : Told 2 forwarded.calls forwarded.tasks
Reach-Told_example = Reach-Told always (ok tt) 2 forwarded forwarded_reached

-- The message cannot be decoded, and another caller still has the first state.
abbrev broken : Invalidator ℕ ℕ ℕ
broken = record {
  manager = record { state = connected 7; version = 2; attempts = 1; wakes = 1 };
  seen = 0 ∷ [];
  tasks = panicked 7 ∷ [];
  calls = invalidate_cache 0 ∷ [];
}

broken_reached : Reach always (ok tt) 1 broken
unfolding round establish_invalidator establish_connection connect store dials dialed ℕ_discrete
broken_reached =
    let called = step (step (step start (load 0 refl)) (load 0 refl)) (swap [] (0 ∷ []) 0 refl) in
    let announced =
      step (step called (dial [] [] (ok 7) refl)) (announce [] [] 7 0 refl (omega arith)) in
    step (step announced (listen [] [] 7 refl)) (panic [] [] 7 refl)

broken_later :
    Later always (ok tt) 1 broken (establish_invalidator (ok tt) 0 (record broken { seen = [] }))
broken_later = next now (swap [] [] 0 refl)

Later-panicked_example :
    (broken.manager.state ≡ connected 7)
    × ((establish_invalidator (ok tt) 0 (record broken { seen = [] })).manager ≡ broken.manager)
    × ((establish_invalidator (ok tt) 0 (record broken { seen = [] })).calls ≡ broken.calls)
Later-panicked_example =
    Later-panicked always (ok tt) 1 broken
      (establish_invalidator (ok tt) 0 (record broken { seen = [] })) 7 broken_reached refl
      broken_later

abbrev up : ℕ → ConnectionManager ℕ ℕ → ConnectionManager ℕ ℕ
up i m = record m { state = connected 7 }
