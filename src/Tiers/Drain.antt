-- ===== src/Tiers/Drain.antt =====
-- The two loaders come to rest, and then every caller that stayed has its reply.
use mathlib.Core.List.Memᴰ
use channel_loader_rs.Base.{
  ℕ, zero, suc, ◌+◌, ◌≤◌, ◌≡◌, refl, ◌∙◌, sym, ap, subst, ◌⊎◌, inl, inr, true, false, List, [],
  some, arith, Memᴰ,
}
use channel_loader_rs.External.{SwapQueue, ConcurrentMap}
use channel_loader_rs.External.Redis.{Text, Bytes}
use channel_loader_rs.Request.{Runtime, Reply, World, Request, key, new_oneshot}
use channel_loader_rs.Request.Answer.{Tx, oneshot_tx, tx, answer, is_closed}
use channel_loader_rs.Request.Create.{Created, new_oneshot-Created}
use channel_loader_rs.Request.Receive.{recv_oneshot, returns, recv_oneshot-answer}
use channel_loader_rs.Loader.{load_by}
use channel_loader_rs.Loader.Staffed.{Staffed, idle, busy, queued, carried, Staffed-world}
use channel_loader_rs.Loader.Schedule.{queued-enqueue}
use channel_loader_rs.Handler.{TaskHandler}
use channel_loader_rs.System.Drain.{idle-held, is_closed-Work}
use channel_loader_rs.Tickets.{ticket, waiting, gone, answered}
use channel_loader_rs.Redis.Cache.Lookup.{is_closed-looked_up}
use channel_loader_rs.Tiers.{
  Redises, tiers_runtime, State, front, with_front, Act, take, finish, below, Reach, act, load,
}
use channel_loader_rs.Tiers.Invariant.{looked_up_requests, above, Source, Inv}
use channel_loader_rs.Tiers.Steps.{tiers_Reach-Inv}
use channel_loader_rs.Tiers.Progress.{
  tiers_work_left, work_left-Act, Acts, done, then, work_left-Acts, AtRest, Answers, AllGive,
  all_done, all_then, tiers_progress,
}

module _ (t : Runtime) (wq : SwapQueue (Text × Bytes)) where
  abbrev r : Runtime
  r = tiers_runtime t wq

  module _ (q d : SwapQueue (Request r)) (redises : Redises t) (h : TaskHandler r d) where
    -- A run that is answered so far goes on to rest.
    drain-Acts :
        (answers : ℕ → Answers t wq q d redises h) (fuel : ℕ) {n : ℕ} {s u : State t wq q d}
        (acts : Acts t wq q d redises h s n u)
        → AllGive t wq q d redises h answers n u acts
        → tiers_work_left t wq q d redises h u ≤ fuel
        → (m : ℕ) × (v : State t wq q d) × (more : Acts t wq q d redises h s m v) × AllGive t wq q d
            redises h answers m v more
          × AtRest t wq q d redises h v
    drain-Acts answers zero {n} {u = u} acts all bound =
        elim (tiers_progress t wq q d redises h (answers n) u) [
          | inl rest ↦ (n, u, acts, all, rest)
          | inr (v, a, given) ↦ absurd (omega (arith, work_left-Act t wq q d redises h a))
        ]
    drain-Acts answers (suc fuel) {n} {u = u} acts all bound =
        elim (tiers_progress t wq q d redises h (answers n) u) [
          | inl rest ↦ (n, u, acts, all, rest)
          | inr (v, a, given) ↦
              drain-Acts answers fuel (then acts a) (all_then all given)
                (omega (arith, work_left-Act t wq q d redises h a))
        ]

    -- In a cache's loader and the data store's loader, every run of the program's own steps from
    -- any state can be continued to a state with no pending task, look-up or job, and the run and
    -- its continuation together have at most four steps for each task of the cache's loader,
    -- three for each look-up, two for each task of the data store and one for each job that there
    -- was at the start. So it is for any prescribed answers: each step of the continuation takes
    -- the answer of Redis, the results of the load and the orders that were prescribed for a step
    -- at its place.
    pub tiers_drain :
        (answers : ℕ → Answers t wq q d redises h) {n : ℕ} (s u : State t wq q d)
        → Acts t wq q d redises h s n u
        → (m : ℕ) × (v : State t wq q d) × (more : Acts t wq q d redises h u m v) × AllGive t wq q d
            redises h answers m v more
          × AtRest t wq q d redises h v
          × (n + m ≤ tiers_work_left t wq q d redises h s)
    tiers_drain answers {n} s u acts =
        let (m, v, more, all, rest) =
          drain-Acts answers (tiers_work_left t wq q d redises h u) {s = u} done all_done
            (omega arith) in
        (
          m,
          v,
          more,
          all,
          rest,
          omega (
            arith,
            work_left-Acts t wq q d redises h acts,
            work_left-Acts t wq q d redises h more,
          ),
        )

    is_closed-Act :
        {s u : State t wq q d}
        → Act t wq q d redises h s u
        → (x : Tx r) → is_closed r u.store.world x ≡ is_closed r s.store.world x
    is_closed-Act (take before after task e) x = refl
    is_closed-Act {s} (finish time order visit before after batch e) x =
        is_closed-looked_up t wq (redises.at time) d order visit batch s.store.loader x
    is_closed-Act (below step) x = is_closed-Work r d h step x

    is_closed-Acts :
        {s u : State t wq q d} {n : ℕ}
        → Acts t wq q d redises h s n u
        → (x : Tx r) → is_closed r u.store.world x ≡ is_closed r s.store.world x
    is_closed-Acts done x = refl
    is_closed-Acts (then acts a) x = is_closed-Act a x ∙ is_closed-Acts acts x

    rest-above :
        (s : State t wq q d)
        → Staffed r q (front s)
        → AtRest t wq q d redises h s
        → above t wq q d s ≡ []
    unfolding above queued carried looked_up_requests
    rest-above s (idle out empty none_spawned) (e, f, rest) = rw (e, f, empty) refl
    rest-above s (busy task waits one) (e, f, rest) = absurd (cc)

    module _ (c : ConcurrentMap t.Key t.watch.Handle) where
      -- Every request has its answer, or its channel is closed, once nothing is left to do.
      pub tiers_settled :
          {log : List (Request r)} {s : State t wq q d}
          → Reach t wq q d redises h c log s
          → AtRest t wq q d redises h s
          → (req : Request r) → Memᴰ req log
          → (is_closed r s.store.world (tx r req) ≡ true)
            ⊎ ((v : Reply r) × (answer r s.store.world (tx r req) ≡ some v)
                × Source t wq q d redises h (key r req) v)
      tiers_settled {log} {s} p rest req m =
          elim (inv.ledger.outcome (ticket req) (Memᴰ.map ticket m)) [
            | waiting held_here ↦ absurd (
                Memᴰ.not-nil (
                  rw
                    (
                      rest-above s inv.front_staffed rest,
                      idle-held r d h s.store inv.store_staffed rest.2,
                    )
                    at held_here))
            | gone shut ↦ inl shut
            | answered v a good ↦ inr (v, a, good)
          ]
        where
          inv : Inv t wq q d redises h log s
          inv = tiers_Reach-Inv t wq q d redises h c p

      Reach-Acts :
          {log : List (Request r)} {s u : State t wq q d} {n : ℕ}
          → Reach t wq q d redises h c log s
          → Acts t wq q d redises h s n u
          → Reach t wq q d redises h c log u
      Reach-Acts p done = p
      Reach-Acts p (then acts a) = act (Reach-Acts p acts) a

      -- After a call of `load_by` on a loader with the Redis cache in front, in any reachable
      -- state of the cache's loader and the data store's loader, whenever a run of the program's
      -- own steps (tasks of both loaders, look-ups in Redis with any of the answers that Redis
      -- gives at its times, failures included, and rayon jobs, in any order, no caller leaving
      -- meanwhile) has come to rest, the receiver that the call returned gives a reply, and the
      -- reply is the value that a look-up of keys with the call's key, with what Redis gives at
      -- one of those times, found for that key, or what a load of the data store that was asked
      -- for the key gave for it.
      pub tiers_load_by-returns :
          {log : List (Request r)} {s : State t wq q d}
          → Reach t wq q d redises h c log s
          → (k : t.Key) {n : ℕ} (u : State t wq q d)
          → Acts t wq q d redises h (with_front s (load_by r q k (front s)).1) n u
          → AtRest t wq q d redises h u
          → (v : Reply r) × (recv_oneshot r u.store.world (load_by r q k (front s)).0 ≡ returns v)
            × Source t wq q d redises h k v
      unfolding load_by
      tiers_load_by-returns {log} {s} p k u acts rest =
          elim (tiers_settled (Reach-Acts (load p k) acts) rest req (Memᴰ.head refl)) [
            | inl shut ↦ absurd (cc (sym shut ∙ still_open))
            | inr (v, a, good) ↦ (
              v,
              recv_oneshot-answer r u.store.world rx v
                  (subst (λ x. answer r u.store.world x ≡ some v) same a),
              subst (λ j. Source t wq q d redises h j v) created.keyed good,
            )
          ]
        where
          req : Request r
          req = (new_oneshot r k s.store.world).0.0

          rx : t.oneshot.Handle
          rx = (new_oneshot r k s.store.world).0.1

          w : World r
          w = (new_oneshot r k s.store.world).1

          created : Created r k s.store.world req w
          created = (new_oneshot-Created r k s.store.world).0

          same : tx r req ≡ oneshot_tx rx
          same = (new_oneshot-Created r k s.store.world).1

          still_open : is_closed r u.store.world (tx r req) ≡ false
          still_open =
              is_closed-Acts acts (tx r req)
              ∙ ap (λ x. is_closed r x (tx r req))
                  (queued-enqueue r q req (record (front s) { world = w })
                    (Staffed-world r q (front s) w
                      (tiers_Reach-Inv t wq q d redises h c p).front_staffed)).1
              ∙ created.opened
