-- ===== src/Loader/Schedule.antt =====
-- Pushing and rescheduling move requests into the queue and its task, and lose none.
use mathlib.Core.List.Permᴰ
use mathlib.Core.List.{append_assoc, append-nil}
use channel_loader_rs.Base.{
  ◌≡◌, refl, List, [], ◌∷◌, ◌++◌, arith, Permᴰ, sym, ◌∙◌, single_split, nil_split, Option-cases,
  inl, inr, length, length-append, ◌+◌, ◌≤◌,
}
use channel_loader_rs.External.{SwapQueue}
use channel_loader_rs.Request.{Runtime, World, Request}
use channel_loader_rs.Task.{PendingAssignment}
use channel_loader_rs.Loader.{DataLoader, enqueue, schedule, spawn}
use channel_loader_rs.Loader.Staffed.{
  Staffed, idle, busy, carried, queued, schedule-cons_none, schedule-cons_some, schedule-nil,
  schedule-Staffed,
}

module _ (r : Runtime) (q : SwapQueue (Request r)) where
  -- `load_by` pushes as `schedule_assignment` pushes a single request.
  pub enqueue-schedule :
      (req : Request r) (l : DataLoader r q) → enqueue r q req l ≡ schedule r q (req ∷ []) l
  unfolding enqueue schedule
  enqueue-schedule req l = ground arith

  pub world-schedule :
      (reqs : List (Request r)) (l : DataLoader r q) → (schedule r q reqs l).world ≡ l.world
  unfolding schedule
  world-schedule [] l = refl
  world-schedule (req ∷ rest) l =
      ground (arith, world-schedule rest (record l { queue = (q.push req l.queue).1 }))

  queued-idle : (l : DataLoader r q) → q.buffer l.queue ≡ [] → l.spawned ≡ [] → queued r q l ≡ []
  unfolding queued carried
  queued-idle l empty none_spawned = rw (none_spawned, empty)

  -- Rescheduling requests on a loader whose queue and tasks fit together (a batch that waits has
  -- exactly one pending task) loses, adds and doubles none: the queue and the pending tasks then
  -- hold a permutation of what they held before and the requests given.
  pub queued-schedule :
      (reqs : List (Request r)) (l : DataLoader r q)
      → Staffed r q l
      → Permᴰ (queued r q (schedule r q reqs l)) (queued r q l ++ reqs)
  unfolding queued
  queued-schedule [] l st = rw (schedule-nil r q l) (Permᴰ.symm (Permᴰ.append-nil _))
  queued-schedule (req ∷ rest) l (idle out empty none_spawned) =
      let (s, gave, waits, held) = q.push_first req l.queue out in
      rw (schedule-cons_some r q l req rest gave, none_spawned, empty, held)
        (unfold carried in
          Permᴰ.trans (Permᴰ.append_right (req ∷ []) (Permᴰ.append-nil rest))
            (Permᴰ.trans (Permᴰ.middle req rest []) (Permᴰ.cons refl (Permᴰ.append-nil rest))))
  queued-schedule (req ∷ rest) l (busy task waits one) =
      let (gave, waits', held) = q.push_more req l.queue task.stealer waits in
      rw (schedule-cons_none r q l req rest waits) (
        Permᴰ.trans (queued-schedule rest _ (busy task waits' one))
          (rw held (simp append_assoc (Permᴰ.refl _))))

  -- A request that is pushed is queued, and nothing else changes.
  pub queued-enqueue :
      (req : Request r) (l : DataLoader r q)
      → Staffed r q l
      → Staffed r q (enqueue r q req l)
        × ((enqueue r q req l).world ≡ l.world)
        × Permᴰ (queued r q (enqueue r q req l)) (req ∷ queued r q l)
  queued-enqueue req l st = rw (enqueue-schedule req l) (
    schedule-Staffed r q (req ∷ []) l st,
    world-schedule (req ∷ []) l,
    Permᴰ.trans (queued-schedule (req ∷ []) l st) (
        Permᴰ.trans (Permᴰ.middle req (queued r q l) [])
          (Permᴰ.cons refl (Permᴰ.append-nil (queued r q l)))),
  )

  -- The task of the batch takes all that is queued, and leaves the queue idle.
  pub take-Staffed :
      (l : DataLoader r q) (before after : List (PendingAssignment r q))
      (task : PendingAssignment r q) (w : World r)
      → Staffed r q l
      → l.spawned ≡ before ++ task ∷ after
      → Staffed r q
          (record { world = w; queue = (q.take task.stealer l.queue).1; spawned = before ++ after })
        × (queued r q (record {
          world = w;
          queue = (q.take task.stealer l.queue).1;
          spawned = before ++ after;
        })
            ≡ [])
        × (queued r q l ≡ task.requests ++ (q.take task.stealer l.queue).0)
  unfolding queued carried
  take-Staffed l before after task w (idle out empty none_spawned) e =
      absurd (nil_split task before after (sym none_spawned ∙ e))
  take-Staffed l before after task w (busy task' waits one) e =
      let (b, a, same) = single_split before after (sym one ∙ e) in
      let gone : before ++ after ≡ [] = rw (b, a) in
      let (took, out, empty) = q.take_lem l.queue task.stealer (rw (← same) waits) in
      (idle out empty gone, rw (gone, empty), rw (one, same, took) (simp append-nil refl))

  -- Rescheduling spawns at most one task.
  pub length-schedule :
      (reqs : List (Request r)) (l : DataLoader r q)
      → length (schedule r q reqs l).spawned ≤ 1 + length l.spawned
  unfolding schedule spawn
  length-schedule [] l = omega arith
  length-schedule (req ∷ rest) l = elim (Option-cases (q.push req l.queue).0) [
    | inl kept ↦
        rw (kept, schedule) (length-schedule rest (record l { queue = (q.push req l.queue).1 }))
    | inr (stealer, gave) ↦ rw (schedule-cons_some r q l req rest gave) (
        omega (arith, length-append l.spawned (record { stealer = stealer; requests = rest } ∷ [])))
  ]
