-- ===== src/Loader/Staffed.antt =====
-- The queue and its task: a batch that waits has one spawned task, and no other task is pending.
use channel_loader_rs.Base.{◌≡◌, refl, List, [], ◌∷◌, ◌++◌, none, some}
use channel_loader_rs.External.{SwapQueue}
use channel_loader_rs.Request.{Runtime, World, Request}
use channel_loader_rs.Task.{PendingAssignment}
use channel_loader_rs.Loader.{DataLoader, new_loader, schedule, spawn}

module _ (r : Runtime) (q : SwapQueue (Request r)) where
  -- The requests that pending tasks carry themselves.
  unfoldable pub carried : List (PendingAssignment r q) → List (Request r)
  carried [] = []
  carried (task ∷ tasks) = task.requests ++ carried tasks

  -- All requests that no task has been assigned yet.
  unfoldable pub queued : DataLoader r q → List (Request r)
  unfolding carried
  queued l = carried l.spawned ++ q.buffer l.queue

  -- Either the queue is empty and no task is pending, or exactly one task is, with the stealer
  -- of the batch.
  pub data Staffed (l : DataLoader r q) : Type 0 where
    idle : q.waiting l.queue ≡ none → q.buffer l.queue ≡ [] → l.spawned ≡ [] → Staffed l
    busy :
        (task : PendingAssignment r q)
        → q.waiting l.queue ≡ some task.stealer
        → l.spawned ≡ task ∷ []
        → Staffed l

  pub new_loader-Staffed : (w : World r) → Staffed (new_loader r q w)
  unfolding new_loader
  new_loader-Staffed w = idle q.waiting-new q.buffer-new refl

  pub schedule-nil : (l : DataLoader r q) → schedule r q [] l ≡ l
  unfolding schedule
  schedule-nil l = refl

  pub schedule-cons_none :
      (l : DataLoader r q) (req : Request r) (rest : List (Request r)) {s : q.Stealer}
      → q.waiting l.queue ≡ some s
      → schedule r q (req ∷ rest) l
        ≡ schedule r q rest (record l { queue = (q.push req l.queue).1 })
  unfolding schedule
  schedule-cons_none l req rest {s} e = rw ((q.push_more req l.queue s e).0, schedule)

  pub schedule-cons_some :
      (l : DataLoader r q) (req : Request r) (rest : List (Request r)) {s : q.Stealer}
      → (q.push req l.queue).0 ≡ some s
      → schedule r q (req ∷ rest) l ≡ record l {
        queue = (q.push req l.queue).1;
        spawned = l.spawned ++ (record { stealer = s; requests = rest }) ∷ [];
      }
  unfolding schedule spawn
  schedule-cons_some l req rest e = rw (e, schedule)

  -- Rescheduling requests keeps the fit of queue and tasks: afterwards either the queue is empty
  -- and no task is pending, or exactly one task is pending and it has the stealer of the batch
  -- that waits.
  pub schedule-Staffed :
      (reqs : List (Request r)) (l : DataLoader r q) → Staffed l → Staffed (schedule r q reqs l)
  unfolding schedule
  schedule-Staffed [] l st = st
  schedule-Staffed (req ∷ rest) l (idle out empty none_spawned) =
      let (s, gave, waits, held) = q.push_first req l.queue out in
      rw (schedule-cons_some l req rest gave)
        (busy (record { stealer = s; requests = rest }) waits (rw none_spawned))
  schedule-Staffed (req ∷ rest) l (busy task waits one) =
      let (gave, waits', held) = q.push_more req l.queue task.stealer waits in
      rw (schedule-cons_none l req rest waits) (schedule-Staffed rest _ (busy task waits' one))

  pub Staffed-world :
      (l : DataLoader r q) (w : World r) → Staffed l → Staffed (record l { world = w })
  Staffed-world l w (idle out empty none_spawned) = idle out empty none_spawned
  Staffed-world l w (busy task waits one) = busy task waits one
