-- ===== src/Loader.antt =====
-- deque-loader/src/loader.rs: the thread-local owner of a queue, which spawns the tasks that empty it.
pub mod Staffed
pub mod Schedule
pub mod Together
pub mod Shared
pub mod Contexts
use channel_loader_rs.Base.{ℕ, List, [], ◌∷◌, ◌++◌, Option, none, some}
use channel_loader_rs.External.{SwapQueue, ConcurrentMap}
use channel_loader_rs.Request.{Runtime, World, Request, new_oneshot}
use channel_loader_rs.Task.{
  PendingAssignment, LoadBatch, CompletionReceipt, completion_receipt, new_task,
}
use channel_loader_rs.Context.{Found, get_or_create}

-- A DataLoader with what it acts on: the channels, and the tasks spawned on tokio that have not
-- started, oldest first.
pub record DataLoader (r : Runtime) (q : SwapQueue (Request r)) : Type 0 where
  pub world : World r
  pub queue : q.Worker
  pub spawned : List (PendingAssignment r q)

module _ (r : Runtime) (q : SwapQueue (Request r)) where
  -- `DataLoader::default()`
  unfoldable pub new_loader : World r → DataLoader r q
  new_loader w = record { world = w; queue = q.new; spawned = [] }

  -- `tokio::task::spawn`
  unfoldable pub spawn : PendingAssignment r q → DataLoader r q → DataLoader r q
  spawn task l = record l { spawned = l.spawned ++ task ∷ [] }

  -- `if let Some(stealer) = self.queue.push(req) { … }`
  unfoldable pub enqueue : Request r → DataLoader r q → DataLoader r q
  unfolding spawn new_task
  enqueue req l =
      let (pushed, queue') = q.push req l.queue in
      elim pushed [
        | some stealer ↦ spawn (new_task r q stealer) (record l { queue = queue' })
        | none ↦ record l { queue = queue' }
      ]

  unfoldable pub load_by : r.Key → DataLoader r q → r.oneshot.Handle × DataLoader r q
  load_by key l =
      let ((req, rx), w') = new_oneshot r key l.world in (rx, enqueue req (record l { world = w' }))

  -- A request is pushed only if this call made it.
  abbrev pub enqueue_made : Option (Request r) → DataLoader r q → DataLoader r q
  enqueue_made none l = l
  enqueue_made (some req) l = enqueue req l

  unfoldable pub cached_load_by :
      (c : ConcurrentMap r.Key r.watch.Handle)
      → (ℕ → c.Map → c.Map)
      → ℕ
      → r.Key
      → c.Map
      → DataLoader r q
      → Option (r.watch.Handle × c.Map × DataLoader r q)
  cached_load_by c others fuel key m l = elim (get_or_create r c others fuel 0 key m l.world) [
    | none ↦ none
    | some f ↦ some (f.rx, f.map, enqueue_made f.request (record l { world = f.world }))
  ]

  -- The loop of `schedule_assignment`: it stops at the first push that starts a batch, and that
  -- batch's task keeps the requests that were not pushed.
  unfoldable pub schedule : List (Request r) → DataLoader r q → DataLoader r q
  unfolding spawn
  schedule [] l = l
  schedule (req ∷ requests) l =
      let (pushed, queue') = q.push req l.queue in
      elim pushed [
        | some stealer ↦
            spawn (record { stealer = stealer; requests = requests }) (record l { queue = queue' })
        | none ↦ schedule requests (record l { queue = queue' })
      ]

  unfoldable pub schedule_assignment :
      LoadBatch r → DataLoader r q → CompletionReceipt × DataLoader r q
  schedule_assignment batch l = (completion_receipt, schedule batch.requests l)
