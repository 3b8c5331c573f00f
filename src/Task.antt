-- ===== src/Task.antt =====
-- deque-loader/src/task.rs: the stages of a load task. `Task<T>` is only a wrapper and is left out.
pub mod Keys
pub mod ForEach
pub mod Resolve
pub mod Partial
use channel_loader_rs.Base.{
  List, [], ◌∷◌, ◌++◌, map, none, some, Result, ok, err, HashMap, get, hash_set,
}
use channel_loader_rs.External.{SwapQueue, Order}
use channel_loader_rs.Request.{Runtime, World, Request, key, resolve}

pub record PendingAssignment (r : Runtime) (q : SwapQueue (Request r)) : Type 0 where
  pub stealer : q.Stealer
  pub requests : List (Request r)

pub record LoadBatch (r : Runtime) : Type 0 where
  pub requests : List (Request r)

pub data CompletionReceipt : Type 0 where
  completion_receipt : CompletionReceipt

pub data TaskAssignment (r : Runtime) : Type 0 where
  load_batch : LoadBatch r → TaskAssignment r
  no_assignment : CompletionReceipt → TaskAssignment r

-- What `Task::resolve` hands to `rayon::spawn`.
pub record ResolveJob (r : Runtime) : Type 0 where
  pub requests : List (Request r)
  pub results : Result (HashMap r.Key r.Value) r.Error

module _ (r : Runtime) where
  unfoldable pub from_requests : List (Request r) → LoadBatch r
  from_requests requests = record { requests = requests }

  -- The keys pass through a HashSet, whose iteration order is `order`.
  unfoldable pub keys : Order r.Key → LoadBatch r → List r.Key
  keys order batch = order.visit (hash_set r.Key-discrete (map (key r) batch.requests))

  -- `into_par_iter().for_each(…)`: the closures run one after another in some order.
  unfoldable pub for_each : (Request r → World r → World r) → List (Request r) → World r → World r
  for_each f [] w = w
  for_each f (req ∷ reqs) w = for_each f reqs (f req w)

  unfoldable pub resolve_job :
      LoadBatch r → Result (HashMap r.Key r.Value) r.Error → CompletionReceipt × ResolveJob r
  resolve_job batch results =
      (completion_receipt, record { requests = batch.requests; results = results })

  unfoldable pub run_job : Order (Request r) → ResolveJob r → World r → World r
  run_job order job = elim job.results [
    | ok values ↦
        for_each (λ req. resolve r req (ok (get r.Key-discrete values (key r req))))
          (order.visit job.requests)
    | err e ↦ for_each (λ req. resolve r req (err e)) (order.visit job.requests)
  ]

  -- The results of a partial load: a request whose key was found is resolved, and others are kept.
  unfoldable pub resolve_found : HashMap r.Key r.Value → Request r → World r → World r
  resolve_found results req w = elim (get r.Key-discrete results (key r req)) [
    | some value ↦ resolve r req (ok (some value)) w
    | none ↦ w
  ]

  unfoldable pub not_found : HashMap r.Key r.Value → List (Request r) → List (Request r)
  not_found results [] = []
  not_found results (req ∷ reqs) =
      let rest = not_found results reqs in
      elim (get r.Key-discrete results (key r req)) [ some value ↦ rest | none ↦ req ∷ rest ]

  abbrev pub assign_rest : List (Request r) → TaskAssignment r
  assign_rest [] = no_assignment completion_receipt
  assign_rest (req ∷ reqs) = load_batch (record { requests = req ∷ reqs })

  unfoldable pub apply_partial_results :
      Order (Request r) → LoadBatch r → HashMap r.Key r.Value → World r → TaskAssignment r × World r
  apply_partial_results order batch results w = (
    assign_rest (not_found results batch.requests),
    for_each (resolve_found results) (order.visit batch.requests) w,
  )

module _ (r : Runtime) (q : SwapQueue (Request r)) where
  unfoldable pub new_task : q.Stealer → PendingAssignment r q
  new_task stealer = record { stealer = stealer; requests = [] }

  unfoldable pub get_assignment : PendingAssignment r q → q.Worker → TaskAssignment r × q.Worker
  unfolding from_requests
  get_assignment task worker =
      let (batch, worker') = q.take task.stealer worker in
      (load_batch (from_requests r (task.requests ++ batch)), worker')
