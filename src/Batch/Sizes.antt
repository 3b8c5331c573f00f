-- ===== src/Batch/Sizes.antt =====
-- The loaders that tell each caller the size of its batch: `BatchSizeLoader` of the tests of
-- deque-loader/src/batch.rs, and the handler `BatchLoader` of the tests of deque-loader/src/loadable.rs.
pub mod Bounds
use channel_loader_rs.Base.{
  ℕ, ◌≡◌, refl, ◌∙◌, sym, ap, List, [], ◌∷◌, ◌++◌, map, some, none, Result, ok, HashMap, extend,
  zip, length, length-perm,
}
use channel_loader_rs.External.{SwapQueue, Order}
use channel_loader_rs.Request.{Runtime, Request}
use channel_loader_rs.Task.{
  PendingAssignment, LoadBatch, load_batch, no_assignment, completion_receipt, keys, resolve_job,
  get_assignment,
}
use channel_loader_rs.Handler.{Handled, TaskHandler}

-- `size` is the constructor `BatchSize`.
module _ (r : Runtime) (size : ℕ → r.Value) where
  -- `iter::repeat` has as many elements as are asked for.
  unfoldable pub sized : ℕ → List r.Key → HashMap r.Key r.Value
  unfolding extend zip
  sized len ks = extend r.Key-discrete [] (zip ks (map (λ k. size len) ks))

  -- `BatchSizeLoader::load`
  unfoldable pub batch_size_load : List r.Key → Result (HashMap r.Key r.Value) r.Error
  unfolding sized
  batch_size_load ks = ok (sized (length ks) ks)

  module _ (q : SwapQueue (Request r)) where
    -- `BatchLoader::handle_task`, which asks for the keys twice, in any order each time.
    unfoldable pub handle_sized :
        Order r.Key × Order r.Key → PendingAssignment r q → q.Worker → Handled r q
    unfolding get_assignment resolve_job sized
    handle_sized (first, second) task queue =
        let (assignment, queue') = get_assignment r q task queue in
        elim assignment [
          | load_batch batch ↦
              let ks = keys r first batch in
              let sizes = sized (length ks) (keys r second batch) in
              let (receipt, job) = resolve_job r batch (ok sizes) in
              record { receipt = receipt; job = some job; queue = queue' }
          | no_assignment receipt ↦ record { receipt = receipt; job = none; queue = queue' }
        ]

    length-keys :
        (first second : Order r.Key) (batch : LoadBatch r)
        → length (keys r first batch) ≡ length (keys r second batch)
    unfolding keys
    length-keys first second batch =
        sym (length-perm (first.visit-perm _)) ∙ length-perm (second.visit-perm _)

    pub handle_sized_lem :
        (o : Order r.Key × Order r.Key) (task : PendingAssignment r q) (queue : q.Worker)
        → let (batch, queue') = q.take task.stealer queue in
          let requests = task.requests ++ batch in
          handle_sized o task queue ≡ record {
            receipt = completion_receipt;
            job = some (record {
              requests = requests;
              results = batch_size_load (keys r o.1 (record { requests = requests }));
            });
            queue = queue';
          }
    unfolding handle_sized batch_size_load
    handle_sized_lem (first, second) task queue =
        let (batch, queue') = q.take task.stealer queue in
        let requests = task.requests ++ batch in
        rw (length-keys first second (record { requests = requests })) refl

    -- It keeps the promise of a handler that loads with `BatchSizeLoader::load`.
    abbrev pub sized_handler : TaskHandler r q
    sized_handler = record {
      Oracle = Order r.Key × Order r.Key;
      key_order = λ o. o.1;
      results_for = λ o. batch_size_load;
      handle_task = handle_sized;
      handle_task_lem = handle_sized_lem;
    }
