-- ===== src/Tiers.antt =====
-- A loader with the cache in front of it, as `#[data_loader(cached = true)]` sets it up: the CacheStore's loader,
-- whose handler is the adapter of deque-loader/src/redis/cache.rs, and the DataStore's loader.
pub mod Adapter
pub mod Invariant
pub mod Steps
pub mod Refines
pub mod Once
pub mod Progress
pub mod Drain
use channel_loader_rs.Base.{ℕ, List, [], ◌∷◌, ◌++◌, ◌≡◌, some}
use channel_loader_rs.External.{SwapQueue, ConcurrentMap, Order}
use channel_loader_rs.External.Redis.{Text, Bytes, RedisCache}
use channel_loader_rs.Request.{Runtime, World, Request, new_oneshot}
use channel_loader_rs.Request.Answer.{Tx}
use channel_loader_rs.Request.Create.{drop_receivers}
use channel_loader_rs.Task.{
  PendingAssignment, LoadBatch, TaskAssignment, load_batch, no_assignment, get_assignment,
}
use channel_loader_rs.Context.{Found, get_or_create, OnlyAdd}
use channel_loader_rs.Loader.{DataLoader, new_loader, load_by, enqueue_made}
use channel_loader_rs.Handler.{TaskHandler}
use channel_loader_rs.System.{System, Work, with_world, requested, init}
use channel_loader_rs.Redis.Cache.{cached_runtime, look_up}

-- `queue` and `tasks` are the CacheStore's loader, and `loading` the batches that its tasks have taken
-- and Redis is being asked for. All channels are those of `store`.
pub record Tiers (r : Runtime) (q d : SwapQueue (Request r)) : Type 0 where
  pub queue : q.Worker
  pub tasks : List (PendingAssignment r q)
  pub loading : List (LoadBatch r)
  pub store : System r d

module _ {r : Runtime} {q d : SwapQueue (Request r)} where
  abbrev pub front : Tiers r q d → DataLoader r q
  front s = record { world = s.store.world; queue = s.queue; spawned = s.tasks }

  abbrev pub with_front : Tiers r q d → DataLoader r q → Tiers r q d
  with_front s l = record s {
    queue = l.queue;
    tasks = l.spawned;
    store = with_world s.store l.world;
  }

  abbrev pub with_store : Tiers r q d → DataLoader r d → Tiers r q d
  with_store s l = record s { store = record s.store { loader = l } }

  abbrev pub init_tiers : World r → Tiers r q d
  init_tiers w = record { queue = q.new; tasks = []; loading = []; store = init w }

-- What Redis, and the code around it, answer at each time that the program may ask.
pub record Redises (t : Runtime) : Type 1 where
  pub Time : Type 0
  pub at : Time → RedisCache t.Key t.Value

module _ (t : Runtime) (wq : SwapQueue (Text × Bytes)) where
  abbrev pub tiers_runtime : Runtime
  tiers_runtime = cached_runtime t wq

  module _ (q d : SwapQueue (Request tiers_runtime)) where
    abbrev pub State : Type 0
    State = Tiers tiers_runtime q d

    abbrev pub batch_of : TaskAssignment tiers_runtime → List (LoadBatch tiers_runtime)
    batch_of (load_batch batch) = batch ∷ []
    batch_of (no_assignment receipt) = []

    -- The adapter's `handle_task` has started on a task: it has an assignment, and awaits Redis.
    abbrev pub after_take :
        List (PendingAssignment tiers_runtime q) → PendingAssignment tiers_runtime q → State → State
    after_take others task s =
        let (assignment, queue') = get_assignment tiers_runtime q task s.queue in
        record s { queue = queue'; tasks = others; loading = s.loading ++ batch_of assignment }

    -- It has got the answer, and has run to its end.
    abbrev pub after_look_up :
        RedisCache t.Key t.Value
        → Order t.Key
        → Order (Request tiers_runtime)
        → List (LoadBatch tiers_runtime)
        → LoadBatch tiers_runtime
        → State
        → State
    after_look_up c order visit others batch s = record s {
      loading = others;
      store = record s.store { loader = (look_up t wq c d order visit batch s.store.loader).1 };
    }

    module _ (redises : Redises t) (h : TaskHandler tiers_runtime d) where
      -- The steps of the program itself. Each look-up has a time of its own.
      pub data Act (s : State) : State → Type 1 where
        take :
            (before after : List (PendingAssignment tiers_runtime q))
            (task : PendingAssignment tiers_runtime q)
            → s.tasks ≡ before ++ task ∷ after
            → Act s (after_take (before ++ after) task s)
        finish :
            (time : redises.Time) (order : Order t.Key) (visit : Order (Request tiers_runtime))
            (before after : List (LoadBatch tiers_runtime)) (batch : LoadBatch tiers_runtime)
            → s.loading ≡ before ++ batch ∷ after
            → Act s (after_look_up (redises.at time) order visit (before ++ after) batch s)
        below :
            {u : System tiers_runtime d}
            → Work tiers_runtime d h s.store u
            → Act s (record s { store = u })

      module _ (c : ConcurrentMap t.Key t.watch.Handle) where
        -- The states that the two loaders can come to, with the requests issued so far. Both are
        -- called, with and without a context cache, and callers drop their receivers.
        pub data Reach : List (Request tiers_runtime) → State → Type 1 where
          start : (w : World tiers_runtime) → Reach [] (init_tiers w)
          act :
              {log : List (Request tiers_runtime)} {s u : State}
              → Reach log s
              → Act s u
              → Reach log u
          load :
              {log : List (Request tiers_runtime)} {s : State}
              → Reach log s
              → (k : t.Key)
              → Reach
                  ((new_oneshot tiers_runtime k s.store.world).0.0 ∷ log)
                  (with_front s (load_by tiers_runtime q k (front s)).1)
          load_store :
              {log : List (Request tiers_runtime)} {s : State}
              → Reach log s
              → (k : t.Key)
              → Reach
                  ((new_oneshot tiers_runtime k s.store.world).0.0 ∷ log)
                  (with_store s (load_by tiers_runtime d k s.store.loader).1)
          load_cached :
              {log : List (Request tiers_runtime)} {s : State}
              → Reach log s
              → (others : ℕ → c.Map → c.Map) → OnlyAdd tiers_runtime c others
              → (k : t.Key) (m : c.Map) (f : Found tiers_runtime c)
              → get_or_create tiers_runtime c others 2 0 k m s.store.world ≡ some f
              → Reach (requested f.request ++ log) (
                  with_front s
                    (enqueue_made tiers_runtime q f.request (record (front s) { world = f.world })))
          load_store_cached :
              {log : List (Request tiers_runtime)} {s : State}
              → Reach log s
              → (others : ℕ → c.Map → c.Map) → OnlyAdd tiers_runtime c others
              → (k : t.Key) (m : c.Map) (f : Found tiers_runtime c)
              → get_or_create tiers_runtime c others 2 0 k m s.store.world ≡ some f
              → Reach (requested f.request ++ log) (
                  with_store s (
                    enqueue_made tiers_runtime d f.request
                      (record s.store.loader { world = f.world })))
          drop :
              {log : List (Request tiers_runtime)} {s : State}
              → Reach log s
              → (u : Tx tiers_runtime)
              → Reach log (record s {
                store = with_world s.store (drop_receivers tiers_runtime u s.store.world);
              })
