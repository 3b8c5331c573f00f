-- ===== src/Lib.antt =====
-- A verification library for channel-loader-rs (the crate deque-loader), a batching data loader.
--
-- A caller asks its thread's DataLoader for a key and gets a receiver. The loader pushes a
-- request with the sender on a swap_queue worker; the push that starts a batch yields a stealer,
-- and the loader spawns a task that owns it. A handler runs the task: it takes the whole batch,
-- asks a loader for the distinct keys, and gives rayon a job that sends each request its reply.
--
-- Files and code (paths from the repository's root):
-- External: tokio's channels, swap_queue, rayon's order of visit and flurry's map, as records of
-- operations with the documented behaviour that the crate relies on. Every definition takes them
-- as parameters; Tests/Instances has a value of each.
-- Request, Request/*: deque-loader/src/request.rs. `World` holds all channels and what the cache
-- callbacks write to; `Request` has the two variants; `resolve`, `recv_oneshot` and `recv_watch`
-- are the methods of those names. An Arc is transparent.
-- Context: `ContextCache::get_or_create` of the same file. Its loop takes fuel, and two rounds
-- are enough.
-- Task, Task/*: deque-loader/src/task.rs. `resolve_job` is `Task::resolve`, and `run_job` is the
-- closure that it spawns. The wrapper `Task` is left out.
-- Loader, Loader/*: deque-loader/src/loader.rs. A `DataLoader` holds the channels, the worker and
-- the tasks that it has spawned. One call of a method runs without a steal between its pushes.
-- Handler, Batch: the trait TaskHandler as an interface (its constants CORES_PER_WORKER_GROUP and
-- MAX_BATCH_SIZE, which no code reads, are left out), and deque-loader/src/batch.rs, which fills
-- it.
-- System, System/*: the interleavings of one loader. Each step is a function of the files above:
-- a call, a spawned task, a rayon job, or a caller that drops its receivers. A job stands for its
-- load too: it is there from the assignment until rayon has run it, so steps between the two are
-- those that happen while the load runs. Loads return; a load that never does, or panics, is not
-- modelled.
-- Service: what a loader promises, without batches, tasks and channels: a caller asks, and the
-- service replies to requests that are outstanding. An event of it is a call that makes a
-- request, or the requests that one look-up or one job replies to. System/Refines and System/Once
-- set System beside it, and Tiers/Refines and Tiers/Once Tiers; Tickets/Served has what they
-- share.
-- Loader/Together, Handler/Together: several calls of `load_by` in a row, and the one batch that
-- they become. Loader/Shared, Loader/Contexts, Handler/Shared: the same of `cached_load_by` with
-- the cache of one request.
-- Batch/Sizes: `BatchSizeLoader::load` of the tests of batch.rs, and the handler `BatchLoader` of
-- the tests of deque-loader/src/loadable.rs, which fills the interface of Handler with it.
-- Diesel, Diesel/*: deque-loader/src/diesel/error.rs and loader.rs. The pool's and the loader's
-- answers at one time are a record, `DieselLoader`; which errors diesel and r2d2 have is in
-- External/Diesel. `diesel_handler` fills the interface of Handler, which System takes.
-- Redis, Redis/*: deque-loader/src/redis/loader.rs, with the same of a `RedisLoader`, and
-- cache.rs: `RedisCacheAdapter` takes requests from one loader's queue, answers those that Redis
-- holds, and schedules the others on the data store's loader with a callback that writes the
-- loaded values to Redis. What Redis, bincode and tynm give at one time is a parameter, and text
-- and bytes are lists of numbers. The thread-local queue of writes is the one of a single rayon
-- thread; the outcome of a pipeline is only logged, and is left out.
-- Redis/Connection, Redis/Connection/*: the connection manager of
-- deque-loader/src/redis/connection.rs. An Arc of the state is identified by the number of stores
-- before it. The caller's loop takes fuel, one for each round; two rounds are enough where no
-- look finds the manager idle or connecting, since a connection error is retried in the first
-- round only. What other tasks do meanwhile is a parameter, and so are the kinds of redis errors.
-- The commands of a tracked connection are `req_packed_command`, where `panics` stands for the
-- `unreachable!()`. Machine has the manager with all its callers and its tasks: a caller is woken
-- by a notification only once it awaits it.
-- Redis/Invalidator, Redis/Invalidator/*: the cache invalidator of the same file, with its tasks
-- and its observers. Its states and what it does with them are those of the connection manager,
-- so the model shares them; `client_id` has its own loop. Observers are numbered by their place
-- in the inventory. What a task does between two awaits is split where other threads see it: the
-- store of the client id, the call of each observer for a connection or a message, the
-- notification. A message that cannot be decoded makes `unwrap` panic, which ends the task and
-- leaves the state; a panicked task is kept in the list of tasks. The calls of the observers
-- return.
-- Redis/Client, Redis/Client/*: deque-loader/src/redis/client.rs. The environment is a function,
-- and the url crate and the parse of an integer are parameters.
-- Graphql, Graphql/*: deque-loader/src/graphql.rs. The data of a request is a parameter with its
-- laws; the inventory is the list of the registered handlers.
-- Derive, Derive/*: the macros of deque-loader-derive/src/lib.rs, as the implementations that
-- they generate from the attributes. What syn and darling make of an attribute is a parameter;
-- the bodies of the generated functions are `load_by` and `cached_load_by` of Loader with `recv`,
-- and are not modelled a second time.
-- Tickets, Tickets/*: requests by sender and key, and the ledger of what has become of each,
-- which System and Tiers share.
-- Tiers, Tiers/*: the interleavings of two loaders, the CacheStore's with the adapter as its
-- handler and the DataStore's with any handler. The adapter's `handle_task` is two steps, as
-- other steps happen while it awaits Redis: it takes its assignment, and it ends with `look_up`.
-- What Redis answers at each time is a parameter, `Redises`, and a look-up takes its answers of
-- one time. The same holds as for System of the load of a job.
-- Demo, Demo/Users, Demo/Bookmarks: the loaders of crates/async-graphql-demo/src/data/user.rs and
-- bookmark.rs. The rows that the database gives, and diesel's grouping, are parameters.
-- Demo/Queries, Demo/Queries/*: the fields of crates/async-graphql-demo/src/schema/query_root.rs
-- and of data/user.rs that load, from the rows to the client. A loader is taken as its
-- DieselHandler; that bookmarks have the Redis cache in front is left to Tiers.
-- Demo/Tables: the tables of migrations/ and the statements on them, as an interface with laws.
-- Demo/Mutations, Demo/Mutations/*: crates/async-graphql-demo/src/schema/mutation_root.rs. An
-- error is known by its code. `create_bookmark` is two statements without a transaction, and what
-- other sessions do between them is a parameter.
--
-- Tests, Tests/*: runs, and the theorems at concrete inputs.
--
-- Not modelled: the opening of the Redis client; memory and locks inside the third-party crates,
-- panics of user code, logging, and the web server of the demo.
pub mod Base
pub mod External
pub mod Request
pub mod Task
pub mod Context
pub mod Loader
pub mod Handler
pub mod Batch
pub mod Service
pub mod System
pub mod Tickets
pub mod Diesel
pub mod Redis
pub mod Demo
pub mod Tiers
pub mod Derive
pub mod Graphql
pub mod Tests
