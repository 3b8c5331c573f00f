-- ===== src/Request.antt =====
-- deque-loader/src/request.rs: a load request with the sender of its reply, and the receivers.
pub mod Answer
pub mod Create
pub mod Receive
use channel_loader_rs.Base.{
  List, [], ◌∷◌, Option, none, some, Result, ok, err, Bool, true, false, if◌then◌else◌,
}
use channel_loader_rs.External.{Channel}

pub data LoadState (V E : Type 0) : Type 0 where
  ready : Result (Option V) E → LoadState V E
  pending : LoadState V E

-- What a poll of a oneshot receiver gives; `dropped` when the sender is gone without a send.
pub data Poll (R : Type 0) : Type 0 where
  waiting dropped : Poll R
  got : R → Poll R

-- The types of a task handler, with the tokio channels of its replies. A cache callback acts on
-- `Cache`, the state outside the loader.
pub record Runtime : Type 1 where
  pub Key : Type 0
  pub Value : Type 0
  pub Error : Type 0
  pub Cache : Type 0
  pub Key-discrete : Discrete Key
  pub oneshot : Channel {Start = Unit {0}} {Msg = Result (Option Value) Error} (λ _. waiting) got
  pub watch :
      Channel {Start = LoadState Value Error} {Msg = LoadState Value Error}
        (λ state. state)
        (λ state. state)

-- The same without the error type, for the handlers that fix it.
pub record Keyed (Error : Type 0) : Type 1 where
  pub Key : Type 0
  pub Value : Type 0
  pub Cache : Type 0
  pub Key-discrete : Discrete Key
  pub oneshot : Channel {Start = Unit {0}} {Msg = Result (Option Value) Error} (λ _. waiting) got
  pub watch :
      Channel {Start = LoadState Value Error} {Msg = LoadState Value Error}
        (λ state. state)
        (λ state. state)

abbrev pub runtime_of : {E : Type 0} → Keyed E → Runtime
runtime_of {E} t = record {
  Key = t.Key;
  Value = t.Value;
  Error = E;
  Cache = t.Cache;
  Key-discrete = t.Key-discrete;
  oneshot = t.oneshot;
  watch = t.watch;
}

-- `Arc` is transparent: values are shared, never mutated.
abbrev pub Reply : Runtime → Type 0
Reply r = Result (Option r.Value) r.Error

abbrev pub CacheCb : Runtime → Type 0
CacheCb r = r.Key → r.Value → r.Cache → r.Cache

pub data Request (r : Runtime) : Type 0 where
  watch : r.Key → r.watch.Handle → Option (CacheCb r) → Request r
  oneshot : r.Key → r.oneshot.Handle → Option (CacheCb r) → Request r

-- The channels of both kinds, and what the callbacks write to.
pub record World (r : Runtime) : Type 0 where
  pub oneshots : r.oneshot.Store
  pub watches : r.watch.Store
  pub cache : r.Cache

module _ (r : Runtime) where
  unfoldable pub new_oneshot : r.Key → World r → (Request r × r.oneshot.Handle) × World r
  new_oneshot key w =
      let (tx, store) = r.oneshot.channel tt w.oneshots in
      ((oneshot key tx none, tx), record w { oneshots = store })

  unfoldable pub new_watch : r.Key → World r → (Request r × r.watch.Handle) × World r
  new_watch key w =
      let (tx, store) = r.watch.channel pending w.watches in
      ((watch key tx none, tx), record w { watches = store })

  unfoldable pub key : Request r → r.Key
  key (watch k tx cb) = k
  key (oneshot k tx cb) = k

  -- The callback runs on a value that was found, whoever still waits for it.
  unfoldable pub call_cache_cb : r.Key → Option (CacheCb r) → Reply r → World r → World r
  call_cache_cb k (some cb) (ok (some value)) w = record w { cache = cb k value w.cache }
  call_cache_cb k cb reply w = w

  unfoldable pub resolve : Request r → Reply r → World r → World r
  unfolding call_cache_cb
  resolve (watch k tx cb) value w =
      let w' = call_cache_cb k cb value w in
      if r.watch.is_closed w'.watches tx
      then w'
      else record w' { watches = r.watch.send tx (ready value) w'.watches }
  resolve (oneshot k tx cb) value w =
      let w' = call_cache_cb k cb value w in
      if r.oneshot.is_closed w'.oneshots tx
      then w'
      else record w' { oneshots = r.oneshot.send tx value w'.oneshots }

  unfoldable pub set_cache_cb : CacheCb r → Request r → Request r
  set_cache_cb f (watch k tx cb) = watch k tx (some f)
  set_cache_cb f (oneshot k tx cb) = oneshot k tx (some f)
