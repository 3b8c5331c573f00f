-- ===== src/Tests/Instances.antt =====
-- Concrete third-party code for the tests: every interface of External has a value.
use mathlib.Core.List.Permᴰ
use mathlib.Core.List.{reverse}
use Prim.Native.Nat.{compare, Ordering}
use channel_loader_rs.Base.{
  ℕ, ◌+◌, ◌≡◌, ◌≢◌, refl, Bool, true, false, ite, List, [], ◌∷◌, ◌++◌, Option, none, some, arith,
  ℕ_discrete,
}
use channel_loader_rs.External.{Channel, SwapQueue, ConcurrentMap, Order}
use channel_loader_rs.Request.{Runtime, World, pending, waiting, got}
use channel_loader_rs.Batch.Sizes.{batch_size_load}
use channel_loader_rs.Batch.{BatchLoader}

abbrev ltb : ℕ → ℕ → Bool
ltb a b = elim (compare a b) [ Ordering.lt ↦ true | _ ↦ false ]

abbrev pub update {ℓ} : {A : Type ℓ} → ℕ → A → (ℕ → A) → ℕ → A
update i a f j = ite (ℕ_discrete i j) a (f j)

pub record Slots (View : Type 0) : Type 0 where
  pub next : ℕ
  pub views : ℕ → View
  pub closed : ℕ → Bool

module _ {Start Msg View : Type 0} (started : Start → View) (sent : Msg → View) where
  abbrev make : Start → Slots View → ℕ × Slots View
  make a s = (
    s.next,
    record {
      next = s.next + 1;
      views = update s.next (started a) s.views;
      closed = update s.next false s.closed;
    },
  )

  abbrev put : ℕ → Msg → Slots View → Slots View
  put h m s = record s { views = update h (sent m) s.views }

  abbrev shut : ℕ → Slots View → Slots View
  shut h s = record s { closed = update h true s.closed }

  pub view-make_ne :
      (a : Start) (s : Slots View) (h : ℕ) → ltb h s.next ≡ true → (make a s).1.views h ≡ s.views h
  view-make_ne a s h lt = ground arith

  pub view-make : (a : Start) (s : Slots View) → (make a s).1.views s.next ≡ started a
  view-make a s = ground arith

  pub closed-make : (a : Start) (s : Slots View) → (make a s).1.closed s.next ≡ false
  closed-make a s = ground arith

  pub closed-make_ne :
      (a : Start) (s : Slots View) (h : ℕ)
      → ltb h s.next ≡ true
      → (make a s).1.closed h ≡ s.closed h
  closed-make_ne a s h lt = ground arith

  pub made-make : (a : Start) (s : Slots View) → ltb s.next (s.next + 1) ≡ true
  made-make a s = ground arith

  pub made-make_ne :
      (a : Start) (s : Slots View) (h : ℕ) → ltb h s.next ≡ true → ltb h (s.next + 1) ≡ true
  made-make_ne a s h lt = ground arith

  pub make_fresh : (a : Start) (s : Slots View) → ltb s.next s.next ≡ false
  make_fresh a s = ground arith

  pub view-put :
      (h : ℕ) (m : Msg) (s : Slots View) → s.closed h ≡ false → (put h m s).views h ≡ sent m
  view-put h m s o = ground arith

  pub view-put_ne : (h g : ℕ) (m : Msg) (s : Slots View) → h ≢ g → (put h m s).views g ≡ s.views g
  view-put_ne h g m s ne = ground arith

  pub closed-shut : (h : ℕ) (s : Slots View) → (shut h s).closed h ≡ true
  closed-shut h s = ground arith

  pub closed-shut_ne : (h g : ℕ) (s : Slots View) → h ≢ g → (shut h s).closed g ≡ s.closed g
  closed-shut_ne h g s ne = ground arith

  abbrev pub slots : Channel started sent
  slots = record {
    Store = Slots View;
    Handle = ℕ;
    Handle-discrete = ℕ_discrete;
    channel = make;
    is_closed = λ s h. s.closed h;
    send = put;
    close = shut;
    view = λ s h. s.views h;
    is_made = λ s h. ltb h s.next;
    view-channel = view-make;
    view-channel_ne = view-make_ne;
    is_made-channel = made-make;
    is_made-channel_ne = made-make_ne;
    channel_fresh = make_fresh;
    is_closed-channel = closed-make;
    is_closed-channel_ne = closed-make_ne;
    view-send = view-put;
    view-send_ne = view-put_ne;
    is_closed-send = λ h g m s. refl;
    is_made-send = λ h g m s. refl;
    view-close = λ h g s. refl;
    is_closed-close = closed-shut;
    is_closed-close_ne = closed-shut_ne;
    is_made-close = λ h g s. refl;
  }

abbrev pub runtime : Runtime
runtime = record {
  Key = ℕ;
  Value = ℕ;
  Error = ℕ;
  Cache = List (ℕ × ℕ);
  Key-discrete = ℕ_discrete;
  oneshot = slots (λ _. waiting) got;
  watch = slots (λ state. state) (λ state. state);
}

abbrev pub empty : World runtime
empty = record {
  oneshots = record { next = 0; views = λ _. waiting; closed = λ _. false };
  watches = record { next = 0; views = λ _. pending; closed = λ _. false };
  cache = [];
}

-- A worker remembers its batch, and whether the batch's stealer is out.
pub record Batch (A : Type 0) : Type 0 where
  pub items : List A
  pub out : Option (Unit {0})

module _ {A : Type 0} where
  abbrev push : A → Batch A → Option (Unit {0}) × Batch A
  push a b = elim b.out [
    | none ↦ (some tt, record { items = a ∷ []; out = some tt })
    | some s ↦ (none, record { items = b.items ++ a ∷ []; out = some tt })
  ]

  abbrev take : Unit {0} → Batch A → List A × Batch A
  take s b = (b.items, record { items = []; out = none })

  pub push_first :
      (a : A) (b : Batch A)
      → b.out ≡ none
      → (s : Unit {0}) × ((push a b).0 ≡ some s)
        × ((push a b).1.out ≡ some s)
        × ((push a b).1.items ≡ a ∷ [])
  push_first a b e = (tt, ground arith, ground arith, ground arith)

  pub push_more :
      (a : A) (b : Batch A) (s : Unit {0})
      → b.out ≡ some s
      → ((push a b).0 ≡ none)
        × ((push a b).1.out ≡ some s)
        × ((push a b).1.items ≡ b.items ++ a ∷ [])
  push_more a b s e = ground arith

abbrev pub swap_queue : (A : Type 0) → SwapQueue A
swap_queue A = record {
  Worker = Batch A;
  Stealer = Unit {0};
  new = record { items = []; out = none };
  push = push;
  take = take;
  buffer = λ b. b.items;
  waiting = λ b. b.out;
  buffer-new = refl;
  waiting-new = refl;
  push_first = push_first;
  push_more = push_more;
  take_lem = λ b s e. (refl, refl, refl);
}

abbrev pub backwards : (A : Type 0) → Order A
backwards A = record { visit = reverse; visit-perm = λ xs. Permᴰ.symm (Permᴰ.reverse xs) }

module _ {V : Type 0} where
  abbrev try_insert : ℕ → V → (ℕ → Option V) → Option V × (ℕ → Option V)
  try_insert k v m = elim (m k) [ none ↦ (some v, update k (some v) m) | some u ↦ (none, m) ]

  pub try_insert_vacant :
      (k : ℕ) (v : V) (m : ℕ → Option V)
      → m k ≡ none
      → ((try_insert k v m).0 ≡ some v) × ((try_insert k v m).1 k ≡ some v)
  try_insert_vacant k v m e = ground arith

  pub try_insert_taken :
      (k : ℕ) (v : V) (m : ℕ → Option V) {u : V}
      → m k ≡ some u
      → ((try_insert k v m).0 ≡ none) × ((try_insert k v m).1 k ≡ some u)
  try_insert_taken k v m e = ground arith

  pub try_insert_ne : (k j : ℕ) (v : V) (m : ℕ → Option V) → k ≢ j → (try_insert k v m).1 j ≡ m j
  try_insert_ne k j v m ne = ground arith

abbrev pub concurrent_map : (V : Type 0) → ConcurrentMap ℕ V
concurrent_map V = record {
  Map = ℕ → Option V;
  new = λ _. none;
  get = λ m k. m k;
  try_insert = try_insert;
  get-new = λ k. refl;
  try_insert_vacant = try_insert_vacant;
  try_insert_taken = try_insert_taken;
  get-try_insert_ne = try_insert_ne;
}

-- The `BatchSizeLoader` of batch.rs's tests: each key is given the number of keys of its batch.
abbrev pub batch_size_loader : BatchLoader runtime
batch_size_loader = record { load = batch_size_load runtime (λ n. n); order = backwards ℕ }
