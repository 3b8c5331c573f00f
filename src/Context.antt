-- ===== src/Context.antt =====
-- `ContextCache` of deque-loader/src/request.rs: the loads of one GraphQL request, by key.
use channel_loader_rs.Base.{
  ℕ, zero, suc, ◌+◌, ◌≡◌, refl, ◌∙◌, ◌⊎◌, inl, inr, Option, none, some, Option-cases,
}
use channel_loader_rs.External.{ConcurrentMap}
use channel_loader_rs.Request.{Runtime, World, Request, new_watch}
use channel_loader_rs.Request.Answer.{watch_tx, tx}
use channel_loader_rs.Request.Create.{Extends, Extends-refl, Created, new_watch-Created}

module _ (r : Runtime) (c : ConcurrentMap r.Key r.watch.Handle) where
  -- The receiver, the request if this call made it, and the map and channels afterwards.
  pub record Found : Type 0 where
    pub rx : r.watch.Handle
    pub request : Option (Request r)
    pub map : c.Map
    pub world : World r

  -- `others i` is what other threads insert at point `i`: before a lookup, and between a lookup and
  -- the insertion.
  unfoldable pub get_or_create :
      (ℕ → c.Map → c.Map) → ℕ → ℕ → r.Key → c.Map → World r → Option Found
  get_or_create others zero i key m w = none
  get_or_create others (suc fuel) i key m w = elim (c.get (others i m) key) [
    | some rx ↦ some (record { rx = rx; request = none; map = others i m; world = w })
    | none ↦
        let ((req, rx), w') = new_watch r key w in
        let (inserted, m') = c.try_insert key rx (others (i + 1) (others i m)) in
        elim inserted [
          | some rx' ↦ some (record { rx = rx'; request = some req; map = m'; world = w' })
          | none ↦ get_or_create others fuel (i + 2) key m' w'
        ]
  ]

  -- Other threads only add entries.
  abbrev pub OnlyAdd : (ℕ → c.Map → c.Map) → Type 0
  OnlyAdd others =
      (i : ℕ) (m : c.Map) (k : r.Key) (rx : r.watch.Handle)
      → c.get m k ≡ some rx
      → c.get (others i m) k ≡ some rx

  -- Either the key was there, and its receiver is shared; or this call made the request, whose
  -- receiver it stored under the key.
  pub record Shared (key : r.Key) (w : World r) (f : Found) : Type 0 where
    pub stored : c.get f.map key ≡ some f.rx
    pub extends : Extends r w f.world
    pub source :
        (f.request ≡ none)
        ⊎ ((req : Request r) × (f.request ≡ some req)
            × (tx r req ≡ watch_tx f.rx)
            × Created r key w req f.world)

  module _ (others : ℕ → c.Map → c.Map) (fuel i : ℕ) (key : r.Key) (m : c.Map) (w : World r) where
    abbrev made : (Request r × r.watch.Handle) × World r
    made = new_watch r key w

    abbrev tried : Option r.watch.Handle × c.Map
    tried = c.try_insert key made.0.1 (others (i + 1) (others i m))

    pub get_or_create_present :
        (rx : r.watch.Handle)
        → c.get (others i m) key ≡ some rx
        → get_or_create others (suc fuel) i key m w
          ≡ some (record { rx = rx; request = none; map = others i m; world = w })
    unfolding get_or_create
    get_or_create_present rx e = rw (e, get_or_create)

    pub get_or_create_inserted :
        c.get (others i m) key ≡ none
        → tried.0 ≡ some made.0.1
        → get_or_create others (suc fuel) i key m w
          ≡ some (record { rx = made.0.1; request = some made.0.0; map = tried.1; world = made.1 })
    unfolding get_or_create
    get_or_create_inserted e f = rw (e, get_or_create) (rw f)

    get_or_create_overtaken :
        c.get (others i m) key ≡ none
        → tried.0 ≡ none
        → get_or_create others (suc fuel) i key m w
          ≡ get_or_create others fuel (i + 2) key tried.1 made.1
    unfolding get_or_create
    get_or_create_overtaken e f = rw (e, get_or_create) (rw f)

  -- With fuel for two rounds the loop of `get_or_create` returns, whatever other threads add to
  -- the map before its lookups and insertions. The receiver returned is the one that the map then
  -- holds under the key, channels made before are unchanged, and a request is returned only if
  -- this call made it, new, for this key and with that receiver.
  pub get_or_create-Shared :
      (others : ℕ → c.Map → c.Map) (fuel i : ℕ) (key : r.Key) (m : c.Map) (w : World r)
      → OnlyAdd others
      → (f : Found) × (get_or_create others (suc (suc fuel)) i key m w ≡ some f) × Shared key w f
  get_or_create-Shared others fuel i key m w only_add =
      elim (Option-cases (c.get (others i m) key)) [
        | inr (rx, e) ↦ (
          _,
          get_or_create_present others (suc fuel) i key m w rx e,
          record { stored = e; extends = Extends-refl r w; source = inl refl },
        )
        | inl e ↦ elim (Option-cases (c.get (others (i + 1) (others i m)) key)) [
          | inl f ↦
              let ((req, rx), w') = new_watch r key w in
              let (created, same) = new_watch-Created r key w in
              let (took, stored) = c.try_insert_vacant key rx (others (i + 1) (others i m)) f in
              (
                _,
                get_or_create_inserted others (suc fuel) i key m w e took,
                record {
                  stored = stored;
                  extends = created.extends;
                  source = inr (req, refl, same, created);
                },
              )
          | inr (u, f) ↦
              let ((req, rx), w') = new_watch r key w in
              let (created, same) = new_watch-Created r key w in
              let (failed, taken) = c.try_insert_taken key rx (others (i + 1) (others i m)) f in
              let kept = only_add (i + 2) _ key u taken in
              (
                _,
                get_or_create_overtaken others (suc fuel) i key m w e failed
                    ∙ get_or_create_present others fuel (i + 2) key _ w' u kept,
                record { stored = kept; extends = created.extends; source = inl refl },
              )
        ]
      ]
