-- ===== src/Loader/Shared.antt =====
-- Calls of `cached_load_by` with the cache of one request context (deque-loader/src/loader.rs): one request per key.
use Prim.Native.Nat.{min}
use mathlib.Core.List.Memᴰ
use mathlib.Core.List.{map-append}
use channel_loader_rs.Base.{
  some_injective, ℕ, suc, ◌+◌, ◌≤◌, ◌≡◌, ◌≢◌, refl, sym, ap, ◌∙◌, subst, inl, inr, none, some,
  Option, Nat-cases, List, [], ◌∷◌, ◌++◌, map, Memᴰ, count, count_pos, count-append, mem_of_count,
  arith,
}
use channel_loader_rs.External.{SwapQueue, ConcurrentMap}
use channel_loader_rs.Request.{Runtime, Request, new_watch, key}
use channel_loader_rs.Request.Answer.{watch_tx, tx}
use channel_loader_rs.Context.{get_or_create_present, get_or_create_inserted}
use channel_loader_rs.Loader.{DataLoader, cached_load_by, enqueue}

module _ (r : Runtime) (q : SwapQueue (Request r)) (c : ConcurrentMap r.Key r.watch.Handle) where
  -- No other thread uses the context meanwhile.
  abbrev pub alone : ℕ → c.Map → c.Map
  alone i m = m

  -- The calls for the keys, one after another: each key with the receiver that its call returned.
  unfoldable pub cached_all :
      ℕ
      → List r.Key
      → c.Map
      → DataLoader r q
      → Option (List (r.Key × r.watch.Handle) × c.Map × DataLoader r q)
  cached_all fuel [] m l = some ([], m, l)
  cached_all fuel (k ∷ ks) m l = elim (cached_load_by r q c alone fuel k m l) [
    | none ↦ none
    | some (rx, m', l') ↦ elim (cached_all fuel ks m' l') [
      | none ↦ none
      | some (calls, m'', l'') ↦ some ((k, rx) ∷ calls, m'', l'')
    ]
  ]

  module _ (fuel : ℕ) (k : r.Key) (m : c.Map) (l : DataLoader r q) where
    pub cached_load_by_hit :
        (rx : r.watch.Handle)
        → c.get m k ≡ some rx
        → cached_load_by r q c alone (suc fuel) k m l ≡ some (rx, m, l)
    unfolding cached_load_by
    cached_load_by_hit rx e =
        rw (get_or_create_present r c alone fuel 0 k m l.world rx e, cached_load_by) refl

    pub cached_load_by_miss :
        c.get m k ≡ none
        → let ((req, rx), w) = new_watch r k l.world in
          cached_load_by r q c alone (suc fuel) k m l
          ≡ some (rx, (c.try_insert k rx m).1, enqueue r q req (record l { world = w }))
    unfolding cached_load_by
    cached_load_by_miss e =
        let ((req, rx), w) = new_watch r k l.world in
        rw
          (
            get_or_create_inserted r c alone fuel 0 k m l.world e (c.try_insert_vacant k rx m e).0,
            cached_load_by,
          )
          refl

  -- There is one request for each key that `asks` counts, and the context holds the receivers of
  -- the requests and no others.
  pub record Kept (asks : r.Key → ℕ) (m : c.Map) (reqs : List (Request r)) : Type 0 where
    pub counted : (j : r.Key) → count r.Key-discrete j (map (key r) reqs) ≡ min 1 (asks j)
    pub stored :
        (j : r.Key) (rx : r.watch.Handle)
        → c.get m j ≡ some rx
        → (req : Request r) × Memᴰ req reqs × (key r req ≡ j) × (tx r req ≡ watch_tx rx)
    pub known :
        (req : Request r) → Memᴰ req reqs → (rx : r.watch.Handle) × (c.get m (key r req) ≡ some rx)

  -- A new context, and nothing asked for.
  pub new-Kept : Kept (λ j. 0) c.new []
  new-Kept = record {
    counted = λ j. unfold count in omega arith;
    stored = λ j rx h. absurd (cc (sym (c.get-new j) ∙ h));
    known = λ req m. absurd (Memᴰ.not-nil m);
  }

  module _ {asks : r.Key → ℕ} {m : c.Map} {reqs : List (Request r)} where
    pub Kept-asks :
        (asks' : r.Key → ℕ)
        → ((j : r.Key) → min 1 (asks' j) ≡ min 1 (asks j))
        → Kept asks m reqs
        → Kept asks' m reqs
    Kept-asks asks' same s = record {
      counted = λ j. s.counted j ∙ sym (same j);
      stored = s.stored;
      known = s.known;
    }

    -- The key of a receiver that is found has been asked for.
    pub hit-Kept :
        (k : r.Key) (rx : r.watch.Handle)
        → c.get m k ≡ some rx
        → Kept asks m reqs
        → Kept (λ j. count r.Key-discrete j (k ∷ []) + asks j) m reqs
    hit-Kept k rx e s =
        let (req, m', keyed, same) = s.stored k rx e in
        let asked : 1 ≤ asks k = omega (
          arith,
          s.counted k,
          count_pos r.Key-discrete k (map (key r) reqs)
              (subst (λ j. Memᴰ j (map (key r) reqs)) keyed (Memᴰ.map (key r) m')),
        ) in
        Kept-asks (λ j. count r.Key-discrete j (k ∷ []) + asks j)
          (λ j. elim (r.Key-discrete k j) [
            | yes p ↦
                let here : 1 ≤ asks j = subst (λ j. 1 ≤ asks j) p asked in
                unfold count in omega arith
            | no n ↦ unfold count in ground arith
          ])
          s

    -- A key that is not found has not been asked for.
    unasked :
        (k : r.Key)
        → c.get m k ≡ none
        → Kept asks m reqs
        → count r.Key-discrete k (map (key r) reqs) ≡ 0
    unasked k e s = elim (Nat-cases (count r.Key-discrete k (map (key r) reqs))) [
      | inl z ↦ z
      | inr pos ↦
          let (req, m', keyed) =
            Memᴰ.of_map (key r) reqs (mem_of_count r.Key-discrete k (map (key r) reqs) pos) in
          let (rx, found) = s.known req m' in
          absurd (cc (sym e ∙ subst (λ j. c.get m j ≡ some rx) keyed found))
    ]

    -- A key that is not found gets a request of its own.
    pub miss-Kept :
        (k : r.Key) (req : Request r) (rx : r.watch.Handle)
        → c.get m k ≡ none
        → key r req ≡ k
        → tx r req ≡ watch_tx rx
        → Kept asks m reqs
        → Kept
            (λ j. count r.Key-discrete j (k ∷ []) + asks j)
            (c.try_insert k rx m).1
            (reqs ++ req ∷ [])
    miss-Kept k req rx e keyed same s =
        let (inserted, here) = c.try_insert_vacant k rx m e in
        let m' = (c.try_insert k rx m).1 in
        record {
          counted = λ j.
              rw (map-append (key r) reqs (req ∷ []), keyed)
                (count-append r.Key-discrete j (map (key r) reqs) (k ∷ [])
                  ∙ elim (r.Key-discrete k j) [
                    | yes p ↦
                        let new : count r.Key-discrete j (map (key r) reqs) ≡ 0 =
                          subst (λ j. count r.Key-discrete j (map (key r) reqs) ≡ 0) p
                            (unasked k e s) in
                        let counted = s.counted j in unfold count in ground arith
                    | no n ↦ let counted = s.counted j in unfold count in ground arith
                  ]);
          stored = λ j rx' h. elim (r.Key-discrete k j) [
            | yes p ↦ (
              req,
              Memᴰ.append_right reqs (Memᴰ.head refl),
              keyed ∙ p,
              same
                  ∙ ap watch_tx
                      (some_injective (sym (subst (λ j. c.get m' j ≡ some rx) p here) ∙ h)),
            )
            | no n ↦
                let (old, m'', keyed', same') =
                  s.stored j rx' (sym (c.get-try_insert_ne k j rx m n) ∙ h) in
                (old, Memᴰ.append_left (req ∷ []) m'', keyed', same')
          ];
          known = λ x m''. elim (Memᴰ.append_cases reqs m'') [
            | inl early ↦
                let (rx', found) = s.known x early in
                let other : k ≢ key r x =
                  λ p. cc (sym e ∙ subst (λ j. c.get m j ≡ some rx') (sym p) found) in
                (rx', c.get-try_insert_ne k (key r x) rx m other ∙ found)
            | inr late ↦
                let is : x ≡ req = Memᴰ.eq_of_singleton late in
                (rx, subst (λ j. c.get m' j ≡ some rx) (sym (ap (key r) is ∙ keyed)) here)
          ];
        }
