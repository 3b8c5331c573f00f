-- ===== src/Redis/Cache/Writes.antt =====
-- `infallibly_update_cache`: the values that the cache callbacks store, and the pipelines that send them.
use mathlib.Core.List.{append_assoc, append-nil, map-append}
use channel_loader_rs.Base.{
  ◌≡◌, refl, sym, ◌∙◌, ◌⊎◌, inl, inr, List, [], ◌∷◌, ◌++◌, map, none, some, Option-cases,
}
use channel_loader_rs.External.{SwapQueue}
use channel_loader_rs.External.Redis.{Text, Bytes, RedisCache}
use channel_loader_rs.Redis.Cache.{
  cache_key, SetEx, redis_cache_expiration, WriteQueue, infallibly_update_cache, flush,
}

module _ {K V : Type 0} (c : RedisCache K V) (wq : SwapQueue (Text × Bytes)) where
  -- Several callbacks in turn.
  unfoldable pub put_all : List (K × V) → WriteQueue wq → WriteQueue wq
  put_all [] s = s
  put_all (e ∷ puts) s = put_all puts (infallibly_update_cache c wq e.0 e.1 s)

  -- The pipeline for the values that can be serialized, in order, each for 900 seconds.
  unfoldable pub set_exs : List (K × V) → List SetEx
  set_exs [] = []
  set_exs (e ∷ puts) =
      let rest = set_exs puts in
      elim (c.serialize e.1) [
        | some bytes ↦ (record { key = cache_key c e.0; value = bytes; seconds = 900 }) ∷ rest
        | none ↦ rest
      ]

  abbrev set_ex : Text × Bytes → SetEx
  set_ex e = record { key = e.0; value = e.1; seconds = redis_cache_expiration }

  put_all-nil : (s : WriteQueue wq) → put_all [] s ≡ s
  unfolding put_all
  put_all-nil s = refl

  put_all-lost :
      (e : K × V) (puts : List (K × V)) (s : WriteQueue wq)
      → c.serialize e.1 ≡ none
      → put_all (e ∷ puts) s ≡ put_all puts s
  unfolding put_all infallibly_update_cache
  put_all-lost e puts s lost = rw (lost, infallibly_update_cache)

  put_all-first :
      (e : K × V) (puts : List (K × V)) (s : WriteQueue wq) {bytes : Bytes} {stealer : wq.Stealer}
      → c.serialize e.1 ≡ some bytes
      → (wq.push (cache_key c e.0, bytes) s.queue).0 ≡ some stealer
      → put_all (e ∷ puts) s
        ≡ put_all puts (record {
          queue = (wq.push (cache_key c e.0, bytes) s.queue).1;
          flushes = s.flushes ++ stealer ∷ [];
        })
  unfolding put_all infallibly_update_cache
  put_all-first e puts s gives gave = rw (gives, gave, infallibly_update_cache)

  put_all-more :
      (e : K × V) (puts : List (K × V)) (s : WriteQueue wq) {bytes : Bytes}
      → c.serialize e.1 ≡ some bytes
      → (wq.push (cache_key c e.0, bytes) s.queue).0 ≡ none
      → put_all (e ∷ puts) s
        ≡ put_all puts (record s { queue = (wq.push (cache_key c e.0, bytes) s.queue).1 })
  unfolding put_all infallibly_update_cache
  put_all-more e puts s gives gave = rw (gives, gave, infallibly_update_cache)

  set_exs-cons_none :
      (e : K × V) (puts : List (K × V)) → c.serialize e.1 ≡ none → set_exs (e ∷ puts) ≡ set_exs puts
  unfolding set_exs
  set_exs-cons_none e puts lost = rw (lost, set_exs)

  set_exs-cons_some :
      (e : K × V) (puts : List (K × V)) {bytes : Bytes}
      → c.serialize e.1 ≡ some bytes
      → set_exs (e ∷ puts) ≡ set_ex (cache_key c e.0, bytes) ∷ set_exs puts
  unfolding set_exs
  set_exs-cons_some e puts gives = rw (gives, set_exs)

  -- The queue after more values, while the stealer of the batch is out.
  abbrev Fills : WriteQueue wq → wq.Stealer → List (K × V) → Type 0
  Fills s stealer puts =
      let s' = put_all puts s in
      (s'.flushes ≡ s.flushes)
      × (wq.waiting s'.queue ≡ some stealer)
      × (map set_ex (wq.buffer s'.queue) ≡ map set_ex (wq.buffer s.queue) ++ set_exs puts)

  fills :
      (puts : List (K × V)) (s : WriteQueue wq) (stealer : wq.Stealer)
      → wq.waiting s.queue ≡ some stealer
      → Fills s stealer puts
  fills [] s stealer out = unfold set_exs in (rw (put_all-nil s) (refl, out, sym (append-nil _)))
  fills (e ∷ puts) s stealer out = elim (Option-cases (c.serialize e.1)) [
    | inl lost ↦
        rw (put_all-lost e puts s lost, set_exs-cons_none e puts lost) (fills puts s stealer out)
    | inr (bytes, gives) ↦
        let (gave, out', held) = wq.push_more (cache_key c e.0, bytes) s.queue stealer out in
        let s' : WriteQueue wq = record s {
          queue = (wq.push (cache_key c e.0, bytes) s.queue).1;
        } in
        let (same, waits, rest) = fills puts s' stealer out' in
        rw (put_all-more e puts s gives gave, set_exs-cons_some e puts gives)
          (
            same,
            waits,
            rest
                ∙ rw (held, map-append set_ex)
                    (append_assoc (map set_ex (wq.buffer s.queue))
                      (map set_ex ((cache_key c e.0, bytes) ∷ [])) (set_exs puts)),
          )
  ]

  -- When values are written from a state with no batch waiting, either none of them can be
  -- serialized and nothing changes, or exactly one flush is spawned, and the flush, run after all
  -- of them, takes them all: its pipeline is a SETEX for 900 seconds, in order, of each value
  -- that can be serialized, under its cache key, and no batch waits afterwards.
  pub put_all-flush :
      (puts : List (K × V)) (s : WriteQueue wq)
      → wq.waiting s.queue ≡ none
      → ((set_exs puts ≡ []) × (put_all puts s ≡ s))
        ⊎ (let s' = put_all puts s in
            (stealer : wq.Stealer) × (s'.flushes ≡ s.flushes ++ stealer ∷ [])
            × ((flush c wq stealer s'.queue).0 ≡ set_exs puts)
            × (wq.waiting (flush c wq stealer s'.queue).1 ≡ none))
  put_all-flush [] s idle = inl (unfold set_exs in refl, put_all-nil s)
  put_all-flush (e ∷ puts) s idle = elim (Option-cases (c.serialize e.1)) [
    | inl lost ↦
        rw (put_all-lost e puts s lost, set_exs-cons_none e puts lost) (put_all-flush puts s idle)
    | inr (bytes, gives) ↦
        let (stealer, gave, out, held) = wq.push_first (cache_key c e.0, bytes) s.queue idle in
        let s' : WriteQueue wq = record {
          queue = (wq.push (cache_key c e.0, bytes) s.queue).1;
          flushes = s.flushes ++ stealer ∷ [];
        } in
        let (same, waits, rest) = fills puts s' stealer out in
        let (batch, done, _) = wq.take_lem (put_all puts s').queue stealer waits in
        rw (put_all-first e puts s gives gave, set_exs-cons_some e puts gives)
          (inr (stealer, same, unfold flush in (rw (batch, rest, held) refl), unfold flush in done))
  ]
