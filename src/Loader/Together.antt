-- ===== src/Loader/Together.antt =====
-- Calls of `load_by` that a thread makes before its loader's task runs (deque-loader/src/loader.rs): one batch.
use mathlib.Core.List.Memᴰ
use mathlib.Core.List.{append-nil, append_assoc, map-append}
use channel_loader_rs.Base.{
  ◌≤◌, inl, inr, ◌≡◌, refl, ◌∙◌, sym, ap, subst, true, false, none, some, List, [], ◌∷◌, ◌++◌, map,
  Memᴰ, arith, count,
}
use channel_loader_rs.External.{SwapQueue}
use channel_loader_rs.Request.{Runtime, World, Request, oneshot, new_oneshot}
use channel_loader_rs.Request.Answer.{Tx, tx, is_closed, is_made}
use channel_loader_rs.Request.Create.{Created, new_oneshot-Created}
use channel_loader_rs.Task.{new_task}
use channel_loader_rs.Loader.{DataLoader, load_by, enqueue}
use channel_loader_rs.Loader.Staffed.{schedule-cons_some, schedule-cons_none, schedule-nil}
use channel_loader_rs.Loader.Schedule.{enqueue-schedule}
use channel_loader_rs.Tickets.{ticket, tickets, uses, uses-append}
use channel_loader_rs.Tickets.Moves.{unused_of_unmade, once-cons}

module _ (r : Runtime) (q : SwapQueue (Request r)) where
  -- The calls for the keys, one after another: each key with the receiver that its call returned.
  unfoldable pub load_all :
      List r.Key → DataLoader r q → List (r.Key × r.oneshot.Handle) × DataLoader r q
  load_all [] l = ([], l)
  load_all (k ∷ ks) l =
      let (rx, l') = load_by r q k l in let (calls, l'') = load_all ks l' in ((k, rx) ∷ calls, l'')

  -- The request behind a call.
  abbrev pub requested_by : r.Key × r.oneshot.Handle → Request r
  requested_by (k, rx) = oneshot k rx none

  -- Each of the requests has an open channel of its own.
  pub record Apart (w : World r) (reqs : List (Request r)) : Type 0 where
    pub once : (t : Tx r) → uses r t (tickets reqs) ≤ 1
    pub made : (req : Request r) → Memᴰ req reqs → is_made r w (tx r req) ≡ true
    pub opened : (req : Request r) → Memᴰ req reqs → is_closed r w (tx r req) ≡ false

  nil-Apart : (w : World r) → Apart w []
  nil-Apart w = record {
    once = λ t. unfold uses count in omega arith;
    made = λ req m. absurd (Memᴰ.not-nil m);
    opened = λ req m. absurd (Memᴰ.not-nil m);
  }

  load_by-Apart :
      {k : r.Key} {w w' : World r} (reqs : List (Request r)) (req : Request r)
      → Apart w reqs
      → Created r k w req w'
      → Apart w' (reqs ++ req ∷ [])
  load_by-Apart {w = w} {w' = w'} reqs req apart c = record {
    once = λ t. rw (map-append ticket reqs (req ∷ [])) (
        omega (
          arith,
          once-cons r (ticket req) (tickets reqs) fresh apart.once t,
          uses-append r t (ticket req ∷ []) (tickets reqs),
          uses-append r t (tickets reqs) (ticket req ∷ []),
        ));
    made =
        each (λ x. is_made r w' (tx r x) ≡ true) (λ x m. c.made_before (tx r x) (apart.made x m))
          c.made;
    opened =
        each (λ x. is_closed r w' (tx r x) ≡ false)
          (λ x m. c.closed_before (tx r x) (apart.made x m) ∙ apart.opened x m) c.opened;
  }
    where
      fresh : uses r (tx r req) (tickets reqs) ≡ 0
      fresh =
          unused_of_unmade r w (tickets reqs)
            (λ p m.
              let (x, m', e) = Memᴰ.of_map ticket reqs m in
              subst (λ p. is_made r w p.0 ≡ true) e (apart.made x m'))
            (tx r req) c.fresh

      each :
          (P : Request r → Type 0)
          → ((x : Request r) → Memᴰ x reqs → P x)
          → P req
          → (x : Request r) → Memᴰ x (reqs ++ req ∷ [])
          → P x
      each P old new x m = elim (Memᴰ.append_cases reqs m) [
        | inl early ↦ old x early
        | inr late ↦ subst P (sym (Memᴰ.eq_of_singleton late)) new
      ]

  -- The loader's only task is a new one, and `reqs` wait for it.
  pub record Waits (l : DataLoader r q) (reqs : List (Request r)) : Type 0 where
    pub stealer : q.Stealer
    pub waits : q.waiting l.queue ≡ some stealer
    pub one : l.spawned ≡ new_task r q stealer ∷ []
    pub held : q.buffer l.queue ≡ reqs
    pub apart : Apart l.world reqs

  -- The first request on a loader with nothing to do.
  pub enqueue-first :
      (k : r.Key) (req : Request r) (w : World r) (l : DataLoader r q)
      → Created r k l.world req w
      → q.waiting l.queue ≡ none
      → l.spawned ≡ []
      → Waits (enqueue r q req (record l { world = w })) (req ∷ [])
  unfolding new_task
  enqueue-first k req w l created out none_spawned =
      let (s, gave, waits, held) = q.push_first req l.queue out in
      rw
        (
          enqueue-schedule r q req (record l { world = w }),
          schedule-cons_some r q (record l { world = w }) req [] gave,
        )
        (record {
          stealer = s;
          waits = waits;
          one = rw none_spawned refl;
          held = held;
          apart = load_by-Apart [] req (nil-Apart l.world) created;
        })

  -- A further request.
  pub enqueue-more :
      (k : r.Key) (req : Request r) (w : World r) (l : DataLoader r q) (reqs : List (Request r))
      → Created r k l.world req w
      → Waits l reqs
      → Waits (enqueue r q req (record l { world = w })) (reqs ++ req ∷ [])
  enqueue-more k req w l reqs created waits =
      let (gave, waits', held) = q.push_more req l.queue waits.stealer waits.waits in
      rw
        (
          enqueue-schedule r q req (record l { world = w }),
          schedule-cons_none r q (record l { world = w }) req [] waits.waits,
          schedule-nil r q (record l { world = w; queue = (q.push req l.queue).1 }),
        )
        (record {
          stealer = waits.stealer;
          waits = waits';
          one = waits.one;
          held = held ∙ rw waits.held refl;
          apart = load_by-Apart reqs req waits.apart created;
        })

  load_by-first :
      (k : r.Key) (l : DataLoader r q)
      → q.waiting l.queue ≡ none
      → l.spawned ≡ []
      → let (rx, l') = load_by r q k l in Waits l' (requested_by (k, rx) ∷ [])
  unfolding load_by new_oneshot
  load_by-first k l out none_spawned =
      let ((req, rx), w) = new_oneshot r k l.world in
      enqueue-first k req w l (new_oneshot-Created r k l.world).0 out none_spawned

  load_by-more :
      (k : r.Key) (l : DataLoader r q) (reqs : List (Request r))
      → Waits l reqs
      → let (rx, l') = load_by r q k l in Waits l' (reqs ++ requested_by (k, rx) ∷ [])
  unfolding load_by new_oneshot
  load_by-more k l reqs waits =
      let ((req, rx), w) = new_oneshot r k l.world in
      enqueue-more k req w l reqs (new_oneshot-Created r k l.world).0 waits

  load_all-more :
      (ks : List r.Key) (l : DataLoader r q) (reqs : List (Request r))
      → Waits l reqs
      → let (calls, l') = load_all ks l in Waits l' (reqs ++ map requested_by calls)
  unfolding load_all
  load_all-more [] l reqs waits = rw (append-nil reqs) waits
  load_all-more (k ∷ ks) l reqs waits =
      let (rx, l') = load_by r q k l in
      rw (← append_assoc reqs (requested_by (k, rx) ∷ []) (map requested_by (load_all ks l').0))
        (load_all-more ks l' (reqs ++ requested_by (k, rx) ∷ []) (load_by-more k l reqs waits))

  -- On a loader with nothing to do, the first call spawns a task and the others wait for it.
  pub load_all-Waits :
      (k : r.Key) (ks : List r.Key) (l : DataLoader r q)
      → q.waiting l.queue ≡ none
      → l.spawned ≡ []
      → let (calls, l') = load_all (k ∷ ks) l in Waits l' (map requested_by calls)
  unfolding load_all
  load_all-Waits k ks l out none_spawned =
      let (rx, l') = load_by r q k l in
      load_all-more ks l' (requested_by (k, rx) ∷ []) (load_by-first k l out none_spawned)

  pub keys-load_all :
      (ks : List r.Key) (l : DataLoader r q) → map (λ call. call.0) (load_all ks l).0 ≡ ks
  unfolding load_all
  keys-load_all [] l = refl
  keys-load_all (k ∷ ks) l = ap (λ x. k ∷ x) (keys-load_all ks (load_by r q k l).1)
