-- ===== src/Tiers/Adapter.antt =====
-- A look-up in Redis ends: what it found is answered, and the rest moves to the data store's loader.
use mathlib.Core.List.Permᴰ
use mathlib.Core.List.{append_assoc, map-append}
use channel_loader_rs.Service.{Event, replies}
use channel_loader_rs.Base.{
  Result, err, ok, sym, HashMap, pull_front, ◌≤◌, ◌≡◌, refl, subst, List, [], ◌∷◌, ◌++◌, map,
  Result-cases, Permᴰ, arith, inl, inr,
}
use channel_loader_rs.External.{SwapQueue, Order}
use channel_loader_rs.External.Redis.{Text, Bytes, RedisCache}
use channel_loader_rs.Request.{Runtime, Request}
use channel_loader_rs.Request.Answer.{Tx}
use channel_loader_rs.Task.{LoadBatch, keys, not_found}
use channel_loader_rs.Task.ForEach.{senders, senders-perm, senders-append}
use channel_loader_rs.Task.Keys.{key-mem-keys}
use channel_loader_rs.Loader.{DataLoader}
use channel_loader_rs.Loader.Staffed.{Staffed, queued}
use channel_loader_rs.Handler.{TaskHandler}
use channel_loader_rs.System.Held.{held, job_requests}
use channel_loader_rs.Redis.Cache.{load}
use channel_loader_rs.Redis.Cache.Lookup.{
  calling_back, looked_up, queued-ok, world-ok, staffed-ok, queued-err, world-err, staffed-err,
  tx-calling_back, key-calling_back,
}
use channel_loader_rs.Tickets.{Ticket, ticket, tickets, uses-tickets, Ledger, Answers-refl}
use channel_loader_rs.Tickets.Moves.{Ledger-answer}
use channel_loader_rs.Tickets.Served.{Served, moved-Served, answered-Served}
use channel_loader_rs.Tickets.Answered.{
  found_requests, found_requests-perm, apply_partial_results-Answers,
}
use channel_loader_rs.Tiers.{Redises, tiers_runtime, State, front}
use channel_loader_rs.Tiers.Invariant.{looked_up_requests, Source, cached, above}

-- Of a part F ++ N of a whole, F leaves, and N joins another part.
regroup {ℓ} :
    {A : Type ℓ} (F N U Q J : List A)
    → Permᴰ (((F ++ N) ++ U) ++ (Q ++ J)) (F ++ (U ++ ((Q ++ N) ++ J)))
regroup F N U Q J = simp append_assoc (
    Permᴰ.append_left F
      (Permᴰ.trans (pull_front N U (Q ++ J)) (Permᴰ.append_left U (pull_front N Q J))))

pub looked_up_requests-append :
    {r : Runtime} (xs ys : List (LoadBatch r))
    → looked_up_requests (xs ++ ys) ≡ looked_up_requests xs ++ looked_up_requests ys
unfolding looked_up_requests
looked_up_requests-append [] ys = refl
looked_up_requests-append (x ∷ xs) ys = rw (looked_up_requests-append xs ys, append_assoc) refl

module _ (t : Runtime) (wq : SwapQueue (Text × Bytes)) (c : RedisCache t.Key t.Value) where
  abbrev r : Runtime
  r = tiers_runtime t wq

  tickets-calling_back :
      (reqs : List (Request r))
      → tickets {r = r} (map (calling_back t wq c) reqs) ≡ tickets {r = r} reqs
  tickets-calling_back [] = refl
  tickets-calling_back (req ∷ reqs) =
      rw (tx-calling_back t wq c req, key-calling_back t wq c req, tickets-calling_back reqs) refl

  -- What a look-up answers: the requests of the batch that it found, if Redis did not fail.
  abbrev pub result_events :
      LoadBatch r → Result (HashMap t.Key t.Value) c.RedisError → List (Event (Ticket r))
  result_events batch (ok m) = replies (tickets {r = r} (found_requests r m batch.requests)) ∷ []
  result_events batch (err x) = []

  abbrev pub look_up_events : Order t.Key → LoadBatch r → List (Event (Ticket r))
  look_up_events order batch = result_events batch (load t.Key-discrete c (keys r order batch))

  module _ (q d : SwapQueue (Request r)) (s : State t wq q d) (before after : List (LoadBatch r))
      (batch : LoadBatch r) (e : s.loading ≡ before ++ batch ∷ after) where
    abbrev moved : DataLoader r d → State t wq q d
    moved l' = record s { loading = before ++ after; store = record s.store { loader = l' } }

    above-split :
        (l' : DataLoader r d)
        → Permᴰ (above t wq q d s) (batch.requests ++ above t wq q d (moved l'))
    unfolding above looked_up_requests queued
    above-split l' =
        rw
          (
            e,
            looked_up_requests-append before (batch ∷ after),
            looked_up_requests-append before after,
          )
          (Permᴰ.trans
            (Permᴰ.append_left (queued r q (front s))
              (pull_front (looked_up_requests before) batch.requests (looked_up_requests after)))
            (pull_front (queued r q (front s)) batch.requests
              (looked_up_requests before ++ looked_up_requests after)))

    -- What the look-up answers is split off, and the rest goes to the data store's loader.
    shift :
        (F N N' : List (Request r)) (l' : DataLoader r d)
        → Permᴰ batch.requests (F ++ N)
        → tickets {r = r} N' ≡ tickets {r = r} N
        → Permᴰ (queued r d l') (queued r d s.store.loader ++ N')
        → Permᴰ (tickets {r = r} (above t wq q d s ++ held r d s.store)) (
            tickets {r = r} F
            ++ tickets {r = r} (above t wq q d (moved l') ++ held r d (moved l').store))
    unfolding held
    shift F N N' l' split same scheduled =
        let J = job_requests r d s.store.jobs in
        let Q = queued r d s.store.loader in
        let U = above t wq q d (moved l') in
        let parted : Permᴰ (above t wq q d s ++ (Q ++ J)) (F ++ (U ++ ((Q ++ N) ++ J))) =
          Permᴰ.trans
            (Permᴰ.append_right (Q ++ J)
              (Permᴰ.trans (above-split l') (Permᴰ.append_right U split)))
            (regroup F N U Q J) in
        let renamed : tickets {r = r} (U ++ ((Q ++ N) ++ J))
            ≡ tickets {r = r} (U ++ ((Q ++ N') ++ J)) =
          simp (map-append, same) refl in
        let placed : Permᴰ (tickets {r = r} (U ++ ((Q ++ N') ++ J)))
            (tickets {r = r} (U ++ (queued r d l' ++ J))) =
          Permᴰ.map ticket (Permᴰ.append_left U (Permᴰ.append_right J (Permᴰ.symm scheduled))) in
        Permᴰ.trans
          (subst (Permᴰ (tickets {r = r} (above t wq q d s ++ (Q ++ J))))
            (map-append (ticket {r = r}) F (U ++ ((Q ++ N) ++ J)))
            (Permᴰ.map (ticket {r = r}) parted))
          (Permᴰ.append_left (tickets {r = r} F) (rw renamed placed))

    abbrev AfterLookUp :
        DataLoader r d
        → List (Ticket r)
        → List (Event (Ticket r))
        → Result (HashMap t.Key t.Value) c.RedisError
        → Type 0
    AfterLookUp l' log es x =
        Served (result_events batch x ++ es) log
          (tickets {r = r} (above t wq q d (moved l') ++ held r d (moved l').store))

    -- What is answered leaves, and what is not found stays outstanding.
    pub finish-Served :
        {es : List (Event (Ticket r))} {log : List (Ticket r)} (order : Order t.Key)
        (visit : Order (Request r))
        → Staffed r d s.store.loader
        → Served es log (tickets {r = r} (above t wq q d s ++ held r d s.store))
        → let l' = looked_up t wq c d order visit batch s.store.loader in
          Served
            (look_up_events order batch ++ es)
            log
            (tickets {r = r} (above t wq q d (moved l') ++ held r d (moved l').store))
    finish-Served {es} {log} order visit st served =
        let l' = looked_up t wq c d order visit batch s.store.loader in
        elim (Result-cases (load t.Key-discrete c (keys r order batch))) [
          | inl (m, e) ↦
              let N = not_found r m batch.requests in
              let F = found_requests r m batch.requests in
              subst (AfterLookUp l' log es) (sym e) (
                answered-Served (tickets {r = r} F)
                  (shift F N (map (calling_back t wq c) N) l'
                    (found_requests-perm r m batch.requests) (tickets-calling_back N)
                    (queued-ok t wq c d order visit batch s.store.loader st e))
                  served)
          | inr (x, e) ↦ subst (AfterLookUp l' log es) (sym e) (
              moved-Served
                (shift [] batch.requests batch.requests l' (Permᴰ.refl batch.requests) refl
                  (queued-err t wq c d order visit batch s.store.loader e st))
                served)
        ]

    module _ (redises : Redises t) (time : redises.Time) (at_time : redises.at time ≡ c)
        (h : TaskHandler r d) (order : Order t.Key) (visit : Order (Request r))
        {log : List (Ticket r)} (st : Staffed r d s.store.loader)
        (l : Ledger r
          (Source t wq q d redises h)
          log
          (tickets (above t wq q d s ++ held r d s.store))
          s.store.world) where
      abbrev l' : DataLoader r d
      l' = looked_up t wq c d order visit batch s.store.loader

      once : (u : Tx r) → senders r u batch.requests ≤ 1
      once u =
          let H = held r d s.store in
          let A = above t wq q d (moved s.store.loader) in
          omega (
            arith,
            senders-perm r u (Permᴰ.append_right H (above-split s.store.loader)),
            senders-append r u (batch.requests ++ A) H,
            senders-append r u batch.requests A,
            uses-tickets r u (above t wq q d s ++ H),
            l.once u,
          )

      pub finish-Ledger :
          Staffed r d l'
          × Ledger r
              (Source t wq q d redises h)
              log
              (tickets (above t wq q d (moved l') ++ held r d (moved l').store))
              l'.world
      finish-Ledger = elim (Result-cases (load t.Key-discrete c (keys r order batch))) [
        | inl (m, e) ↦
            let N = not_found r m batch.requests in
            let F = found_requests r m batch.requests in
            (
              staffed-ok t wq c d order visit batch s.store.loader st e,
              Ledger-answer r (Source t wq q d redises h) l (tickets F) _
                  (shift F N (map (calling_back t wq c) N) l'
                    (found_requests-perm r m batch.requests) (tickets-calling_back N)
                    (queued-ok t wq c d order visit batch s.store.loader st e))
                  (rw (world-ok t wq c d order visit batch s.store.loader st e) (
                    apply_partial_results-Answers r (Source t wq q d redises h) m visit batch
                      s.store.world once
                      λ req v mem holds. cached (record {
                        time = time;
                        keys = keys r order batch;
                        results = m;
                        value = v;
                        asked = key-mem-keys r order batch req mem;
                        gives =
                            subst (λ c. load t.Key-discrete c (keys r order batch) ≡ ok m)
                              (sym at_time) e;
                        holds = holds;
                        reply = refl;
                      }))),
            )
        | inr (x, e) ↦ (
          staffed-err t wq c d order visit batch s.store.loader e st,
          Ledger-answer r (Source t wq q d redises h) l [] _
              (shift [] batch.requests batch.requests l' (Permᴰ.refl batch.requests) refl
                (queued-err t wq c d order visit batch s.store.loader e st))
              (rw (world-err t wq c d order visit batch s.store.loader e st)
                (Answers-refl r (Source t wq q d redises h) s.store.world)),
        )
      ]
