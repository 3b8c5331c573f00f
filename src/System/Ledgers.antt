-- ===== src/System/Ledgers.antt =====
-- The program's own steps and a ledger that may also count requests held elsewhere.
use mathlib.Core.List.Permᴰ
use mathlib.Core.List.Memᴰ
use mathlib.Core.List.{map-append}
use channel_loader_rs.Base.{
  pull_front, ◌≤◌, refl, sym, ap, subst, inl, inr, List, ◌∷◌, ◌++◌, Permᴰ, Memᴰ, arith,
}
use channel_loader_rs.External.{SwapQueue}
use channel_loader_rs.Request.{Runtime, Reply, Request, key}
use channel_loader_rs.Request.Answer.{Tx}
use channel_loader_rs.Task.{LoadBatch, run_job}
use channel_loader_rs.Task.ForEach.{senders}
use channel_loader_rs.Task.Keys.{key-mem-keys}
use channel_loader_rs.Task.Resolve.{reply_to}
use channel_loader_rs.Loader.Staffed.{Staffed, Staffed-world}
use channel_loader_rs.Handler.{TaskHandler}
use channel_loader_rs.System.{System, Work, handle, run, after_run}
use channel_loader_rs.System.Held.{
  held, held-after_run, held-after_handle, handle-eq, job_of-IsLoaded,
}
use channel_loader_rs.System.Invariant.{Loaded, AllLoaded}
use channel_loader_rs.Tickets.{
  Ticket, ticket, tickets, uses-tickets, uses-perm, uses-append, Ledger,
}
use channel_loader_rs.Tickets.Moves.{Ledger-perm, Ledger-answer}
use channel_loader_rs.Tickets.Answered.{run_job-Answers}

insert_mem {ℓ} :
    {A : Type ℓ} {x : A} (y : A) (before after : List A)
    → Memᴰ x (before ++ after)
    → Memᴰ x (before ++ y ∷ after)
insert_mem y before after m = elim (Memᴰ.append_cases before m) [
  | inl early ↦ Memᴰ.append_left _ early
  | inr late ↦ Memᴰ.append_right before (Memᴰ.tail late)
]

-- Requests that leave a part of what is held are split off from the whole.
pub split_off :
    {r : Runtime} (extra done before after : List (Request r))
    → Permᴰ before (done ++ after)
    → Permᴰ
        (tickets {r = r} (extra ++ before))
        (tickets {r = r} done ++ tickets {r = r} (extra ++ after))
split_off {r} extra done before after p =
    subst (Permᴰ (tickets {r = r} (extra ++ before)))
      (map-append (ticket {r = r}) done (extra ++ after))
      (Permᴰ.map (ticket {r = r})
        (Permᴰ.trans (Permᴰ.append_left extra p) (pull_front extra done after)))

module _ (r : Runtime) (q : SwapQueue (Request r)) (h : TaskHandler r q) where
  pub Work-AllLoaded : {s t : System r q} → Work r q h s t → AllLoaded r q h s → AllLoaded r q h t
  Work-AllLoaded {s} (handle o before after task e) all =
      subst (AllLoaded r q h) (sym (handle-eq r q h o (before ++ after) task s)) λ job m.
        elim (Memᴰ.append_cases s.jobs m) [
          | inl old ↦ all job old
          | inr new ↦ rw (Memᴰ.eq_of_singleton new) (o, job_of-IsLoaded r q h o task s)
        ]
  Work-AllLoaded (run order before after job e) all =
      λ other m. all other (rw e (insert_mem job before after m))

  pub Work-Staffed :
      {s t : System r q} → Work r q h s t → Staffed r q s.loader → Staffed r q t.loader
  Work-Staffed {s} (handle o before after task e) st =
      (held-after_handle r q h s o before after task st e).0
  Work-Staffed {s} (run order before after job e) st =
      Staffed-world r q s.loader (run_job r order job s.world) st

  pub Work-Ledger {ℓ} :
      (Good : r.Key → Reply r → Type ℓ)
      → ((k : r.Key) (v : Reply r) → Loaded r q h k v → Good k v)
      → {log : List (Ticket r)} (extra : List (Request r)) {s t : System r q} → Work r q h s t
      → Staffed r q s.loader
      → AllLoaded r q h s
      → Ledger r Good log (tickets (extra ++ held r q s)) s.world
      → Ledger r Good log (tickets (extra ++ held r q t)) t.world
  Work-Ledger Good good extra {s} (handle o before after task e) st all l =
      Ledger-perm r Good l (
        Permᴰ.map _
          (Permᴰ.append_left extra (held-after_handle r q h s o before after task st e).1))
  Work-Ledger Good good extra {s} (run order before after job e) st all l =
      Ledger-answer r Good l (tickets job.requests) _ parted
        (run_job-Answers r Good order job s.world once loaded)
    where
      rest : System r q
      rest = after_run r q h order (before ++ after) job s

      parted :
          Permᴰ
            (tickets (extra ++ held r q s))
            (tickets job.requests ++ tickets (extra ++ held r q rest))
      parted =
          split_off extra job.requests (held r q s) (held r q rest)
            (held-after_run r q s before after job (run_job r order job s.world) e)

      once : (t : Tx r) → senders r t job.requests ≤ 1
      once t = omega (
        arith,
        uses-perm r t parted,
        uses-append r t (tickets job.requests) (tickets (extra ++ held r q rest)),
        uses-tickets r t job.requests,
        l.once t,
      )

      loaded :
          (req : Request r)
          → Memᴰ req job.requests
          → Good (key r req) (reply_to r job.results (key r req))
      loaded req m =
          let (o, results) = all job (rw e (Memᴰ.append_right before (Memᴰ.head refl))) in
          let batch : LoadBatch r = record { requests = job.requests } in
          good (key r req) (reply_to r job.results (key r req)) (record {
            oracle = o;
            batch = batch;
            asked = key-mem-keys r (h.key_order o) batch req m;
            reply = ap (λ results. reply_to r results (key r req)) results;
          })
