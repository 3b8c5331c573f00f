-- ===== src/Tickets/Served.antt =====
-- Tickets that are issued, move about and are answered, as the service of Service.antt sees them.
use mathlib.Core.List.Permᴰ
use mathlib.Core.List.Memᴰ
use mathlib.Core.List.{append_assoc}
use mathlib.Core.Quot.{sound}
use mathlib.Mathlib.Data.Multiset.Defs.{of_list}
use mathlib.Mathlib.Data.Multiset.AddSub.{add}
use channel_loader_rs.Base.{
  none, ◌∙◌, ap, pull_front, ◌≤◌, ◌≡◌, refl, sym, ◌⊎◌, inl, inr, true, List, [], ◌∷◌, ◌++◌, some,
  Memᴰ, Permᴰ, perm-Memᴰ, arith,
}
use channel_loader_rs.Request.{Runtime, Reply, World, Request}
use channel_loader_rs.Request.Create.{Created}
use channel_loader_rs.Tickets.Moves.{unused_of_unmade, once-cons}
use channel_loader_rs.Request.Answer.{Tx, answer, is_closed}
use channel_loader_rs.Service.{
  Event, asks, replies, asked, replied, Runs, begin, keep, ask, reply, Runs-total,
}
use channel_loader_rs.Tickets.{
  Ticket, ticket, uses, uses-perm, uses-append, uses_pos, waiting, gone, answered, Ledger,
}

module _ {T : Type 0} where
  -- The service allows the events and comes to what is held; what was asked is what was issued,
  -- and each issued ticket was replied to or is held.
  pub record Served (es : List (Event T)) (log held : List T) : Type 0 where
    pub runs : Runs es (of_list held)
    pub issued : asked es ≡ log
    pub places : Permᴰ log (replied es ++ held)

  pub start-Served : Served [] [] []
  start-Served = record { runs = begin; issued = refl; places = Permᴰ.nil }

  module _ {es : List (Event T)} {log held : List T} where
    -- What is held only changes places.
    pub moved-Served :
        {held' : List T} → Permᴰ held held' → Served es log held → Served es log held'
    moved-Served p s = record {
      runs = keep s.runs (sym (sound ∣ p ∣₁));
      issued = s.issued;
      places = Permᴰ.trans s.places (Permᴰ.append_left (replied es) p);
    }

    pub pushed-Served :
        (t : T) {held' : List T}
        → Permᴰ held' (t ∷ held)
        → Served es log held
        → Served (asks t ∷ es) (t ∷ log) held'
    pushed-Served t p s = record {
      runs = ask t s.runs (sound ∣ p ∣₁);
      issued = ap (λ x. t ∷ x) s.issued;
      places = Permᴰ.trans (Permᴰ.cons refl s.places) (
          Permᴰ.trans (Permᴰ.symm (Permᴰ.middle t (replied es) held))
            (Permᴰ.append_left (replied es) (Permᴰ.symm p)));
    }

    pub answered-Served :
        (ts : List T) {held' : List T}
        → Permᴰ held (ts ++ held')
        → Served es log held
        → Served (replies ts ∷ es) log held'
    answered-Served ts {held'} p s = record {
      runs = reply ts s.runs (sound ∣ p ∣₁);
      issued = s.issued;
      places = Permᴰ.trans s.places (
          Permᴰ.trans (Permᴰ.append_left (replied es) p)
            (rw (append_assoc ts (replied es) held') (pull_front (replied es) ts held')));
    }

module _ {ℓ} (r : Runtime) (Good : r.Key → Reply r → Type ℓ) where
  -- Each of the tickets has a good reply, or its caller has gone.
  abbrev pub AllAnswered : World r → List (Ticket r) → Type ℓ
  AllAnswered w [] = Unit {ℓ}
  AllAnswered w (p ∷ ps) =
      ((is_closed r w p.0 ≡ true) ⊎ ((v : Reply r) × (answer r w p.0 ≡ some v) × Good p.1 v))
      × AllAnswered w ps

  all_answered :
      (log : List (Ticket r)) (w : World r) {held : List (Ticket r)}
      → Ledger r Good log held w
      → (done : List (Ticket r))
      → ((p : Ticket r) → Memᴰ p done → Memᴰ p log × (uses r p.0 held ≡ 0))
      → AllAnswered w done
  all_answered log w l [] places = tt
  all_answered log w {held} l (p ∷ done) places =
      let (logged, free) = places p (Memᴰ.head refl) in
      (
        elim (l.outcome p logged) [
          | waiting here ↦ absurd (omega (arith, free, uses_pos r p held here))
          | gone shut ↦ inl shut
          | answered v a good ↦ inr (v, a, good)
        ],
        all_answered log w l done (λ x m. places x (Memᴰ.tail m)),
      )

  -- The sender of a new request is no other's.
  pub issue_once :
      {log held : List (Ticket r)} {k : r.Key} {req : Request r} {w w' : World r}
      → Ledger r Good log held w
      → Created r k w req w'
      → ((t : Tx r) → uses r t log ≤ 1)
      → (t : Tx r) → uses r t (ticket req ∷ log) ≤ 1
  issue_once {log} {req = req} {w = w} l created once =
      once-cons r (ticket req) log (unused_of_unmade r w log l.logged _ created.fresh) once

  -- None of the tickets has a reply.
  abbrev pub AllWait : World r → List (Ticket r) → Type 0
  AllWait w [] = Unit {0}
  AllWait w (p ∷ ps) = (answer r w p.0 ≡ none) × AllWait w ps

  all_wait :
      (w : World r) (ps : List (Ticket r))
      → ((p : Ticket r) → Memᴰ p ps → answer r w p.0 ≡ none)
      → AllWait w ps
  all_wait w [] silent = tt
  all_wait w (p ∷ ps) silent =
      (silent p (Memᴰ.head refl), all_wait w ps (λ x m. silent x (Memᴰ.tail m)))

  -- The events are those of a run of the service that has taken the tickets of `log` and has those
  -- of `held` outstanding; no sender is replied to twice; and what the senders' receivers see
  -- agrees: a ticket replied to has a good reply, or its caller had gone, and one outstanding has none.
  pub record Fulfils (es : List (Event (Ticket r))) (log held : List (Ticket r)) (w : World r)
      : Type ℓ where
    pub runs : Runs es (of_list held)
    pub issued : asked es ≡ log
    pub total : of_list log ≡ add (of_list (replied es)) (of_list held)
    pub once : (t : Tx r) → uses r t (replied es) ≤ 1
    pub answers : AllAnswered w (replied es)
    pub waits : AllWait w held

  pub Served-Fulfils :
      {es : List (Event (Ticket r))} {log held : List (Ticket r)} (w : World r)
      → Ledger r Good log held w
      → ((t : Tx r) → uses r t log ≤ 1)
      → Served es log held
      → Fulfils es log held w
  Served-Fulfils {es} {log} {held} w l once s = record {
    runs = s.runs;
    issued = s.issued;
    total = ap of_list (sym s.issued) ∙ Runs-total s.runs;
    once = λ t. omega (arith, once t, uses-perm r t s.places, uses-append r t (replied es) held);
    answers = all_answered log w l (replied es) λ x m. (
      perm-Memᴰ (Permᴰ.symm s.places) (Memᴰ.append_left _ m),
      omega (
        arith,
        once x.0,
        uses-perm r x.0 s.places,
        uses-append r x.0 (replied es) held,
        uses_pos r x (replied es) m,
      ),
    );
    waits = all_wait w held l.silent;
  }
