-- ===== src/Tickets/Moves.antt =====
-- The moves that keep a ledger: tickets change places, are issued, are answered, or are given up.
use channel_loader_rs.Base.{
  ◌+◌, ◌≤◌, ◌≡◌, refl, ◌∙◌, sym, subst, true, false, List, [], ◌∷◌, ◌++◌, some, none, Memᴰ, Permᴰ,
  perm-Memᴰ, arith, Nat-cases, Bool-cases, inl, inr, count,
}
use mathlib.Core.List.Permᴰ
use mathlib.Core.List.Memᴰ
use channel_loader_rs.Request.{Runtime, Reply, World, Request}
use channel_loader_rs.Request.Answer.{Tx, Tx-discrete, tx, answer, is_closed, is_made}
use channel_loader_rs.Request.Create.{
  Extends, Created, drop_receivers, answer-drop_receivers, is_made-drop_receivers,
  is_closed-drop_receivers, is_closed-drop_receivers_ne,
}
use channel_loader_rs.Tickets.{
  Ticket, ticket, uses, uses-perm, uses-append, uses_pos, Outcome, waiting, gone, answered, Ledger,
  Answers,
}

head_tail {ℓ κ} :
    {A : Type ℓ} (P : A → Type κ) (a : A) {xs : List A}
    → P a
    → ((x : A) → Memᴰ x xs → P x)
    → (x : A) → Memᴰ x (a ∷ xs)
    → P x
head_tail P a h t x (Memᴰ.head e) = subst P (sym e) h
head_tail P a h t x (Memᴰ.tail m) = t x m

module _ (r : Runtime) where
  uses_some :
      (t : Tx r) (ps : List (Ticket r)) → 1 ≤ uses r t ps → (p : Ticket r) × Memᴰ p ps × (p.0 ≡ t)
  unfolding uses
  uses_some t [] h = absurd (unfold count in omega arith)
  uses_some t (p ∷ ps) h = elim (Tx-discrete r p.0 t) [
    | yes e ↦ (p, Memᴰ.head refl, e)
    | no ne ↦ let (x, m, e) = uses_some t ps (unfold count in ground arith) in (x, Memᴰ.tail m, e)
  ]

  -- A channel that is not made yet is no ticket's.
  pub unused_of_unmade :
      (w : World r) (ps : List (Ticket r))
      → ((p : Ticket r) → Memᴰ p ps → is_made r w p.0 ≡ true)
      → (t : Tx r) → is_made r w t ≡ false
      → uses r t ps ≡ 0
  unused_of_unmade w ps made t fresh = elim (Nat-cases (uses r t ps)) [
    | inl e ↦ e
    | inr pos ↦
        let (p, m, e) = uses_some t ps pos in
        absurd (cc (sym fresh ∙ subst (λ u. is_made r w u ≡ true) e (made p m)))
  ]

  -- Senders stay apart when a ticket with one of its own is added.
  pub once-cons :
      (p : Ticket r) (ps : List (Ticket r))
      → uses r p.0 ps ≡ 0
      → ((t : Tx r) → uses r t ps ≤ 1)
      → (t : Tx r) → uses r t (p ∷ ps) ≤ 1
  once-cons p ps fresh once t = elim (Tx-discrete r p.0 t) [
    | yes e ↦
        let none_held : uses r t ps ≡ 0 = subst (λ u. uses r u ps ≡ 0) e fresh in
        unfold uses count in ground arith
    | no ne ↦ let rest = once t in unfold uses count in ground arith
  ]

module _ {ℓ} (r : Runtime) (Good : r.Key → Reply r → Type ℓ) where
  module _ {log held : List (Ticket r)} {w : World r} (l : Ledger r Good log held w) where
    unused_of_answered : (t : Tx r) (v : Reply r) → answer r w t ≡ some v → uses r t held ≡ 0
    unused_of_answered t v a = elim (Nat-cases (uses r t held)) [
      | inl e ↦ e
      | inr pos ↦
          let (p, m, e) = uses_some r t held pos in
          absurd (cc (sym a ∙ subst (λ u. answer r w u ≡ none) e (l.silent p m)))
    ]

    -- The held tickets only change places.
    pub Ledger-perm : {held' : List (Ticket r)} → Permᴰ held held' → Ledger r Good log held' w
    Ledger-perm {held'} moved = record {
      once = λ t. rw (← uses-perm r t moved) (l.once t);
      made = λ p m. l.made p (perm-Memᴰ (Permᴰ.symm moved) m);
      silent = λ p m. l.silent p (perm-Memᴰ (Permᴰ.symm moved) m);
      logged = l.logged;
      outcome = λ p m. keep p (l.outcome p m);
    }
      where
        keep : (p : Ticket r) → Outcome r Good held w p → Outcome r Good held' w p
        keep p (waiting m) = waiting (perm-Memᴰ moved m)
        keep p (gone g) = gone g
        keep p (answered v a g) = answered v a g

    -- Channels are made.
    pub Ledger-extend : {w' : World r} → Extends r w w' → Ledger r Good log held w'
    Ledger-extend {w'} ext = record {
      once = l.once;
      made = λ p m. ext.made_before p.0 (l.made p m);
      silent = λ p m. ext.answer_before p.0 (l.made p m) ∙ l.silent p m;
      logged = λ p m. ext.made_before p.0 (l.logged p m);
      outcome = λ p m. keep p (l.logged p m) (l.outcome p m);
    }
      where
        keep :
            (p : Ticket r)
            → is_made r w p.0 ≡ true
            → Outcome r Good held w p
            → Outcome r Good held w' p
        keep p made (waiting m) = waiting m
        keep p made (gone g) = gone (ext.closed_before p.0 made ∙ g)
        keep p made (answered v a g) = answered v (ext.answer_before p.0 made ∙ a) g

    -- A caller drops its receivers.
    pub Ledger-drop : (t : Tx r) → Ledger r Good log held (drop_receivers r t w)
    Ledger-drop t = record {
      once = l.once;
      made = λ p m. is_made-drop_receivers r t p.0 w ∙ l.made p m;
      silent = λ p m. answer-drop_receivers r t p.0 w ∙ l.silent p m;
      logged = λ p m. is_made-drop_receivers r t p.0 w ∙ l.logged p m;
      outcome = λ p m. keep p (l.outcome p m);
    }
      where
        keep :
            (p : Ticket r) → Outcome r Good held w p → Outcome r Good held (drop_receivers r t w) p
        keep p (waiting m) = waiting m
        keep p (gone g) = elim (Tx-discrete r t p.0) [
          | yes e ↦ gone (
              subst (λ u. is_closed r (drop_receivers r t w) u ≡ true) e
                (is_closed-drop_receivers r t w))
          | no ne ↦ gone (is_closed-drop_receivers_ne r t p.0 w ne ∙ g)
        ]
        keep p (answered v a g) = answered v (answer-drop_receivers r t p.0 w ∙ a) g

    -- A ticket with a channel of its own is issued.
    issue :
        (p : Ticket r)
        → is_made r w p.0 ≡ true
        → answer r w p.0 ≡ none
        → uses r p.0 held ≡ 0
        → Ledger r Good (p ∷ log) (p ∷ held) w
    issue p made silent fresh = record {
      once = once-cons r p held fresh l.once;
      made = head_tail (λ x. is_made r w x.0 ≡ true) p made l.made;
      silent = head_tail (λ x. answer r w x.0 ≡ none) p silent l.silent;
      logged = head_tail (λ x. is_made r w x.0 ≡ true) p made l.logged;
      outcome =
          head_tail (Outcome r Good (p ∷ held) w) p (waiting (Memᴰ.head refl))
            (λ x m. keep x (l.outcome x m));
    }
      where
        keep : (x : Ticket r) → Outcome r Good held w x → Outcome r Good (p ∷ held) w x
        keep x (waiting m) = waiting (Memᴰ.tail m)
        keep x (gone g) = gone g
        keep x (answered v a g) = answered v a g

    -- Tickets that are held are answered, and leave.
    pub Ledger-answer :
        {w' : World r} (done rest : List (Ticket r))
        → Permᴰ held (done ++ rest)
        → Answers r Good w w' done
        → Ledger r Good log rest w'
    Ledger-answer {w'} done rest split a = record {
      once = λ t. omega (arith, total t, l.once t);
      made = λ p m. a.made_same p.0 ∙ l.made p (still p m);
      silent = λ p m. a.others p.0 (apart p m) ∙ l.silent p (still p m);
      logged = λ p m. a.made_same p.0 ∙ l.logged p m;
      outcome = λ p m. keep p (l.outcome p m);
    }
      where
        total : (t : Tx r) → uses r t held ≡ uses r t done + uses r t rest
        total t = uses-perm r t split ∙ uses-append r t done rest

        still : (p : Ticket r) → Memᴰ p rest → Memᴰ p held
        still p m = perm-Memᴰ (Permᴰ.symm split) (Memᴰ.append_right done m)

        apart : (p : Ticket r) → Memᴰ p rest → uses r p.0 done ≡ 0
        apart p m = omega (arith, total p.0, l.once p.0, uses_pos r p rest m)

        reply : (p : Ticket r) → Memᴰ p done → Outcome r Good rest w' p
        reply p m = elim (Bool-cases (is_closed r w p.0)) [
          | inl shut ↦ gone (a.closed_same p.0 ∙ shut)
          | inr open_still ↦ let (v, e, g) = a.replies p m open_still in answered v e g
        ]

        keep : (p : Ticket r) → Outcome r Good held w p → Outcome r Good rest w' p
        keep p (waiting m) = elim (Memᴰ.append_cases done (perm-Memᴰ split m)) [
          | inl now ↦ reply p now
          | inr later ↦ waiting later
        ]
        keep p (gone g) = gone (a.closed_same p.0 ∙ g)
        keep p (answered v e g) =
            answered v (a.others p.0 (omega (arith, total p.0, unused_of_answered p.0 v e)) ∙ e) g

  -- A new request is issued.
  pub Ledger-issue :
      {log held : List (Ticket r)} {w w' : World r} {k : r.Key} {req : Request r}
      → Created r k w req w'
      → Ledger r Good log held w
      → Ledger r Good (ticket req ∷ log) (ticket req ∷ held) w'
  Ledger-issue {held = held} {w = w} {req = req} c l =
      issue (Ledger-extend l c.extends) (ticket req) c.made c.unanswered
        (unused_of_unmade r w held l.made (tx r req) c.fresh)

  -- Nothing has been issued.
  pub no_tickets-Ledger : (w : World r) → Ledger r Good [] [] w
  no_tickets-Ledger w = record {
    once = λ t. unfold uses count in omega arith;
    made = λ p m. absurd (Memᴰ.not-nil m);
    silent = λ p m. absurd (Memᴰ.not-nil m);
    logged = λ p m. absurd (Memᴰ.not-nil m);
    outcome = λ p m. absurd (Memᴰ.not-nil m);
  }
