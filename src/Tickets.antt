-- ===== src/Tickets.antt =====
-- Requests by sender and key alone, whatever callback they carry (deque-loader/src/request.rs): a
-- ledger of the tickets that are held somewhere and of what has become of all that were issued.
pub mod Answered
pub mod Moves
pub mod Served
use channel_loader_rs.Base.{
  ℕ, ◌+◌, ◌≤◌, ◌≡◌, refl, ◌≢◌, ◌∙◌, sym, ap, subst, true, false, List, [], ◌∷◌, ◌++◌, map, some,
  none, Memᴰ, Permᴰ, count, count-perm, count-append, count_pos, mem_of_count, arith, Nat-cases,
  inl, inr,
}
use mathlib.Core.List.Permᴰ
use mathlib.Core.List.Memᴰ
use mathlib.Core.List.{map-append}
use channel_loader_rs.Request.{Runtime, Reply, World, Request, key}
use channel_loader_rs.Request.Answer.{Tx, Tx-discrete, tx, answer, is_closed, is_made}
use channel_loader_rs.Task.ForEach.{senders}

abbrev pub Ticket : Runtime → Type 0
Ticket r = Tx r × r.Key

abbrev pub ticket : {r : Runtime} → Request r → Ticket r
ticket {r} req = (tx r req, key r req)

abbrev pub tickets : {r : Runtime} → List (Request r) → List (Ticket r)
tickets reqs = map ticket reqs

module _ (r : Runtime) where
  -- How many of the tickets have the sender.
  unfoldable pub uses : Tx r → List (Ticket r) → ℕ
  unfolding count
  uses t ps = count (Tx-discrete r) t (map (λ p. p.0) ps)

  pub uses-tickets : (t : Tx r) (reqs : List (Request r)) → uses t (tickets reqs) ≡ senders r t reqs
  unfolding uses senders
  uses-tickets t [] = refl
  uses-tickets t (req ∷ reqs) = omega (arith, uses-tickets t reqs)

  pub uses-perm : (t : Tx r) {ps qs : List (Ticket r)} → Permᴰ ps qs → uses t ps ≡ uses t qs
  unfolding uses
  uses-perm t p = count-perm (Tx-discrete r) t (Permᴰ.map (λ p. p.0) p)

  pub uses-append : (t : Tx r) (ps qs : List (Ticket r)) → uses t (ps ++ qs) ≡ uses t ps + uses t qs
  unfolding uses
  uses-append t ps qs =
      ap (count (Tx-discrete r) t) (map-append (λ p. p.0) ps qs)
      ∙ count-append (Tx-discrete r) t (map (λ p. p.0) ps) (map (λ p. p.0) qs)

  pub uses_pos : (p : Ticket r) (ps : List (Ticket r)) → Memᴰ p ps → 1 ≤ uses p.0 ps
  unfolding uses
  uses_pos p ps m = count_pos (Tx-discrete r) p.0 (map (λ p. p.0) ps) (Memᴰ.map (λ p. p.0) m)

  -- What has become of a ticket, while `held` are held. `Good` says which replies a key may have.
  pub data Outcome {ℓ} (Good : r.Key → Reply r → Type ℓ) (held : List (Ticket r)) (w : World r)
      (p : Ticket r) : Type ℓ where
    waiting : Memᴰ p held → Outcome Good held w p
    gone : is_closed r w p.0 ≡ true → Outcome Good held w p
    answered : (v : Reply r) → answer r w p.0 ≡ some v → Good p.1 v → Outcome Good held w p

  pub record Ledger {ℓ} (Good : r.Key → Reply r → Type ℓ) (log held : List (Ticket r)) (w : World r)
      : Type ℓ where
    pub once : (t : Tx r) → uses t held ≤ 1
    pub made : (p : Ticket r) → Memᴰ p held → is_made r w p.0 ≡ true
    pub silent : (p : Ticket r) → Memᴰ p held → answer r w p.0 ≡ none
    pub logged : (p : Ticket r) → Memᴰ p log → is_made r w p.0 ≡ true
    pub outcome : (p : Ticket r) → Memᴰ p log → Outcome Good held w p

  -- Some of the tickets are answered, or their callers have gone, and no other channel changes.
  pub record Answers {ℓ} (Good : r.Key → Reply r → Type ℓ) (w w' : World r) (done : List (Ticket r))
      : Type ℓ where
    pub closed_same : (t : Tx r) → is_closed r w' t ≡ is_closed r w t
    pub made_same : (t : Tx r) → is_made r w' t ≡ is_made r w t
    pub others : (t : Tx r) → uses t done ≡ 0 → answer r w' t ≡ answer r w t
    pub replies :
        (p : Ticket r)
        → Memᴰ p done
        → is_closed r w p.0 ≡ false
        → (v : Reply r) × (answer r w' p.0 ≡ some v) × Good p.1 v

  pub Answers-refl {ℓ} : (Good : r.Key → Reply r → Type ℓ) (w : World r) → Answers Good w w []
  Answers-refl Good w = record {
    closed_same = λ t. refl;
    made_same = λ t. refl;
    others = λ t none_used. refl;
    replies = λ p m. absurd (Memᴰ.not-nil m);
  }
