-- ===== src/Task/ForEach.antt =====
-- A parallel visit of requests that each have a channel of their own.
use channel_loader_rs.Base.{
  ℕ, ◌+◌, ◌≤◌, ◌≡◌, refl, ◌∙◌, sym, ap, subst, ◌≢◌, false, List, [], ◌∷◌, map, Memᴰ, Permᴰ, some,
  arith, count, if_pos, if_neg, count-perm, count-append, ◌++◌,
}
use mathlib.Core.List.Permᴰ
use mathlib.Core.List.{map-append}
use channel_loader_rs.Request.{Runtime, Reply, World, Request}
use channel_loader_rs.Request.Answer.{Tx, Tx-discrete, tx, answer, is_closed, is_made}
use channel_loader_rs.Task.{for_each}

-- The step for a request touches its channel only, and closes none.
pub record TouchesOwn (r : Runtime) (f : Request r → World r → World r) : Type 0 where
  pub other :
      (req : Request r) (w : World r) (t : Tx r)
      → tx r req ≢ t
      → answer r (f req w) t ≡ answer r w t
  pub closed :
      (req : Request r) (w : World r) (t : Tx r) → is_closed r (f req w) t ≡ is_closed r w t
  pub made : (req : Request r) (w : World r) (t : Tx r) → is_made r (f req w) t ≡ is_made r w t

-- How many of the requests have the sender `t`.
unfoldable pub senders : (r : Runtime) → Tx r → List (Request r) → ℕ
unfolding count
senders r t reqs = count (Tx-discrete r) t (map (tx r) reqs)

module _ (r : Runtime) where
  pub senders_pos :
      (req : Request r) (l : List (Request r)) → Memᴰ req l → 1 ≤ senders r (tx r req) l
  unfolding senders
  senders_pos req [] m = elim m [ ]
  senders_pos req (x ∷ l) (Memᴰ.head e) =
      rw (if_pos (Tx-discrete r (tx r x) (tx r req)) (ap (tx r) (sym e))) (omega arith)
  senders_pos req (x ∷ l) (Memᴰ.tail m) = omega (arith, senders_pos req l m)

  pub senders_some :
      (t : Tx r) (l : List (Request r))
      → 1 ≤ senders r t l
      → (req : Request r) × Memᴰ req l × (tx r req ≡ t)
  unfolding senders
  senders_some t [] h = absurd (omega arith)
  senders_some t (x ∷ l) h = elim (Tx-discrete r (tx r x) t) [
    | yes e ↦ (x, Memᴰ.head refl, e)
    | no ne ↦ let (req, m, e) = senders_some t l (ground arith) in (req, Memᴰ.tail m, e)
  ]

  pub senders-cons-le :
      (t : Tx r) (x : Request r) (l : List (Request r)) → senders r t (x ∷ l) ≤ 1 + senders r t l
  unfolding senders
  senders-cons-le t x l = ground arith

  pub senders-cons_ne :
      (t : Tx r) (x : Request r) (l : List (Request r))
      → tx r x ≢ t
      → senders r t (x ∷ l) ≡ senders r t l
  unfolding senders
  senders-cons_ne t x l ne = rw (if_neg (Tx-discrete r (tx r x) t) ne) (omega arith)

  -- One sender, one request.
  pub senders_unique :
      (a b : Request r) (l : List (Request r))
      → Memᴰ a l
      → Memᴰ b l
      → tx r b ≡ tx r a
      → senders r (tx r a) l ≤ 1
      → b ≡ a
  unfolding senders
  senders_unique a b [] m n e once = elim m [ ]
  senders_unique a b (x ∷ l) (Memᴰ.head p) (Memᴰ.head q) e once = q ∙ sym p
  senders_unique a b (x ∷ l) (Memᴰ.head p) (Memᴰ.tail n) e once =
      let same : tx r x ≡ tx r a = ap (tx r) (sym p) in
      let more : 1 ≤ senders r (tx r a) l = subst (λ t. 1 ≤ senders r t l) e (senders_pos b l n) in
      absurd (ground arith)
  senders_unique a b (x ∷ l) (Memᴰ.tail m) (Memᴰ.head q) e once =
      let same : tx r x ≡ tx r a = ap (tx r) (sym q) ∙ e in
      let more : 1 ≤ senders r (tx r a) l = senders_pos a l m in absurd (ground arith)
  senders_unique a b (x ∷ l) (Memᴰ.tail m) (Memᴰ.tail n) e once =
      senders_unique a b l m n e (omega arith)

  pub senders-perm : (t : Tx r) {k l : List (Request r)} → Permᴰ k l → senders r t k ≡ senders r t l
  unfolding senders
  senders-perm t p = count-perm (Tx-discrete r) t (Permᴰ.map (tx r) p)

  pub senders-append :
      (t : Tx r) (k l : List (Request r)) → senders r t (k ++ l) ≡ senders r t k + senders r t l
  unfolding senders
  senders-append t k l =
      ap (count (Tx-discrete r) t) (map-append (tx r) k l)
      ∙ count-append (Tx-discrete r) t (map (tx r) k) (map (tx r) l)

module _ (r : Runtime) (f : Request r → World r → World r) (own : TouchesOwn r f) where
  pub for_each-closed :
      (l : List (Request r)) (w : World r) (t : Tx r)
      → is_closed r (for_each r f l w) t ≡ is_closed r w t
  unfolding for_each
  for_each-closed [] w t = refl
  for_each-closed (x ∷ l) w t = for_each-closed l (f x w) t ∙ own.closed x w t

  pub for_each-made :
      (l : List (Request r)) (w : World r) (t : Tx r)
      → is_made r (for_each r f l w) t ≡ is_made r w t
  unfolding for_each
  for_each-made [] w t = refl
  for_each-made (x ∷ l) w t = for_each-made l (f x w) t ∙ own.made x w t

  -- The step of a request with the sender `t` leaves the answer while the world is as open as `w`.
  abbrev pub Keeps : List (Request r) → World r → Tx r → Type 0
  Keeps l w t =
      (req : Request r)
      → Memᴰ req l
      → tx r req ≡ t
      → (v : World r) → is_closed r v t ≡ is_closed r w t
      → answer r (f req v) t ≡ answer r v t

  pub for_each-keep :
      (l : List (Request r)) (w : World r) (t : Tx r)
      → Keeps l w t
      → answer r (for_each r f l w) t ≡ answer r w t
  unfolding for_each
  for_each-keep [] w t h = refl
  for_each-keep (x ∷ l) w t h =
      for_each-keep l (f x w) t (λ req m e v c. h req (Memᴰ.tail m) e v (c ∙ own.closed x w t))
      ∙ elim (Tx-discrete r (tx r x) t) [
        | yes e ↦ h x (Memᴰ.head refl) e w refl
        | no ne ↦ own.other x w t ne
      ]

  pub for_each-absent :
      (l : List (Request r)) (w : World r) (t : Tx r)
      → senders r t l ≡ 0
      → answer r (for_each r f l w) t ≡ answer r w t
  for_each-absent l w t h = for_each-keep l w t λ req m e v c.
      absurd (omega (arith, subst (λ u. 1 ≤ senders r u l) e (senders_pos r req l m)))

  pub for_each-hit :
      (l : List (Request r)) (w : World r) (req : Request r) (v : Reply r)
      → ((u : World r) → is_closed r u (tx r req) ≡ false → answer r (f req u) (tx r req) ≡ some v)
      → Memᴰ req l
      → senders r (tx r req) l ≤ 1
      → is_closed r w (tx r req) ≡ false
      → answer r (for_each r f l w) (tx r req) ≡ some v
  unfolding for_each senders
  for_each-hit [] w req v h m once opened = elim m [ ]
  for_each-hit (x ∷ l) w req v h (Memᴰ.head e) once opened =
      for_each-absent l (f x w) (tx r req)
        (let same : tx r x ≡ tx r req = ap (tx r) (sym e) in ground arith)
      ∙ rw (← e) (h w opened)
  for_each-hit (x ∷ l) w req v h (Memᴰ.tail m) once opened =
      for_each-hit l (f x w) req v h m (omega arith) (own.closed x w (tx r req) ∙ opened)
