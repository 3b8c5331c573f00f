-- ===== src/External/Swap.antt =====
-- The swap_queue crate: a thread-local worker whose tasks a stealer takes all at once.
use channel_loader_rs.Base.{◌≡◌, List, [], ◌∷◌, ◌++◌, Option, none, some}

-- `push` gives a stealer on the first write of a batch, and `take` moves the whole batch out.
pub record SwapQueue (A : Type 0) : Type 1 where
  pub Worker : Type 0
  pub Stealer : Type 0
  pub new : Worker
  pub push : A → Worker → Option Stealer × Worker
  pub take : Stealer → Worker → List A × Worker
  -- What has been pushed since the last take, oldest first.
  pub buffer : Worker → List A
  -- The stealer of that batch, if it has not been used.
  pub waiting : Worker → Option Stealer
  pub buffer-new : buffer new ≡ []
  pub waiting-new : waiting new ≡ none
  pub push_first :
      (a : A) (w : Worker)
      → waiting w ≡ none
      → (s : Stealer) × ((push a w).0 ≡ some s)
        × (waiting (push a w).1 ≡ some s)
        × (buffer (push a w).1 ≡ a ∷ [])
  pub push_more :
      (a : A) (w : Worker) (s : Stealer)
      → waiting w ≡ some s
      → ((push a w).0 ≡ none)
        × (waiting (push a w).1 ≡ some s)
        × (buffer (push a w).1 ≡ buffer w ++ a ∷ [])
  pub take_lem :
      (w : Worker) (s : Stealer)
      → waiting w ≡ some s
      → ((take s w).0 ≡ buffer w) × (waiting (take s w).1 ≡ none) × (buffer (take s w).1 ≡ [])
