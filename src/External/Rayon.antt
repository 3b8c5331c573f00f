-- ===== src/External/Rayon.antt =====
-- rayon's `into_par_iter` and the iteration of a standard HashSet: every element is visited once, in an order
-- that the program does not choose.
use channel_loader_rs.Base.{List, Permᴰ}

pub record Order (A : Type 0) : Type 0 where
  pub visit : List A → List A
  pub visit-perm : (xs : List A) → Permᴰ xs (visit xs)
