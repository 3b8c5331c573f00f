-- ===== src/Tests/Graphqls.antt =====
-- The theorem on the caches of a request, at a concrete input.
use channel_loader_rs.Base.{
  ℕ, ◌≡◌, refl, ◌⊎◌, [], ◌∷◌, Option, none, some, Memᴰ, ite, if_pos, if_neg, ℕ_discrete,
}
use channel_loader_rs.Graphql.{RequestData, RequestLaws, refers, insert_loader_caches, as_ref}
use channel_loader_rs.Graphql.Caches.{insert_loader_caches-as_ref}

-- A request with the values by type.
abbrev by_type : RequestData
by_type = record {
  Handler = ℕ;
  same_type = ℕ_discrete;
  ContextCache = λ h. ℕ;
  new_cache = λ h. 0;
  Request = ℕ → Option ℕ;
  set_data = λ h c q k. ite (ℕ_discrete h k) (some c) (q k);
  data_opt = λ h q. q h;
}

by_type_laws : RequestLaws by_type
by_type_laws = record {
  found = λ h c q. if_pos (ℕ_discrete h h) refl (some c) (q h);
  kept = λ h other c q ne. if_neg (ℕ_discrete h other) ne (some c) (q other);
}

abbrev empty : ℕ → Option ℕ
empty k = none

insert_loader_caches-as_ref_example :
    (Memᴰ {A = ℕ} 5 (4 ∷ 5 ∷ [])
      × (as_ref by_type 5 (insert_loader_caches by_type (4 ∷ 5 ∷ []) empty) ≡ refers 0))
    ⊎ ((¬ Memᴰ {A = ℕ} 5 (4 ∷ 5 ∷ []))
        × (as_ref by_type 5 (insert_loader_caches by_type (4 ∷ 5 ∷ []) empty)
            ≡ as_ref by_type 5 empty))
insert_loader_caches-as_ref_example =
    insert_loader_caches-as_ref by_type by_type_laws (4 ∷ 5 ∷ []) 5 empty
