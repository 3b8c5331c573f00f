-- ===== src/Derive/Attributes.antt =====
-- The attributes that a derive macro reads.
use channel_loader_rs.Base.{
  ◌≡◌, refl, ◌∙◌, sym, subst, ap, inl, inr, List, [], ◌∷◌, ◌++◌, map, Result, Result-cases, ok, err,
  Bool-cases, if◌then◌else◌,
}
use mathlib.Core.List.{append_assoc, append-nil}
use channel_loader_rs.Derive.{
  DataLoaderAttr, Darling, parse_attribute, sort_results, parse_data_loaders,
}

module _ {Attribute Meta SynPath Error : Type 0} (d : Darling Attribute Meta SynPath Error) where
  -- The results of the data loaders' attributes, in their order.
  abbrev pub results : List Attribute → List (Result (DataLoaderAttr SynPath) Error)
  results [] = []
  results (attr ∷ attrs) =
      let rest = results attrs in
      if d.is_data_loader attr then parse_attribute d attr ∷ rest else rest

  abbrev pub loaders_of :
      List (Result (DataLoaderAttr SynPath) Error) → List (DataLoaderAttr SynPath)
  loaders_of [] = []
  loaders_of (ok loader ∷ rs) = loader ∷ loaders_of rs
  loaders_of (err e ∷ rs) = loaders_of rs

  abbrev pub errors_of : List (Result (DataLoaderAttr SynPath) Error) → List Error
  errors_of [] = []
  errors_of (ok loader ∷ rs) = errors_of rs
  errors_of (err e ∷ rs) = e ∷ errors_of rs

  sort_results-partition :
      (attrs : List Attribute) (loaders : List (DataLoaderAttr SynPath)) (errors : List Error)
      → sort_results d attrs loaders errors
        ≡ (loaders ++ loaders_of (results attrs), errors ++ errors_of (results attrs))
  unfolding sort_results
  sort_results-partition [] loaders errors = rw (append-nil loaders, append-nil errors) refl
  sort_results-partition (attr ∷ attrs) loaders errors = elim (Bool-cases (d.is_data_loader attr)) [
    | inr other ↦ rw other (sort_results-partition attrs loaders errors)
    | inl marked ↦ elim (Result-cases (parse_attribute d attr)) [
      | inl (loader, e) ↦
          rw (marked, e)
            (sort_results-partition attrs (loaders ++ loader ∷ []) errors
              ∙ rw (append_assoc loaders (loader ∷ []) (loaders_of (results attrs))) refl)
      | inr (x, e) ↦
          rw (marked, e)
            (sort_results-partition attrs loaders (errors ++ x ∷ [])
              ∙ rw (append_assoc errors (x ∷ []) (errors_of (results attrs))) refl)
    ]
  ]

  all_ok :
      (rs : List (Result (DataLoaderAttr SynPath) Error))
      → errors_of rs ≡ []
      → rs ≡ map ok (loaders_of rs)
  all_ok [] e = refl
  all_ok (ok loader ∷ rs) e = ap (λ x. ok loader ∷ x) (all_ok rs e)
  all_ok (err x ∷ rs) e = absurd (cc)

  -- Either every attribute has given a loader, or there are errors: all of them.
  pub data Parsed (rs : List (Result (DataLoaderAttr SynPath) Error))
      : Result (List (DataLoaderAttr SynPath)) Error → Type 0 where
    parsed :
        (loaders : List (DataLoaderAttr SynPath)) → rs ≡ map ok loaders → Parsed rs (ok loaders)
    failed :
        (e : Error) (es : List Error)
        → errors_of rs ≡ e ∷ es
        → Parsed rs (err (d.multiple (e ∷ es)))

  -- `parse_data_loaders` gives the loaders of all `data_loader` attributes in their order if each
  -- of them parses, and otherwise one error made of the errors of all that do not, in their
  -- order; other attributes are not looked at.
  pub parse_data_loaders-Parsed :
      (attrs : List Attribute) → Parsed (results attrs) (parse_data_loaders d attrs)
  unfolding parse_data_loaders
  parse_data_loaders-Parsed attrs =
      subst
        (λ t.
          Parsed (results attrs) (elim t.1 [ [] ↦ ok t.0 | e ∷ es ↦ err (d.multiple (e ∷ es)) ]))
        (sym (sort_results-partition attrs [] [])) (go (errors_of (results attrs)) refl)
    where
      go :
          (errors : List Error)
          → errors_of (results attrs) ≡ errors
          → Parsed (results attrs) (elim errors [
            | [] ↦ ok (loaders_of (results attrs))
            | e ∷ es ↦ err (d.multiple (e ∷ es))
          ])
      go [] e = parsed (loaders_of (results attrs)) (all_ok (results attrs) e)
      go (x ∷ xs) e = failed x xs e
