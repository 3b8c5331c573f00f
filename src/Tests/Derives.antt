-- ===== src/Tests/Derives.antt =====
-- The theorems on the derive macros, at concrete inputs.
use channel_loader_rs.Base.{ℕ, refl, true, [], ◌∷◌, ite, ok, err, ℕ_discrete, Memᴰ}
use channel_loader_rs.Derive.{
  DataLoaderAttr, Darling, cache_store, adapted, expand_load_by, expand_local_loader,
  parse_data_loaders,
}
use channel_loader_rs.Derive.Attributes.{results, Parsed, parse_data_loaders-Parsed}
use channel_loader_rs.Derive.Coherence.{HasLoader, expand_load_by-HasLoader}

abbrev bookmark : DataLoaderAttr ℕ
bookmark = record { handler = 4; cached = true }

-- Attribute 3 does not parse.
abbrev darling : Darling ℕ ℕ ℕ ℕ
darling = record {
  is_data_loader = λ attr. true;
  parse_attribute_to_meta_list = λ attr. ite (ℕ_discrete attr 3) (err 33) (ok attr);
  from_list = λ meta. ok bookmark;
  multiple = λ es. 99;
}

parse_data_loaders-Parsed_example :
    Parsed darling (results darling (1 ∷ 3 ∷ [])) (parse_data_loaders darling (1 ∷ 3 ∷ []))
parse_data_loaders-Parsed_example = parse_data_loaders-Parsed darling (1 ∷ 3 ∷ [])

expand_load_by-HasLoader_example :
    Memᴰ
      (record { loadable = 8; handler = adapted 4; store = cache_store })
      (expand_load_by {Ident = ℕ} 8 (bookmark ∷ []))
    × HasLoader
        (λ (p : ℕ). p)
        (expand_local_loader {Ident = ℕ} 4 (bookmark ∷ []))
        (adapted 4)
        cache_store
        (adapted 4)
expand_load_by-HasLoader_example =
    expand_load_by-HasLoader (λ p. p) 8 (bookmark ∷ []) (bookmark ∷ []) bookmark bookmark
      (Memᴰ.head refl) (Memᴰ.head refl) refl (λ e. e)
