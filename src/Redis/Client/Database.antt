-- ===== src/Redis/Client/Database.antt =====
-- The database in the address that is put together from the environment.
use channel_loader_rs.Base.{◌≡◌, refl, [], ◌∷◌, ◌++◌, Bool, true, Option, none, some}
use channel_loader_rs.External.Redis.{Text}
use channel_loader_rs.Redis.Client.{
  codes, UrlParser, unwrap_or, next, named_var, hostname, port, database, assembled,
  get_connection_url, get_database_index, database_index,
}

-- A redis url with a path of one segment: which authorities and segments are read as they are
-- written is up to the url crate.
pub record UrlLaws (u : UrlParser) : Type 0 where
  pub is_authority : Text → Bool
  pub is_segment : Text → Bool
  pub segment_of :
      (authority segment : Text)
      → is_authority authority ≡ true
      → is_segment segment ≡ true
      → (url : u.Url) × (u.parse (codes "redis://" ++ authority ++ codes "/" ++ segment) ≡ some url)
        × (u.path_segments url ≡ some (segment ∷ []))

-- `default:password@hostname:port`, or without the password.
abbrev pub authority : (Text → Option Text) → Option Text → Text
authority env (some password) =
    codes "default:" ++ password ++ codes "@" ++ hostname env ++ codes ":" ++ port env
authority env none = hostname env ++ codes ":" ++ port env

assembled-authority :
    (env : Text → Option Text) (password : Option Text)
    → assembled env password
      ≡ codes "redis://" ++ authority env password ++ codes "/" ++ database env
unfolding assembled
assembled-authority env none = refl
assembled-authority env (some password) = refl

abbrev pub password : (Text → Option Text) → Option Text
password env = named_var env (codes "REDIS_PASSWORD_ENV") (codes "REDIS_PASSWORD")

get_connection_url-authority :
    (env : Text → Option Text)
    → named_var env (codes "REDIS_URL_ENV") (codes "REDIS_URL") ≡ none
    → get_connection_url env
      ≡ codes "redis://" ++ authority env (password env) ++ codes "/" ++ database env
unfolding get_connection_url
get_connection_url-authority env no_url =
    rw (no_url, get_connection_url) (assembled-authority env (password env))

-- Without a url in the environment, and with an authority and a database that the url crate reads as
-- they are written, the index stored is the number that the environment gives for the database, or
-- zero if that text is no i64.
database_index_lem :
    (u : UrlParser) (laws : UrlLaws u) (env : Text → Option Text)
    → named_var env (codes "REDIS_URL_ENV") (codes "REDIS_URL") ≡ none
    → laws.is_authority (authority env (password env)) ≡ true
    → laws.is_segment (database env) ≡ true
    → database_index u env ≡ unwrap_or u.zero_i64 (u.parse_i64 (database env))
unfolding database_index
database_index_lem u laws env no_url a s =
    let (url, parsed, path) = laws.segment_of (authority env (password env)) (database env) a s in
    rw (get_connection_url-authority env no_url, get_database_index, parsed, path, next) refl
