-- ===== src/Redis/Client.antt =====
-- deque-loader/src/redis/client.rs: the address of Redis, from the environment, and the database in it.
pub mod Database
use Prim.Native.Char.{code}
use Prim.Native.String.{String}
use channel_loader_rs.Base.{ℕ, List, [], ◌∷◌, ◌++◌, Option, none, some}
use channel_loader_rs.External.Redis.{Text}

abbrev pub codes : String → Text
codes String.[] = []
codes (String.◌∷◌ c s) = code c ∷ codes s

-- The url crate, and `str::parse::<i64>`. `path_segments` is none where a url cannot be a base.
pub record UrlParser : Type 1 where
  pub Url : Type 0
  pub I64 : Type 0
  pub zero_i64 : I64
  pub parse : Text → Option Url
  pub path_segments : Url → Option (List Text)
  pub parse_i64 : Text → Option I64

unfoldable pub unwrap_or : {A : Type 0} → A → Option A → A
unwrap_or a none = a
unwrap_or a (some b) = b

-- The environment gives the values of its variables.
module _ (env : Text → Option Text) where
  -- The variable that `name_env` names, or else `name`.
  unfoldable pub named_var : Text → Text → Option Text
  unfolding unwrap_or
  named_var name_env name = env (unwrap_or name (env name_env))

  unfoldable pub hostname : Text
  unfolding named_var unwrap_or
  hostname =
      unwrap_or (codes "127.0.0.1")
        (named_var (codes "REDIS_HOSTNAME_ENV") (codes "REDIS_HOSTNAME"))

  unfoldable pub port : Text
  unfolding named_var unwrap_or
  port = unwrap_or (codes "6379") (named_var (codes "REDIS_PORT_ENV") (codes "REDIS_PORT"))

  unfoldable pub database : Text
  unfolding named_var unwrap_or
  database = unwrap_or (codes "0") (named_var (codes "REDIS_DATABASE_ENV") (codes "REDIS_DATABASE"))

  -- What is put together where no url is given, from the password.
  unfoldable pub assembled : Option Text → Text
  unfolding hostname port database
  assembled (some password) =
      codes "redis://default:"
      ++ password
      ++ codes "@"
      ++ hostname
      ++ codes ":"
      ++ port
      ++ codes "/"
      ++ database
  assembled none = codes "redis://" ++ hostname ++ codes ":" ++ port ++ codes "/" ++ database

  unfoldable pub get_connection_url : Text
  unfolding named_var assembled
  get_connection_url = elim (named_var (codes "REDIS_URL_ENV") (codes "REDIS_URL")) [
    | some url ↦ url
    | none ↦ assembled (named_var (codes "REDIS_PASSWORD_ENV") (codes "REDIS_PASSWORD"))
  ]

-- `Iterator::next` of the segments.
unfoldable pub next : List Text → Option Text
next [] = none
next (segment ∷ segments) = some segment

module _ (u : UrlParser) where
  unfoldable pub get_database_index : Text → Option u.I64
  unfolding next
  get_database_index database_url = elim (u.parse database_url) [
    | none ↦ none
    | some url ↦ elim (u.path_segments url) [
      | none ↦ none
      | some segments ↦ elim (next segments) [ none ↦ none | some segment ↦ u.parse_i64 segment ]
    ]
  ]

  -- What the initializer of CLIENT stores in DATABASE_INDEX.
  unfoldable pub database_index : (Text → Option Text) → u.I64
  unfolding get_connection_url get_database_index unwrap_or
  database_index env = unwrap_or u.zero_i64 (get_database_index (get_connection_url env))
