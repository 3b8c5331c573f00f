-- ===== src/External/Redis.antt =====
-- What the cache uses of redis, bincode and tynm, at one time. Text and bytes are lists of numbers.
use channel_loader_rs.Base.{ℕ, List, Option, Result}

abbrev pub Text : Type 0
Text = List ℕ

abbrev pub Bytes : Type 0
Bytes = List ℕ

-- `get_one` and `get_many` are `AsyncCommands::get` of one key and of several.
pub record RedisCache (Key Value : Type 0) : Type 1 where
  pub RedisError : Type 0
  pub get_one : Text → Result (Option Bytes) RedisError
  pub get_many : List Text → Result (List (Option Bytes)) RedisError
  pub serialize : Value → Option Bytes
  pub deserialize : Bytes → Option Value
  pub type_name : Text
  pub debug : Key → Text
