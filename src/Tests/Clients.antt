-- ===== src/Tests/Clients.antt =====
-- A url parser that fits the laws, and a run of the Redis client's start.
use channel_loader_rs.Base.{
  ℕ, ◌-◌, ◌≡◌, refl, ite, if◌then◌else◌, Bool, true, false, [], ◌∷◌, ◌++◌, Option, none, some,
  ℕ_discrete, arith,
}
use channel_loader_rs.External.Redis.{Text}
use channel_loader_rs.Redis.Client.{codes, UrlParser, database_index}
use channel_loader_rs.Redis.Client.Database.{UrlLaws}

abbrev is_slash : ℕ → Bool
is_slash c = ite (ℕ_discrete c b'/') true false

-- What follows the first slash.
unfoldable after_slash : Text → Text
after_slash [] = []
after_slash (c ∷ cs) = if is_slash c then cs else after_slash cs

unfoldable no_slash : Text → Bool
no_slash [] = true
no_slash (c ∷ cs) = if is_slash c then false else no_slash cs

after_slash-append :
    (a segment : Text) → no_slash a ≡ true → after_slash (a ++ b'/' ∷ [] ++ segment) ≡ segment
unfolding after_slash no_slash ℕ_discrete
after_slash-append [] segment e = refl
after_slash-append (c ∷ a) segment e = let rest = after_slash-append a segment in ground arith

-- The scheme has eight characters.
abbrev after_scheme : Text → Text
after_scheme (c1 ∷ c2 ∷ c3 ∷ c4 ∷ c5 ∷ c6 ∷ c7 ∷ c8 ∷ rest) = rest
after_scheme short = []

abbrev digit : Text → Option ℕ
digit [] = none
digit (c ∷ cs) = some (c - b'0')

abbrev parser : UrlParser
parser = record {
  Url = Text;
  I64 = ℕ;
  zero_i64 = 0;
  parse = λ text. some text;
  path_segments = λ url. some (after_slash (after_scheme url) ∷ []);
  parse_i64 = digit;
}

parser_laws : UrlLaws parser
parser_laws = record {
  is_authority = no_slash;
  is_segment = λ segment. true;
  segment_of = λ authority segment a s. (
    codes "redis://" ++ authority ++ codes "/" ++ segment,
    refl,
    rw (after_slash-append authority segment a) refl,
  );
}

abbrev same_text : Text → Text → Bool
same_text [] [] = true
same_text [] (d ∷ ds) = false
same_text (c ∷ cs) [] = false
same_text (c ∷ cs) (d ∷ ds) = let rest = same_text cs ds in ite (ℕ_discrete c d) rest false

abbrev env : Text → Option Text
env name = if same_text name (codes "REDIS_DATABASE") then some (codes "7") else none

-- The database of the environment, in the address that is put together.
database_index_runs : database_index parser env ≡ 7
unfolding database_index ℕ_discrete after_slash
database_index_runs = refl
