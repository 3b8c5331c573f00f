-- ===== src/Diesel/Error.antt =====
-- deque-loader/src/diesel/error.rs: diesel's errors, and the simplified errors that callers get.
use Prim.Native.String.{String}
use text.Mathlib.Text.{◌==◌}
use channel_loader_rs.Base.{
  ◌≡◌, sym, ap, ◌∙◌, List, [], ◌∷◌, ◌≢◌, ◌↔◌, ◌⊎◌, refl, Option, none, some, arith, if◌then◌else◌,
}
use channel_loader_rs.External.Diesel.{
  PoolError, DatabaseErrorKind, ConnectionError, QueryError, R2d2Error,
}

pub data DieselError : Type 0 where
  forbidden unauthorized not_found internal_server_error : DieselError
  pool_error : PoolError → DieselError
  connection_error : ConnectionError → DieselError
  query_error : QueryError → DieselError

pub data SimpleDieselError : Type 0 where
  forbidden unauthorized not_found internal_server_error bad_connection invalid_connection
        rollback_transaction unique_violation foreign_key_violation connection_timeout
        database_error :
      SimpleDieselError

unfoldable pub from_pool_error : PoolError → SimpleDieselError
from_pool_error err = SimpleDieselError.connection_timeout

unfoldable pub from_connection_error : ConnectionError → SimpleDieselError
from_connection_error ConnectionError.bad_connection = SimpleDieselError.bad_connection
from_connection_error ConnectionError.other = SimpleDieselError.invalid_connection

unfoldable pub from_r2d2_error : R2d2Error → SimpleDieselError
unfolding from_connection_error
from_r2d2_error (R2d2Error.connection_error err) = from_connection_error err
from_r2d2_error (R2d2Error.query_error err) = SimpleDieselError.connection_timeout

unfoldable pub from_database_error_kind : DatabaseErrorKind → SimpleDieselError
from_database_error_kind DatabaseErrorKind.foreign_key_violation =
    SimpleDieselError.foreign_key_violation
from_database_error_kind DatabaseErrorKind.serialization_failure = SimpleDieselError.database_error
from_database_error_kind DatabaseErrorKind.unable_to_send_command = SimpleDieselError.database_error
from_database_error_kind DatabaseErrorKind.unique_violation = SimpleDieselError.unique_violation
from_database_error_kind DatabaseErrorKind.other = SimpleDieselError.database_error

unfoldable pub from_query_error : QueryError → SimpleDieselError
unfolding from_database_error_kind
from_query_error QueryError.already_in_transaction = SimpleDieselError.internal_server_error
from_query_error (QueryError.database_error err) = from_database_error_kind err
from_query_error QueryError.deserialization_error = SimpleDieselError.internal_server_error
from_query_error QueryError.invalid_c_string = SimpleDieselError.internal_server_error
from_query_error QueryError.not_found = SimpleDieselError.not_found
from_query_error QueryError.query_builder_error = SimpleDieselError.internal_server_error
from_query_error QueryError.serialization_error = SimpleDieselError.internal_server_error
from_query_error QueryError.other = SimpleDieselError.database_error

unfoldable pub from_diesel_error : DieselError → SimpleDieselError
unfolding from_pool_error from_connection_error from_query_error
from_diesel_error DieselError.forbidden = SimpleDieselError.forbidden
from_diesel_error DieselError.unauthorized = SimpleDieselError.unauthorized
from_diesel_error DieselError.not_found = SimpleDieselError.not_found
from_diesel_error DieselError.internal_server_error = SimpleDieselError.internal_server_error
from_diesel_error (DieselError.pool_error err) = from_pool_error err
from_diesel_error (DieselError.connection_error err) = from_connection_error err
from_diesel_error (DieselError.query_error err) = from_query_error err

-- The extension `code` of a GraphQL error.
unfoldable pub code : SimpleDieselError → String
code SimpleDieselError.forbidden = "FORBIDDEN"
code SimpleDieselError.unauthorized = "UNAUTHORIZED"
code SimpleDieselError.not_found = "NOT_FOUND"
code SimpleDieselError.internal_server_error = "INTERNAL_SERVER_ERROR"
code SimpleDieselError.bad_connection = "BAD_CONNECTION"
code SimpleDieselError.invalid_connection = "INVALID_CONNECTION"
code SimpleDieselError.rollback_transaction = "ROLLBACK_TRANSACTION"
code SimpleDieselError.unique_violation = "UNIQUE_VIOLATION"
code SimpleDieselError.foreign_key_violation = "FOREIGN_KEY_VIOLATION"
code SimpleDieselError.connection_timeout = "CONNECTION_TIMEOUT"
code SimpleDieselError.database_error = "DATABASE_ERROR"

-- A simplified error is Forbidden or Unauthorized only for the diesel errors of those names, and
-- NotFound only for the diesel error of that name and diesel's own NotFound; no failure of the
-- pool, a connection or a query becomes one of them otherwise.
from_diesel_error-access :
    (e : DieselError)
    → ((from_diesel_error e ≡ SimpleDieselError.forbidden) ↔ (e ≡ DieselError.forbidden))
      × ((from_diesel_error e ≡ SimpleDieselError.unauthorized) ↔ (e ≡ DieselError.unauthorized))
      × ((from_diesel_error e ≡ SimpleDieselError.not_found)
          ↔ ((e ≡ DieselError.not_found) ⊎ (e ≡ DieselError.query_error QueryError.not_found)))
unfolding from_diesel_error
from_diesel_error-access e = ground arith

-- No diesel error is simplified to RollbackTransaction.
pub from_diesel_error_no_rollback :
    (e : DieselError) → from_diesel_error e ≢ SimpleDieselError.rollback_transaction
unfolding from_diesel_error
from_diesel_error_no_rollback e = ground arith

-- The error that a code names, as a client reads it.
abbrev pub all_errors : List SimpleDieselError
all_errors =
    SimpleDieselError.forbidden ∷ SimpleDieselError.unauthorized ∷ SimpleDieselError.not_found
    ∷ SimpleDieselError.internal_server_error ∷ SimpleDieselError.bad_connection
    ∷ SimpleDieselError.invalid_connection ∷ SimpleDieselError.rollback_transaction
    ∷ SimpleDieselError.unique_violation ∷ SimpleDieselError.foreign_key_violation
    ∷ SimpleDieselError.connection_timeout ∷ SimpleDieselError.database_error ∷ []

unfoldable pub first_with_code : String → List SimpleDieselError → Option SimpleDieselError
unfolding code
first_with_code s [] = none
first_with_code s (e ∷ es) = if code e == s then some e else first_with_code s es

first_with_code-code : (e : SimpleDieselError) → first_with_code (code e) all_errors ≡ some e
unfolding first_with_code
first_with_code-code SimpleDieselError.forbidden = refl
first_with_code-code _ = refl

-- Two simplified errors with the same code are the same error.
pub code_injective : (d e : SimpleDieselError) → code d ≡ code e → d ≡ e
code_injective d e h =
    let same : some d ≡ some e =
      sym (first_with_code-code d)
      ∙ ap (λ s. first_with_code s all_errors) h
      ∙ first_with_code-code e in
    cc
