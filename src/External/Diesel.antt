-- ===== src/External/Diesel.antt =====
-- The error enums of diesel and r2d2: the variants that the crate names, and `other` for all that its catch-all
-- patterns take. Payloads that no code reads are left out.

pub data PoolError : Type 0 where
  timed_out : PoolError

pub data DatabaseErrorKind : Type 0 where
  foreign_key_violation serialization_failure unable_to_send_command unique_violation other :
      DatabaseErrorKind

pub data ConnectionError : Type 0 where
  bad_connection other : ConnectionError

pub data QueryError : Type 0 where
  already_in_transaction deserialization_error invalid_c_string not_found query_builder_error
        serialization_error other :
      QueryError
  database_error : DatabaseErrorKind → QueryError

pub data R2d2Error : Type 0 where
  connection_error : ConnectionError → R2d2Error
  query_error : QueryError → R2d2Error
