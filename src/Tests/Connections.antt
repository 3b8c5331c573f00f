-- ===== src/Tests/Connections.antt =====
-- The theorems on redis connections, at concrete inputs.
use channel_loader_rs.Base.{
  ℕ, ◌*◌, ◌≤◌, ◌≡◌, ite, Bool, true, List, [], ◌∷◌, some, Result, ok, err, arith, ℕ_discrete,
}
use channel_loader_rs.Redis.Connection.{
  ConnectionState, idle, connection_error, connected, ConnectionManager, get_multiplexed_connection,
  Answer, Errors, req_packed_command,
}
use channel_loader_rs.Redis.Connection.Attempts.{
  Event, stores, establishes, attempts_for, attempts_for-le,
}
use channel_loader_rs.Redis.Connection.Callers.{is_settled}
use channel_loader_rs.Redis.Connection.Commands.{Concluded, req_packed_command-Concluded}

abbrev new_manager : ConnectionManager ℕ ℕ
new_manager = record { state = idle; version = 0; attempts = 0; wakes = 0 }

-- Two callers find the idle manager, and the attempt of one fails before the other's call.
abbrev events : List (Event ℕ ℕ)
events = establishes 0 ∷ stores (connection_error 1) ∷ establishes 0 ∷ []

attempts_for-le_example : attempts_for (ok tt) 0 events new_manager ≤ 1
attempts_for-le_example = attempts_for-le (ok tt) 0 events new_manager

-- The connection has failed at the first look, and is up at the second.
abbrev others : ℕ → ConnectionManager ℕ ℕ → ConnectionManager ℕ ℕ
others i m = record m { state = ite (ℕ_discrete i 0) (connection_error 1) (connected 5) }

others_settled : (i : ℕ) (m : ConnectionManager ℕ ℕ) → is_settled (others (2 * i) m).state ≡ true
unfolding is_settled ℕ_discrete
others_settled i m = ground arith

abbrev always : ℕ → Bool
always kind = true

abbrev errors : Errors ℕ ℕ
errors = record { of_kind = λ kind. kind; is_io_error = always; is_connection_dropped = always }

-- The command finds its connection dropped.
abbrev send : ℕ → Result ℕ ℕ
send c = err 9

req_packed_command-Concluded_example :
    (result : Result (ConnectionState ℕ ℕ) ℕ) × (given : ConnectionManager ℕ ℕ) × (a : Answer ℕ ℕ)
    × (m' : ConnectionManager ℕ ℕ) × (get_multiplexed_connection always
          (ok tt)
          others
          2
          0
          new_manager
        ≡ some (result, given))
    × (req_packed_command errors (ok tt) send others (λ m. m) 2 new_manager ≡ some (a, m'))
    × Concluded errors (ok tt) send others (λ m. m) given a m'
req_packed_command-Concluded_example =
    req_packed_command-Concluded errors (ok tt) send others (λ m. m) others_settled 0 new_manager
