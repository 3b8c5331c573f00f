-- ===== src/Redis/Invalidator/Fits.antt =====
-- deque-loader/src/redis/connection.rs: the tasks that each state of the invalidator has.
use channel_loader_rs.Base.{
  ℕ, suc, ◌≡◌, refl, subst, List, [], ◌∷◌, ◌++◌, Result, ok, err, Bool, true, false, single_split,
  nil_split,
}
use channel_loader_rs.Redis.Connection.{
  ConnectionState, idle, connecting, client_error, connection_error, connected, establish, round,
}
use channel_loader_rs.Redis.Invalidator.{
  Task, dialing, announcing, listening, forwarding, panicked, ended,
}

module _ {ErrorKind ClientId : Type 0} where
  -- A state that a caller may replace.
  abbrev pub is_stale : ConnectionState ErrorKind ClientId → Bool
  is_stale idle = true
  is_stale connecting = false
  is_stale (client_error kind) = false
  is_stale (connection_error kind) = true
  is_stale (connected id) = false

  pub round-is_stale :
      (io : ErrorKind → Bool) (i : ℕ) (state : ConnectionState ErrorKind ClientId)
      → round io i state ≡ establish
      → is_stale state ≡ true
  unfolding round
  round-is_stale io i idle e = refl
  round-is_stale io i connecting e = absurd (cc)
  round-is_stale io i (client_error kind) e = absurd (cc)
  round-is_stale io i (connection_error kind) e = refl
  round-is_stale io i (connected c) e = absurd (cc)

module _ {ErrorKind ClientId Key : Type 0} where
  -- The tasks that a state has.
  pub data Fits : ConnectionState ErrorKind ClientId → List (Task ClientId Key) → Type 0 where
    fits_idle : Fits idle []
    fits_connecting : Fits connecting (dialing ∷ [])
    fits_client_error : (kind : ErrorKind) → Fits (client_error kind) []
    fits_connection_error : (kind : ErrorKind) → Fits (connection_error kind) []
    fits_announcing : (id : ClientId) (told : ℕ) → Fits (connected id) (announcing id told ∷ [])
    fits_listening : (id : ClientId) → Fits (connected id) (listening id ∷ [])
    fits_forwarding :
        (id : ClientId) (keys : List Key) (told : ℕ)
        → Fits (connected id) (forwarding id keys told ∷ [])
    fits_panicked : (id : ClientId) → Fits (connected id) (panicked id ∷ [])

  -- It is the only task there is.
  pub Fits-only :
      {state : ConnectionState ErrorKind ClientId} {tasks : List (Task ClientId Key)}
      → Fits state tasks
      → (before after : List (Task ClientId Key)) (t : Task ClientId Key)
      → tasks ≡ before ++ t ∷ after
      → (before ≡ []) × (after ≡ []) × Fits state (t ∷ [])
  Fits-only fits_idle before after t e = absurd (nil_split t before after e)
  Fits-only fits_connecting before after t e =
      let (b, a, same) = single_split before after e in
      (b, a, subst (λ x. Fits connecting (x ∷ [])) same fits_connecting)
  Fits-only (fits_client_error kind) before after t e = absurd (nil_split t before after e)
  Fits-only (fits_connection_error kind) before after t e = absurd (nil_split t before after e)
  Fits-only (fits_announcing id told) before after t e =
      let (b, a, same) = single_split before after e in
      (b, a, subst (λ x. Fits (connected id) (x ∷ [])) same (fits_announcing id told))
  Fits-only (fits_listening id) before after t e =
      let (b, a, same) = single_split before after e in
      (b, a, subst (λ x. Fits (connected id) (x ∷ [])) same (fits_listening id))
  Fits-only (fits_forwarding id keys told) before after t e =
      let (b, a, same) = single_split before after e in
      (b, a, subst (λ x. Fits (connected id) (x ∷ [])) same (fits_forwarding id keys told))
  Fits-only (fits_panicked id) before after t e =
      let (b, a, same) = single_split before after e in
      (b, a, subst (λ x. Fits (connected id) (x ∷ [])) same (fits_panicked id))

  pub told_more :
      {state : ConnectionState ErrorKind ClientId} {id : ClientId} {told : ℕ}
      → Fits state (announcing id told ∷ [])
      → Fits state (announcing id (suc told) ∷ [])
  told_more (fits_announcing id told) = fits_announcing id (suc told)

  pub listens :
      {state : ConnectionState ErrorKind ClientId} {id : ClientId} {told : ℕ}
      → Fits state (announcing id told ∷ [])
      → Fits state (listening id ∷ [])
  listens (fits_announcing id told) = fits_listening id

  pub forwards :
      {state : ConnectionState ErrorKind ClientId} {id : ClientId} (keys : List Key)
      → Fits state (listening id ∷ [])
      → Fits state (forwarding id keys 0 ∷ [])
  forwards keys (fits_listening id) = fits_forwarding id keys 0

  pub tells :
      {state : ConnectionState ErrorKind ClientId} {id : ClientId} {keys : List Key} {told : ℕ}
      → Fits state (forwarding id keys told ∷ [])
      → Fits state (forwarding id keys (suc told) ∷ [])
  tells (fits_forwarding id keys told) = fits_forwarding id keys (suc told)

  pub listens_again :
      {state : ConnectionState ErrorKind ClientId} {id : ClientId} {keys : List Key} {told : ℕ}
      → Fits state (forwarding id keys told ∷ [])
      → Fits state (listening id ∷ [])
  listens_again (fits_forwarding id keys told) = fits_listening id

  pub panics :
      {state : ConnectionState ErrorKind ClientId} {id : ClientId}
      → Fits state (listening id ∷ [])
      → Fits state (panicked id ∷ [])
  panics (fits_listening id) = fits_panicked id

  pub ended-Fits :
      (result : Result (Unit {0}) ErrorKind) → Fits (ended {ClientId = ClientId} result) []
  unfolding ended
  ended-Fits (ok u) = fits_idle
  ended-Fits (err kind) = fits_connection_error kind

  pub is_stale-no_tasks :
      {state : ConnectionState ErrorKind ClientId} {tasks : List (Task ClientId Key)}
      → Fits state tasks
      → is_stale state ≡ true
      → tasks ≡ []
  is_stale-no_tasks fits_idle e = refl
  is_stale-no_tasks fits_connecting e = absurd (cc)
  is_stale-no_tasks (fits_client_error kind) e = refl
  is_stale-no_tasks (fits_connection_error kind) e = refl
  is_stale-no_tasks (fits_announcing id told) e = absurd (cc)
  is_stale-no_tasks (fits_listening id) e = absurd (cc)
  is_stale-no_tasks (fits_forwarding id keys told) e = absurd (cc)
  is_stale-no_tasks (fits_panicked id) e = absurd (cc)
