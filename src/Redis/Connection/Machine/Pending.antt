-- ===== src/Redis/Connection/Machine/Pending.antt =====
-- While a manager is Connecting, a task is connecting.
use channel_loader_rs.Base.{
  ℕ, suc, ◌+◌, ◌-◌, ◌≤◌, ◌≡◌, refl, sym, subst, ◌⊎◌, true, false, if◌then◌else◌, if_pos, if_neg,
  inl, inr, List, [], ◌∷◌, ◌++◌, map, Result, ok, err, Bool, ℕ_discrete, arith,
}
use channel_loader_rs.Redis.Connection.{
  ConnectionState, connecting, connection_error, connected, ConnectionManager, store, connect,
  store_and_notify, establish_connection,
}
use channel_loader_rs.Redis.Connection.Machine.{
  Machine, Caller, looking, swapping, turning, waiting, gave, wake, settle, joined, redirected,
  Step, arrive, load, swap, register, join, redirect, lose, Reach, start, step,
}

module _ {ErrorKind Connection : Type 0} where
  -- Connecting is only stored with a task that connects.
  abbrev pub IsPending : Machine ErrorKind Connection → Type 0
  IsPending s = s.manager.state ≡ connecting → 1 ≤ s.joining

  connect-connecting :
      (client : Result (Unit {0}) ErrorKind) (m : ConnectionManager ErrorKind Connection)
      → (connect client m).state ≡ connecting
      → (connect client m).attempts ≡ suc m.attempts
  unfolding connect store_and_notify store
  connect-connecting (ok c) m now = refl
  connect-connecting (err kind) m now = absurd (cc)

  -- A swap that leaves Connecting found it, or has spawned a task.
  establish_connection-connecting :
      (client : Result (Unit {0}) ErrorKind) (current : ℕ)
      (m : ConnectionManager ErrorKind Connection)
      → (establish_connection client current m).state ≡ connecting
      → (m.state ≡ connecting) ⊎ ((establish_connection client current m).attempts ≡ suc m.attempts)
  unfolding establish_connection
  establish_connection-connecting client current m now = elim (ℕ_discrete m.version current) [
    | no late ↦
        let kept = if_neg (ℕ_discrete m.version current) late (connect client m) m in
        inl (subst (λ x. x.state ≡ connecting) kept now)
    | yes same ↦
        let swapped = if_pos (ℕ_discrete m.version current) same (connect client m) m in
        inr (
          subst (λ x. x.attempts ≡ suc m.attempts) (sym swapped)
            (connect-connecting client m (subst (λ x. x.state ≡ connecting) swapped now)))
  ]

  unfoldable pub is_waiting : Caller ErrorKind Connection → Bool
  is_waiting (looking i) = false
  is_waiting (swapping i v) = false
  is_waiting (turning i) = false
  is_waiting (waiting i) = true
  is_waiting (gave result) = false

  wake-is_waiting : (c : Caller ErrorKind Connection) → is_waiting (wake c) ≡ false
  unfolding wake is_waiting
  wake-is_waiting (looking i) = refl
  wake-is_waiting (swapping i v) = refl
  wake-is_waiting (turning i) = refl
  wake-is_waiting (waiting i) = refl
  wake-is_waiting (gave result) = refl

  unfoldable pub waiters : List (Caller ErrorKind Connection) → ℕ
  unfolding is_waiting
  waiters [] = 0
  waiters (c ∷ cs) = (if is_waiting c then 1 else 0) + waiters cs

  waiters-wake : (cs : List (Caller ErrorKind Connection)) → waiters (map wake cs) ≡ 0
  unfolding waiters
  waiters-wake [] = refl
  waiters-wake (c ∷ cs) = rw (wake-is_waiting c, waiters-wake cs) refl

  -- A notification wakes every caller.
  store_and_notify-wakes :
      (state : ConnectionState ErrorKind Connection) (s : Machine ErrorKind Connection)
      → (settle (store_and_notify state s.manager) s).callers ≡ map wake s.callers
  unfolding settle store_and_notify store
  store_and_notify-wakes state s =
      if_neg (ℕ_discrete (suc s.manager.wakes) s.manager.wakes) (λ e. absurd (omega arith))
        s.callers (map wake s.callers)

  pub joined-wakes :
      (result : Result Connection ErrorKind) (s : Machine ErrorKind Connection)
      → (joined result s).callers ≡ map wake s.callers
  unfolding joined
  joined-wakes (ok c) s = store_and_notify-wakes (connected c) s
  joined-wakes (err kind) s = store_and_notify-wakes (connection_error kind) s

  module _ (client : Result (Unit {0}) ErrorKind) where
    swap-IsPending :
        (current : ℕ) (s : Machine ErrorKind Connection)
        → IsPending s
        → IsPending (settle (establish_connection client current s.manager) s)
    unfolding settle
    swap-IsPending current s pending now =
        elim (establish_connection-connecting client current s.manager now) [
          | inl before ↦ let more = pending before in omega arith
          | inr spawned ↦ omega arith
        ]

    Step-IsPending :
        (is_io_error : ErrorKind → Bool) {s u : Machine ErrorKind Connection}
        → Step is_io_error client s u
        → IsPending s
        → IsPending u
    unfolding settle joined redirected store_and_notify store
    Step-IsPending io arrive h now = h now
    Step-IsPending io (load before after i e) h now = h now
    Step-IsPending io {s} (swap before after i current e) h now =
        swap-IsPending current (record s { callers = before ++ looking (suc i) ∷ after }) h now
    Step-IsPending io (register before after i e) h now = h now
    Step-IsPending io (join n (ok c) e) h now = absurd (cc)
    Step-IsPending io (join n (err kind) e) h now = absurd (cc)
    Step-IsPending io {s} (redirect n (ok u) e) h now = h now
    Step-IsPending io (redirect n (err kind) e) h now = absurd (cc)
    Step-IsPending io {s} (lose c e) h now = swap-IsPending s.manager.version s h now

    Reach-IsPending :
        (is_io_error : ErrorKind → Bool) (s : Machine ErrorKind Connection)
        → Reach is_io_error client s
        → s.manager.state ≡ connecting
        → 1 ≤ s.joining
    Reach-IsPending io s start now = absurd (cc)
    Reach-IsPending io s (step p x) now = Step-IsPending io x (Reach-IsPending io _ p) now

    -- In every reachable state of a manager, its callers and its tasks in which the manager is
    -- Connecting, a task is connecting, and when it ends, with a connection or with an error, no
    -- caller is left waiting.
    pub joined-no_waiting :
        (is_io_error : ErrorKind → Bool) (s : Machine ErrorKind Connection)
        → Reach is_io_error client s
        → s.manager.state ≡ connecting
        → (result : Result Connection ErrorKind)
        → (n : ℕ) × (s.joining ≡ suc n)
          × Step is_io_error client s (joined result (record s { joining = n }))
          × (waiters (joined result (record s { joining = n })).callers ≡ 0)
    joined-no_waiting io s reached now result =
        let some_task = Reach-IsPending io s reached now in
        let e : s.joining ≡ suc (s.joining - 1) = omega arith in
        (
          s.joining - 1,
          e,
          join (s.joining - 1) result e,
          rw (joined-wakes result (record s { joining = s.joining - 1 }), waiters-wake s.callers)
              refl,
        )
