-- ===== src/Redis/Connection/Machine/Missed.antt =====
-- The caller that has loaded Connecting and does not await a notification yet.
use channel_loader_rs.Base.{
  ℕ, suc, ◌≡◌, refl, ap, ◌∙◌, List, ◌∷◌, ◌++◌, map, Result, ok, Bool, arith,
}
use mathlib.Core.List.{map-append}
use channel_loader_rs.Redis.Connection.{connected, store, store_and_notify}
use channel_loader_rs.Redis.Connection.Machine.{
  Machine, Caller, turning, waiting, wake, settle, joined, redirected, register, join, redirect,
  Reach, step,
}
use channel_loader_rs.Redis.Connection.Machine.Pending.{joined-wakes}

module _ {ErrorKind Connection : Type 0} (is_io_error : ErrorKind → Bool)
    (client : Result (Unit {0}) ErrorKind) where
  -- From every reachable state in which a caller has loaded Connecting and does not await the
  -- notification yet, and a task is connecting, a state is reachable in which that task's
  -- connection is stored, no other task has ended or begun, and that caller waits: it has missed
  -- the notification.
  pub Reach-misses :
      (s : Machine ErrorKind Connection)
      → Reach is_io_error client s
      → (before after : List (Caller ErrorKind Connection)) (i n : ℕ)
      → s.callers ≡ before ++ turning i ∷ after
      → s.joining ≡ suc n
      → (c : Connection)
      → (u : Machine ErrorKind Connection) × Reach is_io_error client u
        × (u.manager.state ≡ connected c)
        × (u.joining ≡ n)
        × (u.redirecting ≡ s.redirecting)
        × (u.callers ≡ map wake before ++ waiting i ∷ map wake after)
  unfolding joined settle store_and_notify store redirected
  Reach-misses s reached before after i n turns pending c =
      let s1 = joined (ok c) (record s { joining = n }) in
      let woken =
        joined-wakes (ok c) (record s { joining = n })
        ∙ ap (map wake) turns
        ∙ map-append wake before (turning i ∷ after) in
      let s2 = record s1 {
        callers = map wake before ++ waiting i ∷ map wake after;
        redirecting = s.redirecting;
      } in
      (
        s2,
        step
            (step (step reached (join n (ok c) pending))
              (register (map wake before) (map wake after) i woken))
            (redirect s.redirecting (ok tt) refl),
        refl,
        omega arith,
        refl,
        refl,
      )
