-- ===== src/Service.antt =====
-- What the loader of deque-loader/src/loader.rs promises its callers, whatever queues and tasks it has: it takes
-- requests, and replies to some of those outstanding at a time.
use mathlib.Mathlib.Data.Multiset.Defs.{Multiset, of_list}
use mathlib.Mathlib.Data.Multiset.ZeroCons.{cons}
use mathlib.Mathlib.Data.Multiset.AddSub.{add, add_assoc, add_comm, add-cons}
use channel_loader_rs.Base.{◌≡◌, refl, ◌∙◌, sym, ap, List, [], ◌∷◌, ◌++◌}

-- What its callers and the channels see of it.
pub data Event (T : Type 0) : Type 0 where
  asks : T → Event T
  replies : List T → Event T

module _ {T : Type 0} where
  -- The requests that were taken, and those that were replied to, each as often as it was, the
  -- latest first.
  abbrev pub asked : List (Event T) → List T
  asked [] = []
  asked (asks p ∷ es) = p ∷ asked es
  asked (replies ps ∷ es) = asked es

  abbrev pub replied : List (Event T) → List T
  replied [] = []
  replied (asks p ∷ es) = replied es
  replied (replies ps ∷ es) = ps ++ replied es

  -- The service allows these events, the latest first, and the requests outstanding after them
  -- are those given, in no order: it replies only to requests that are outstanding, which they
  -- are no more afterwards.
  pub data Runs : List (Event T) → Multiset T → Type 0 where
    begin : Runs [] (of_list [])
    keep : {es : List (Event T)} {a b : Multiset T} → Runs es a → b ≡ a → Runs es b
    ask :
        {es : List (Event T)} {a b : Multiset T} (p : T)
        → Runs es a
        → b ≡ cons p a
        → Runs (asks p ∷ es) b
    reply :
        {es : List (Event T)} {a b : Multiset T} (ps : List T)
        → Runs es a
        → a ≡ add (of_list ps) b
        → Runs (replies ps ∷ es) b

  -- No request is lost, and none is replied to more often than it was taken.
  pub Runs-total :
      {es : List (Event T)} {a : Multiset T}
      → Runs es a
      → of_list (asked es) ≡ add (of_list (replied es)) a
  Runs-total begin = refl
  Runs-total (keep ran e) = rw e (Runs-total ran)
  Runs-total (ask {es} {a} p ran e) =
      ap (cons p) (Runs-total ran)
      ∙ sym (add-cons p (of_list (replied es)) a)
      ∙ ap (add (of_list (replied es))) (sym e)
  Runs-total (reply {es} {a} {b} ps ran e) =
      Runs-total ran
      ∙ ap (add (of_list (replied es))) e
      ∙ sym (add_assoc (of_list (replied es)) (of_list ps) b)
      ∙ ap (λ x. add x b) (add_comm (of_list (replied es)) (of_list ps))
