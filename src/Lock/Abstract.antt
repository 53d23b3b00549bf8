-- ===== src/Lock/Abstract.antt =====
-- A queueing lock as its holder and the list of its waiters, longest first: what the linked
-- representation stands for.
use drawterm.Prelude.{ℕ, Bool, true, false, Option, none, some, List, [], ◌∷◌, ◌++◌}

pub record Lock : Type 0 where
  pub hold : Option ℕ
  pub waiting : List ℕ

unfoldable pub acquire : ℕ → Lock → Bool × Lock
acquire up l = elim l.hold [
  | none ↦ (true, record l { hold = some up })
  | some p ↦ (false, record l { waiting = l.waiting ++ (up ∷ []) })
]

unfoldable pub try_acquire : ℕ → Lock → Bool × Lock
try_acquire up l = elim l.hold [ none ↦ (true, record l { hold = some up }) | some p ↦ (false, l) ]

-- The lock goes to the longest waiter.
unfoldable pub release : Lock → Option ℕ × Lock
release l = elim l.waiting [
  | [] ↦ (none, record l { hold = none })
  | p ∷ rest ↦ (some p, record { hold = some p; waiting = rest })
]
