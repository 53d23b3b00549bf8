-- ===== src/Lock.antt =====
-- kern/qlock.c and kern/rwlock.c: queueing locks, with their waiters linked through the processes,
-- and the readers-writer locks that are built on them.
pub mod Queue
pub mod Abstract
pub mod Refine
pub mod Rw
mod Tests
use drawterm.Prelude.{ℕ, Bool, true, false, Option, none, some, ◌==◌, if◌then◌else◌}

-- A process is its number, and `Links` is the field `qnext` of every process.
abbrev pub Links : Type 0
Links = ℕ → Option ℕ

abbrev pub set_next : Links → ℕ → Option ℕ → Links
set_next next p v q = if q == p then v else next q

pub record QLock : Type 0 where
  pub hold : Option ℕ
  pub first : Option ℕ
  pub last : Option ℕ

-- `queue(&q->first, &q->last)`, called by `up`.
unfoldable pub queue : ℕ → QLock → Links → QLock × Links
queue up q next = elim q.last [
  | none ↦ (record q { first = some up; last = some up }, set_next next up none)
  | some t ↦ (record q { last = some up }, set_next (set_next next t (some up)) up none)
]

-- `if(*first == 0) *last = 0;`
unfoldable pub fix_last : QLock → QLock
fix_last q = elim q.first [ none ↦ record q { last = none } | some p ↦ q ]

unfoldable pub dequeue : QLock → Links → Option ℕ × QLock
unfolding fix_last
dequeue q next = elim q.first [
  | none ↦ (none, q)
  | some t ↦ (some t, fix_last (record q { first = next t }))
]

-- Whether `up` holds the lock on return from the first part of `qlock`; if not, it sleeps.
unfoldable pub qlock : ℕ → QLock → Links → Bool × QLock × Links
qlock up q next = elim q.hold [
  | none ↦ (true, record q { hold = some up }, next)
  | some p ↦ let (q', next') = queue up q next in (false, q', next')
]

unfoldable pub canqlock : ℕ → QLock → Bool × QLock
canqlock up q = elim q.hold [ none ↦ (true, record q { hold = some up }) | some p ↦ (false, q) ]

-- The process that is woken up, if any.
unfoldable pub qunlock : QLock → Links → Option ℕ × QLock
qunlock q next = let (p, q') = dequeue q next in (p, record q' { hold = p })

unfoldable pub holdqlock : ℕ → QLock → Bool
holdqlock up q = elim q.hold [ none ↦ false | some p ↦ p == up ]
