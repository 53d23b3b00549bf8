-- ===== src/Lock/Rw/Inv.antt =====
-- The invariant of readers and writers, and the lists of waiters under a move.
use drawterm.Prelude.{
  ℕ, ◌<◌, ◌≡◌, ◌≢◌, Bool, true, false, none, some, List, [], ◌∷◌, ◌++◌, All, ◌==◌, arith,
}
use drawterm.Lock.Queue.{Distinct}
use drawterm.Lock.Rw.{
  Place, read_waits, has_read, counted, write_waits, has_write, waits_k, writing, leaving, RwLock,
  move,
}
use drawterm.Lock.Rw.Count.{count}

-- Between getting `x` and giving it back, and waiting for it or for `k`.
abbrev pub holds_x : Place → Bool
holds_x has_read = true
holds_x counted = true
holds_x has_write = true
holds_x waits_k = true
holds_x writing = true
holds_x leaving = true
holds_x p = false

abbrev pub at_x : Place → Bool
at_x read_waits = true
at_x write_waits = true
at_x p = false

abbrev pub at_k : Place → Bool
at_k waits_k = true
at_k p = false

-- Every process of a queue is one of the `n`, and stands where the queue's waiters stand.
abbrev pub Waiters : ℕ → (Place → Bool) → (ℕ → Place) → List ℕ → Type 0
Waiters n at place = All (λ i. (i < n) × (at (place i) ≡ true))

pub record Inv (n : ℕ) (s : RwLock) : Type 0 where
  pub holder : (i : ℕ) → holds_x (s.place i) ≡ true → s.x.hold ≡ some i
  pub queue_x : Waiters n at_x s.place s.x.waiting
  pub distinct_x : Distinct s.x.waiting
  pub queue_k : Waiters n at_k s.place s.k.waiting
  pub distinct_k : Distinct s.k.waiting
  pub total : s.readers ≡ count n s.place
  pub guarded : s.k.hold ≡ none → s.readers ≡ 0
  pub writer : (i : ℕ) → s.place i ≡ writing → (s.readers ≡ 0) × (s.k.hold ≡ some i)

-- A process that is not in a queue.
pub Waiters-fresh :
    (n : ℕ) (at : Place → Bool) (place : ℕ → Place) (xs : List ℕ) (i : ℕ)
    → at (place i) ≡ false
    → Waiters n at place xs
    → All (λ y. i ≢ y) xs
Waiters-fresh n at place [] i h w = tt
Waiters-fresh n at place (x ∷ xs) i h w =
    (λ e. ground (arith, w.0), Waiters-fresh n at place xs i h w.1)

pub Waiters-move :
    (n : ℕ) (at : Place → Bool) (place : ℕ → Place) (xs : List ℕ) (i : ℕ) (p : Place)
    → All (λ y. i ≢ y) xs
    → Waiters n at place xs
    → Waiters n at (move place i p) xs
Waiters-move n at place [] i p fresh w = tt
Waiters-move n at place (x ∷ xs) i p fresh w =
    let away : (x == i) ≡ false = ground (arith, fresh.0) in
    (rw away w.0, Waiters-move n at place xs i p fresh.1 w.1)

pub Waiters-append :
    (n : ℕ) (at : Place → Bool) (place : ℕ → Place) (xs : List ℕ) (i : ℕ)
    → i < n
    → at (place i) ≡ true
    → Waiters n at place xs
    → Waiters n at place (xs ++ (i ∷ []))
Waiters-append n at place [] i h e w = ((h, e), tt)
Waiters-append n at place (x ∷ xs) i h e w = (w.0, Waiters-append n at place xs i h e w.1)
