-- ===== src/Lock/Rw/Count.antt =====
-- How many of the first `n` processes are counted as readers.
use drawterm.Prelude.{ℕ, zero, suc, ◌+◌, ◌≤◌, ◌<◌, ◌≡◌, refl, ◌==◌, arith, Bool-cases, inl, inr}
use drawterm.Lock.Rw.{Place, counted, reading, move, start}

abbrev pub reads : Place → ℕ
reads counted = 1
reads reading = 1
reads p = 0

pub count : ℕ → (ℕ → Place) → ℕ
count zero place = 0
count (suc n) place = reads (place n) + count n place

count_above :
    (n : ℕ) (place : ℕ → Place) (i : ℕ) (p : Place)
    → n ≤ i
    → count n (move place i p) ≡ count n place
unfolding count
count_above zero place i p h = refl
count_above (suc n) place i p h = ground (arith, count_above n place i p)

pub count-move :
    (n : ℕ) (place : ℕ → Place) (i : ℕ) (p : Place)
    → i < n
    → count n (move place i p) + reads (place i) ≡ count n place + reads p
unfolding count
count-move zero place i p h = absurd (omega arith)
count-move (suc n) place i p h = elim (Bool-cases (n == i)) [
  | inl same ↦ ground (arith, count_above n place i p)
  | inr other ↦ ground (arith, count-move n place i p)
]

-- A reader is counted.
pub reads-le-count : (n : ℕ) (place : ℕ → Place) (i : ℕ) → i < n → reads (place i) ≤ count n place
unfolding count
reads-le-count zero place i h = absurd (omega arith)
reads-le-count (suc n) place i h = ground (arith, reads-le-count n place i)

pub count_start : (n : ℕ) → count n start.place ≡ 0
unfolding count
count_start zero = refl
count_start (suc n) = omega (arith, count_start n)
