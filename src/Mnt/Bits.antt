-- ===== src/Mnt/Bits.antt =====
-- One bit of a mask, and the lowest one that is clear.
use drawterm.Prelude.{
  ℕ, zero, suc, ◌+◌, ◌*◌, ◌/◌, ◌%◌, ◌≤◌, ◌<◌, ◌≡◌, ◌≢◌, refl, true, false, ◌==◌, arith, Bool-cases,
  inl, inr,
}
use drawterm.Mnt.{get_bit, set_bit, clear_bit, full, first_clear}

pub get-set_bit : (v j : ℕ) → get_bit (set_bit v j) j ≡ true
unfolding get_bit set_bit
get-set_bit v zero = ground arith
get-set_bit v (suc j) =
    let same : (set_bit (v / 2) j * 2 + v % 2) / 2 ≡ set_bit (v / 2) j = omega arith in
    rw same (get-set_bit (v / 2) j)

pub get-set_bit_other : (v j k : ℕ) → j ≢ k → get_bit (set_bit v j) k ≡ get_bit v k
unfolding get_bit set_bit
get-set_bit_other v zero zero h = absurd (h refl)
get-set_bit_other v zero (suc k) h =
    let same : (v / 2 * 2 + 1) / 2 ≡ v / 2 = omega arith in rw same refl
get-set_bit_other v (suc j) zero h =
    let same : (set_bit (v / 2) j * 2 + v % 2) % 2 ≡ v % 2 = omega arith in rw same refl
get-set_bit_other v (suc j) (suc k) h =
    let same : (set_bit (v / 2) j * 2 + v % 2) / 2 ≡ set_bit (v / 2) j = omega arith in
    rw same (get-set_bit_other (v / 2) j k (λ e. h (omega arith)))

pub get-clear_bit : (v j : ℕ) → get_bit (clear_bit v j) j ≡ false
unfolding get_bit clear_bit
get-clear_bit v zero = ground arith
get-clear_bit v (suc j) =
    let same : (clear_bit (v / 2) j * 2 + v % 2) / 2 ≡ clear_bit (v / 2) j = omega arith in
    rw same (get-clear_bit (v / 2) j)

pub get-clear_bit_other : (v j k : ℕ) → j ≢ k → get_bit (clear_bit v j) k ≡ get_bit v k
unfolding get_bit clear_bit
get-clear_bit_other v zero zero h = absurd (h refl)
get-clear_bit_other v zero (suc k) h =
    let same : v / 2 * 2 / 2 ≡ v / 2 = omega arith in rw same refl
get-clear_bit_other v (suc j) zero h =
    let same : (clear_bit (v / 2) j * 2 + v % 2) % 2 ≡ v % 2 = omega arith in rw same refl
get-clear_bit_other v (suc j) (suc k) h =
    let same : (clear_bit (v / 2) j * 2 + v % 2) / 2 ≡ clear_bit (v / 2) j = omega arith in
    rw same (get-clear_bit_other (v / 2) j k (λ e. h (omega arith)))

pub set_bit-le_full : (n v j : ℕ) → v ≤ full n → j < n → set_bit v j ≤ full n
unfolding set_bit full
set_bit-le_full zero v j h lt = absurd (omega arith)
set_bit-le_full (suc n) v zero h lt = omega arith
set_bit-le_full (suc n) v (suc j) h lt =
    omega (arith, set_bit-le_full n (v / 2) j (omega arith) (omega arith))

pub clear_bit-le_full : (n v j : ℕ) → v ≤ full n → clear_bit v j ≤ full n
unfolding clear_bit full
clear_bit-le_full n v zero h = omega arith
clear_bit-le_full zero v (suc j) h = omega (arith, clear_bit-le_full zero (v / 2) j (omega arith))
clear_bit-le_full (suc n) v (suc j) h = omega (arith, clear_bit-le_full n (v / 2) j (omega arith))

-- A mask that is not full has a clear bit, and the search finds one.
pub first_clear-lt : (n v : ℕ) → v ≤ full n → v ≢ full n → first_clear n v < n
unfolding first_clear full
first_clear-lt zero v h ne = absurd (ne (omega arith))
first_clear-lt (suc n) v h ne = elim (Bool-cases (v % 2 == 0)) [
  | inl even ↦ ground arith
  | inr odd ↦
      let smaller = first_clear-lt n (v / 2) (omega arith) (λ e. ne (ground arith)) in
      ground (arith, smaller)
]

pub get-first_clear : (n v : ℕ) → v ≤ full n → v ≢ full n → get_bit v (first_clear n v) ≡ false
unfolding first_clear full get_bit
get-first_clear zero v h ne = absurd (ne (omega arith))
get-first_clear (suc n) v h ne = elim (Bool-cases (v % 2 == 0)) [
  | inl even ↦ ground arith
  | inr odd ↦ rw (odd, get_bit) (get-first_clear n (v / 2) (omega arith) (λ e. ne (ground arith)))
]

-- Every bit of a full mask is set.
pub get_bit-full : (n j : ℕ) → j < n → get_bit (full n) j ≡ true
unfolding get_bit full
get_bit-full zero j h = absurd (omega arith)
get_bit-full (suc n) zero h = ground arith
get_bit-full (suc n) (suc j) h =
    let same : (full n * 2 + 1) / 2 ≡ full n = omega arith in
    rw same (get_bit-full n j (omega arith))
