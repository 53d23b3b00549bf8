-- ===== src/Rune/Bytes.antt =====
-- The bit operations on a byte, in plain arithmetic, by tables.
use drawterm.Prelude.{ℕ, ◌+◌, ◌%◌, ◌<◌, ◌≡◌, refl, Bool, true, false, leb, ◌==◌, ==_iff, not, arith}
use drawterm.Prelude.{accepts, accepts_at}
use drawterm.Rune.{low_part, is_stray, tx}

low_part_table : accepts (λ b. low_part b == (b + 128) % 256) 0 256 ≡ true
unfolding accepts low_part
low_part_table = refl

pub low_part_lem : (b : ℕ) → b < 256 → low_part b ≡ (b + 128) % 256
low_part_lem b h = (==_iff _ _).0 (accepts_at _ 0 256 b low_part_table (omega arith) (omega arith))

same : Bool → Bool → Bool
same true b = b
same false b = not b

same→eq : (a b : Bool) → same a b ≡ true → a ≡ b
unfolding same
same→eq true b h = ground arith
same→eq false b h = ground arith

is_stray_table : accepts (λ c. same (is_stray c) (leb 64 c)) 0 256 ≡ true
unfolding accepts is_stray same
is_stray_table = refl

pub is_stray_lem : (c : ℕ) → c < 256 → is_stray c ≡ leb 64 c
is_stray_lem c h = same→eq _ _ (accepts_at _ 0 256 c is_stray_table (omega arith) (omega arith))

-- A byte in the range of a continuation gives its six bits, and any other is told apart.
pub low_part-tx : (b : ℕ) → b < 64 → low_part (tx + b) ≡ b
low_part-tx b h = omega (arith, low_part_lem (tx + b))

pub is_stray_small : (b : ℕ) → b < 64 → is_stray b ≡ false
is_stray_small b h = ground (arith, is_stray_lem b)
