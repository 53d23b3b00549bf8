-- ===== src/Encodings/Base16.antt =====
-- `dec16` takes back what `enc16` wrote.
use drawterm.Prelude.{
  ℕ, ◌+◌, ◌-◌, ◌*◌, ◌/◌, ◌%◌, ◌<◌, ◌≤◌, ◌≡◌, refl, ap, ◌∙◌, Bool, true, false, Option, none, some,
  List, [], ◌∷◌, length, All, IsByte, le→ltb, lt→leb, ◌==◌, ==_iff, accepts, accepts_at, arith,
}
use mathlib.Core.Path.{ap₂}
use drawterm.Encodings.{between, byte, enc16chr, dec16chr, dec16_loop, dec16, enc16}

abbrev is_digit : ℕ → Option ℕ → Bool
is_digit o none = false
is_digit o (some d) = d == o

dec16chr_table : accepts (λ o. is_digit o (dec16chr (enc16chr o))) 0 16 ≡ true
unfolding accepts dec16chr enc16chr between
dec16chr_table = refl

dec16chr-enc16chr : (o : ℕ) → o < 16 → dec16chr (enc16chr o) ≡ some o
dec16chr-enc16chr o h =
    go (dec16chr (enc16chr o)) (accepts_at _ 0 16 o dec16chr_table (omega arith) (omega arith))
  where
    go : (d : Option ℕ) → is_digit o d ≡ true → d ≡ some o
    go none e = absurd (cc)
    go (some d) e = ap some ((==_iff d o).0 e)

high_digit :
    (o room : ℕ) (text : List ℕ)
    → o < 16
    → dec16_loop room none (enc16chr o ∷ text) ≡ dec16_loop room (some o) text
unfolding dec16_loop
high_digit o room text h = rw (dec16_loop, dec16chr-enc16chr o h) refl

low_digit :
    (w o room : ℕ) (text : List ℕ)
    → o < 16
    → 1 ≤ room
    → dec16_loop room (some w) (enc16chr o ∷ text)
      ≡ byte (w * 16 + o) ∷ dec16_loop (room - 1) none text
unfolding dec16_loop
low_digit w o room text h l = rw (dec16_loop, dec16chr-enc16chr o h) (rw (le→ltb room 1 l) refl)

empty : (room : ℕ) → dec16_loop room none [] ≡ []
unfolding dec16_loop
empty room = refl

-- Whatever bytes enc16 writes as text, into a buffer with room for the text and its NUL, dec16 takes
-- back into a buffer with room for the bytes.
pub dec16-enc16 :
    (p : List ℕ) (lim room : ℕ)
    → All IsByte p
    → length p * 2 < lim
    → length p ≤ room
    → dec16 room (enc16 lim p) ≡ p
unfolding dec16 enc16
dec16-enc16 [] lim room a h l = empty room
dec16-enc16 (c ∷ p) lim room (hc, a) h l = rw (lt→leb lim 2 (omega arith)) (
    high_digit (c / 16) room _ (omega arith)
    ∙ low_digit (c / 16) (c % 16) room (enc16 (lim - 2) p) (omega arith) (omega arith)
    ∙ ap₂ ◌∷◌ (omega arith) (dec16-enc16 p (lim - 2) (room - 1) a (omega arith) (omega arith)))
