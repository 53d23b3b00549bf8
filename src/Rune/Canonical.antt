-- ===== src/Rune/Canonical.antt =====
-- What `chartorune` accepts: only the bytes that `runetochar` writes.
use drawterm.Prelude.{
  ℕ, ◌+◌, ◌≤◌, ◌<◌, ◌≡◌, ◌⊎◌, false, some, List, [], ◌∷◌, length, take, All, IsByte, arith,
}
use drawterm.Rune.{
  tx, t3, t4, rune1, runemax, runeerror, two_bytes, three_bytes, four_bytes, chartorune, encode,
  runetochar, low_part, is_stray,
}
use drawterm.Rune.Bytes.{low_part_lem, is_stray_lem}

-- A rune that was found, with the bytes that it was found in: a bad byte alone, or exactly the
-- bytes that `runetochar` writes.
abbrev Found : List ℕ → ℕ → ℕ → Type 0
Found s r n = ((r ≡ runeerror) × (n ≡ 1)) ⊎ (take n s ≡ encode r)

four_bytes-Found :
    (c b1 b2 : ℕ) (s : List ℕ) (r n : ℕ)
    → c < 256
    → b1 < 256
    → b2 < 256
    → All IsByte s
    → is_stray (low_part b1) ≡ false
    → is_stray (low_part b2) ≡ false
    → t4 ≤ c
    → four_bytes c (low_part b1) (low_part b2) s ≡ some (r, n)
    → (r ≤ runemax) × (1 ≤ n) × (n ≤ 3 + length s) × Found (c ∷ b1 ∷ b2 ∷ s) r n
unfolding four_bytes encode
four_bytes-Found c b1 b2 [] r n hc h1 h2 hs s1 s2 hi e = cc
four_bytes-Found c b1 b2 (b3 ∷ s) r n hc h1 h2 hs s1 s2 hi e = ground (
  arith,
  low_part_lem b1,
  low_part_lem b2,
  low_part_lem b3,
  is_stray_lem (low_part b1),
  is_stray_lem (low_part b2),
  is_stray_lem (low_part b3),
)

three_bytes-Found :
    (c b1 : ℕ) (s : List ℕ) (r n : ℕ)
    → c < 256
    → b1 < 256
    → All IsByte s
    → is_stray (low_part b1) ≡ false
    → t3 ≤ c
    → three_bytes c (low_part b1) s ≡ some (r, n)
    → (r ≤ runemax) × (1 ≤ n) × (n ≤ 2 + length s) × Found (c ∷ b1 ∷ s) r n
unfolding three_bytes encode
three_bytes-Found c b1 [] r n hc h1 hs s1 hi e = cc
three_bytes-Found c b1 (b2 ∷ s) r n hc h1 hs s1 hi e = ground (
  arith,
  low_part_lem b1,
  low_part_lem b2,
  is_stray_lem (low_part b1),
  is_stray_lem (low_part b2),
  four_bytes-Found c b1 b2 s r n hc h1 hs.0 hs.1 s1,
)

two_bytes-Found :
    (c : ℕ) (s : List ℕ) (r n : ℕ)
    → c < 256
    → All IsByte s
    → tx ≤ c
    → two_bytes c s ≡ some (r, n)
    → (r ≤ runemax) × (1 ≤ n) × (n ≤ 1 + length s) × Found (c ∷ s) r n
unfolding two_bytes encode
two_bytes-Found c [] r n hc hs hi e = cc
two_bytes-Found c (b1 ∷ s) r n hc hs hi e =
    ground (
      arith,
      low_part_lem b1,
      is_stray_lem (low_part b1),
      three_bytes-Found c b1 s r n hc hs.0 hs.1,
    )

encode_small : (c : ℕ) → c ≤ rune1 → encode c ≡ c ∷ []
unfolding encode
encode_small c h = ground arith

-- On any bytes, what `chartorune` finds is at most Runemax and takes one byte at least and no more
-- than there are: either it is Runeerror for one byte, or these are the bytes that `runetochar`
-- writes for it, so that no longer form of a rune is accepted.
pub chartorune_canonical :
    (s : List ℕ) (r n : ℕ)
    → All IsByte s
    → chartorune s ≡ some (r, n)
    → (r ≤ runemax)
      × (1 ≤ n)
      × (n ≤ length s)
      × (((r ≡ runeerror) × (n ≡ 1)) ⊎ (take n s ≡ runetochar r))
unfolding chartorune runetochar
chartorune_canonical [] r n hs e = cc
chartorune_canonical (c ∷ s) r n hs e =
    ground (arith, encode_small c, two_bytes-Found c s r n hs.0 hs.1)
