-- ===== src/Rune/RoundTrip.antt =====
-- `chartorune` reads back what `runetochar` wrote.
use drawterm.Prelude.{
  ℕ, ◌/◌, ◌%◌, ◌^◌, ◌≤◌, ◌<◌, ◌≡◌, false, some, List, ◌++◌, length, leb, ltb, lt→leb, arith,
  if◌then◌else◌,
}
use drawterm.Rune.{
  runemax, runeerror, two_bytes, three_bytes, four_bytes, chartorune, encode, runetochar,
}
use drawterm.Rune.Bytes.{low_part-tx, is_stray_small}

pub chartorune-encode :
    (c : ℕ) (rest : List ℕ)
    → c ≤ runemax
    → chartorune (encode c ++ rest) ≡ some (c, length (encode c))
unfolding chartorune encode two_bytes three_bytes four_bytes
chartorune-encode c rest h = ground (
  arith,
  low_part-tx (c % 64),
  low_part-tx (c / 64 % 64),
  low_part-tx (c / 64 ^ 2 % 64),
  is_stray_small (c % 64),
  is_stray_small (c / 64 % 64),
  is_stray_small (c / 64 ^ 2 % 64),
)

-- `chartorune` reads the rune that `runetochar` wrote, and takes the bytes that it wrote, whatever
-- follows them; in place of a value above Runemax, and below 2 ^ 31, it finds Runeerror.
pub chartorune-runetochar :
    (c : ℕ) (rest : List ℕ)
    → c < 2 ^ 31
    → chartorune (runetochar c ++ rest)
      ≡ some ((if ltb runemax c then runeerror else c), length (runetochar c))
unfolding runetochar
chartorune-runetochar c rest small =
    let plain : leb (2 ^ 31) c ≡ false = lt→leb (2 ^ 31) c small in
    rw plain (chartorune-encode (if ltb runemax c then runeerror else c) rest (ground arith))
