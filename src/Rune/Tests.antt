-- ===== src/Rune/Tests.antt =====
-- Runs, and the theorems at concrete runes and bytes.
use drawterm.Prelude.{
  ℕ, ◌≤◌, ◌≡◌, ◌⊎◌, refl, some, List, [], ◌∷◌, ◌++◌, length, take, arith, ltb, if◌then◌else◌,
}
use drawterm.Rune.{
  chartorune, two_bytes, three_bytes, low_part, is_stray, encode, runetochar, advance, utflen_loop,
  utflen, runeerror, runemax,
}
use drawterm.Rune.RoundTrip.{chartorune-runetochar}
use drawterm.Rune.Canonical.{chartorune_canonical}

-- The euro sign, and a padded form of the slash, which is refused.
euro : runetochar 0x20ac ≡ 0xe2 ∷ 0x82 ∷ 0xac ∷ []
unfolding runetochar encode
euro = refl

abbrev euro_bytes : List ℕ
euro_bytes = 0xe2 ∷ 0x82 ∷ 0xac ∷ 0x21 ∷ []

read_euro : chartorune euro_bytes ≡ some (0x20ac, 3)
unfolding chartorune two_bytes three_bytes low_part is_stray
read_euro = refl

padded_slash : chartorune (0xc0 ∷ 0xaf ∷ []) ≡ some (runeerror, 1)
unfolding chartorune two_bytes low_part is_stray
padded_slash = refl

utflen_mixed : utflen (0x61 ∷ 0xe2 ∷ 0x82 ∷ 0xac ∷ 0 ∷ []) ≡ some 2
unfolding utflen utflen_loop advance chartorune two_bytes three_bytes low_part is_stray
utflen_mixed = refl

chartorune-runetochar_example :
    chartorune (runetochar 0x1f600 ++ (7 ∷ []))
    ≡ some ((if ltb runemax 0x1f600 then runeerror else 0x1f600), length (runetochar 0x1f600))
chartorune-runetochar_example = chartorune-runetochar 0x1f600 (7 ∷ []) (omega arith)

chartorune_canonical_example :
    (0x20ac ≤ runemax)
    × (1 ≤ 3)
    × (3 ≤ 4)
    × (((◌≡◌ {A = ℕ} 0x20ac runeerror) × (◌≡◌ {A = ℕ} 3 1))
        ⊎ (take 3 euro_bytes ≡ runetochar 0x20ac))
chartorune_canonical_example = chartorune_canonical euro_bytes 0x20ac 3 (omega arith) read_euro
