-- ===== src/Rune/Length.antt =====
-- The functions that measure: `runelen`, `runenlen`, `fullrune` and `utflen`.
use drawterm.Prelude.{
  ℕ, zero, suc, ◌+◌, ◌^◌, ◌≤◌, ◌<◌, ◌≡◌, ◌≢◌, ◌⊎◌, inl, inr, refl, true, false, none, some, List,
  [], ◌∷◌, ◌++◌, append_assoc, length, length-append, take, drop, drop-append, All, ltb, leb,
  lt→leb, arith, if◌then◌else◌, Option-cases, take-append-drop, length-take, ap, ◌∙◌,
}
use native.Mathlib.Decide.{dec_lt}
use drawterm.Rune.{
  tx, t3, t4, runemax, runeerror, two_bytes, three_bytes, four_bytes, chartorune, encode,
  runetochar, rune_size, runenlen, fullrune, low_part, advance, utflen_loop, utflen,
}
use drawterm.Rune.RoundTrip.{chartorune-encode}

rune_size_lem : (c : ℕ) → rune_size c ≡ length (runetochar c)
unfolding rune_size runetochar encode
rune_size_lem c = ground arith

-- The bytes of a string of runes.
abbrev pub utf : List ℕ → List ℕ
utf [] = []
utf (c ∷ r) = runetochar c ++ utf r

-- `runenlen` counts the bytes that `runetochar` writes for the runes.
pub runenlen_lem : (r : List ℕ) → runenlen r ≡ length (utf r)
unfolding runenlen
runenlen_lem [] = refl
runenlen_lem (c ∷ r) =
    omega (arith, rune_size_lem c, runenlen_lem r, length-append (runetochar c) (utf r))

four_bytes-append :
    (c c1 c2 : ℕ) (s more : List ℕ) (p : ℕ × ℕ)
    → four_bytes c c1 c2 s ≡ some p
    → four_bytes c c1 c2 (s ++ more) ≡ some p
unfolding four_bytes
four_bytes-append c c1 c2 [] more p e = cc
four_bytes-append c c1 c2 (b ∷ s) more p e = e

three_bytes-append :
    (c c1 : ℕ) (s more : List ℕ) (p : ℕ × ℕ)
    → three_bytes c c1 s ≡ some p
    → three_bytes c c1 (s ++ more) ≡ some p
unfolding three_bytes
three_bytes-append c c1 [] more p e = cc
three_bytes-append c c1 (b ∷ s) more p e =
    ground (arith, four_bytes-append c c1 (low_part b) s more p)

two_bytes-append :
    (c : ℕ) (s more : List ℕ) (p : ℕ × ℕ)
    → two_bytes c s ≡ some p
    → two_bytes c (s ++ more) ≡ some p
unfolding two_bytes
two_bytes-append c [] more p e = cc
two_bytes-append c (b ∷ s) more p e = ground (arith, three_bytes-append c (low_part b) s more p)

-- What follows a rune does not change how it is read.
chartorune-append :
    (s more : List ℕ) (p : ℕ × ℕ) → chartorune s ≡ some p → chartorune (s ++ more) ≡ some p
unfolding chartorune
chartorune-append [] more p e = cc
chartorune-append (c ∷ s) more p e = ground (arith, two_bytes-append c s more p)

-- As many bytes behind the first as it can call for.
abbrev Enough : ℕ → ℕ → Type 0
Enough c k = (c < tx) ⊎ ((1 ≤ k) × (c < t3)) ⊎ ((2 ≤ k) × (c < t4)) ⊎ (3 ≤ k)

chartorune-ne-none : (c : ℕ) (s : List ℕ) → Enough c (length s) → chartorune (c ∷ s) ≢ none
unfolding chartorune two_bytes three_bytes four_bytes
chartorune-ne-none c [] h e = ground arith
chartorune-ne-none c (b1 ∷ []) h e = ground arith
chartorune-ne-none c (b1 ∷ b2 ∷ []) h e = ground arith
chartorune-ne-none c (b1 ∷ b2 ∷ b3 ∷ s) h e = ground arith

chartorune-some :
    (c : ℕ) (s : List ℕ) → Enough c (length s) → (p : ℕ × ℕ) × (chartorune (c ∷ s) ≡ some p)
chartorune-some c s h = elim (Option-cases (chartorune (c ∷ s))) [
  | inl n ↦ absurd (chartorune-ne-none c s h n)
  | inr x ↦ x
]

fullrune-Enough : (c n : ℕ) (s : List ℕ) → fullrune (c ∷ s) (suc n) ≡ some true → Enough c n
unfolding fullrune
fullrune-Enough c n s e = ground arith

-- Where `fullrune` finds a whole rune in the first `n` bytes, `chartorune` finds the same in these
-- alone as with what follows.
pub chartorune-fullrune :
    (s : List ℕ) (n : ℕ)
    → n ≤ length s
    → fullrune s n ≡ some true
    → (p : ℕ × ℕ) × (chartorune (take n s) ≡ some p) × (chartorune s ≡ some p)
chartorune-fullrune s zero h e = unfold fullrune in cc
chartorune-fullrune [] (suc n) h e = absurd (omega arith)
chartorune-fullrune (c ∷ s) (suc n) h e =
    let long : length (take n s) ≡ n = omega (arith, length-take n s) in
    let (p, found) = chartorune-some c (take n s) (rw long (fullrune-Enough c n s e)) in
    let whole : chartorune (take (suc n) (c ∷ s) ++ drop (suc n) (c ∷ s)) ≡ some p =
      chartorune-append (take (suc n) (c ∷ s)) (drop (suc n) (c ∷ s)) p found in
    (p, found, rw (take-append-drop (suc n) (c ∷ s)) at whole)

-- One round of the loop over the bytes of a rune beyond ASCII.
utflen_round :
    (xs rest : List ℕ) (c fuel n : ℕ)
    → All (λ b. tx ≤ b) xs
    → 0 < length xs
    → chartorune (xs ++ rest) ≡ some (c, length xs)
    → utflen_loop (suc fuel) (xs ++ rest) n ≡ utflen_loop fuel rest (n + 1)
unfolding utflen_loop advance
utflen_round [] rest c fuel n h l e = absurd (omega arith)
utflen_round (b ∷ xs) rest c fuel n h l e = ground (arith, drop-append (length xs) xs rest refl)

encode_high : (c : ℕ) → tx ≤ c → All (λ b. tx ≤ b) (encode c)
unfolding encode
encode_high c h = ground arith

length-encode : (c : ℕ) → (1 ≤ length (encode c)) × (length (encode c) ≤ 4)
unfolding encode
length-encode c = ground arith

utflen_encode :
    (c : ℕ) (rest : List ℕ) (fuel n : ℕ)
    → c ≢ 0
    → c ≤ runemax
    → utflen_loop (suc fuel) (encode c ++ rest) n ≡ utflen_loop fuel rest (n + 1)
utflen_encode c rest fuel n z h = elim (dec_lt c tx) [
  | yes low ↦ unfold utflen_loop advance encode in ground arith
  | no high ↦
      utflen_round (encode c) rest c fuel n (encode_high c (omega arith)) (length-encode c).0
        (chartorune-encode c rest h)
]

utflen_runetochar :
    (c : ℕ) (rest : List ℕ) (fuel n : ℕ)
    → c ≢ 0
    → c < 2 ^ 31
    → utflen_loop (suc fuel) (runetochar c ++ rest) n ≡ utflen_loop fuel rest (n + 1)
unfolding runetochar
utflen_runetochar c rest fuel n z small =
    let plain : leb (2 ^ 31) c ≡ false = lt→leb (2 ^ 31) c small in
    rw plain (
      utflen_encode (if ltb runemax c then runeerror else c) rest fuel n (ground (arith, z))
        (ground arith))

length-runetochar : (c : ℕ) → 1 ≤ length (runetochar c)
unfolding runetochar
length-runetochar c = ground (arith, length-encode (if ltb runemax c then runeerror else c))

utflen_loop-utf :
    (r rest : List ℕ) (fuel n : ℕ)
    → All (λ c. (c ≢ 0) × (c < 2 ^ 31)) r
    → length r < fuel
    → utflen_loop fuel (utf r ++ (0 ∷ rest)) n ≡ some (n + length r)
utflen_loop-utf r rest zero n h f = absurd (omega arith)
utflen_loop-utf [] rest (suc fuel) n h f = unfold utflen_loop in ground arith
utflen_loop-utf (c ∷ r) rest (suc fuel) n h f =
    rw (append_assoc (runetochar c) (utf r) (0 ∷ rest)) (
      utflen_runetochar c (utf r ++ (0 ∷ rest)) fuel n h.0.0 h.0.1
      ∙ utflen_loop-utf r rest fuel (n + 1) h.1 (omega arith)
      ∙ ap some (omega arith))

length-utf : (r : List ℕ) → length r ≤ length (utf r)
length-utf [] = omega arith
length-utf (c ∷ r) =
    omega (arith, length-append (runetochar c) (utf r), length-utf r, length-runetochar c)

-- Of a string of runes below 2 ^ 31 and its NUL, `utflen` counts the runes.
pub utflen-utf :
    (r rest : List ℕ)
    → All (λ c. (c ≢ 0) × (c < 2 ^ 31)) r
    → utflen (utf r ++ (0 ∷ rest)) ≡ some (length r)
unfolding utflen
utflen-utf r rest h =
    utflen_loop-utf r rest (length (utf r ++ (0 ∷ rest))) 0 h
      (omega (arith, length-utf r, length-append (utf r) (0 ∷ rest)))
    ∙ ap some (omega arith)
