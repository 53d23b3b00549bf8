-- ===== src/Rune.antt =====
-- libc/rune.c and libc/utflen.c: runes and their UTF-8 bytes.
pub mod Bytes
pub mod RoundTrip
pub mod Canonical
pub mod Length
mod Tests
use Prim.Native.Nat.{bit_and, bit_xor}
use drawterm.Prelude.{
  ℕ, zero, suc, ◌+◌, ◌-◌, ◌*◌, ◌/◌, ◌%◌, ◌^◌, Bool, true, false, not, Option, none, some, List, [],
  ◌∷◌, length, drop, ltb, leb, ◌==◌, if◌then◌else◌,
}

-- Tx, T2 to T5, Rune1 to Rune4, Maskx + 1, Testx, Runeerror, Runemax, Runeself.
abbrev pub tx : ℕ
tx = 0x80

abbrev pub t2 : ℕ
t2 = 0xc0

abbrev pub t3 : ℕ
t3 = 0xe0

abbrev pub t4 : ℕ
t4 = 0xf0

abbrev pub t5 : ℕ
t5 = 0xf8

abbrev pub rune1 : ℕ
rune1 = 0x7f

abbrev pub rune2 : ℕ
rune2 = 0x7ff

abbrev pub rune3 : ℕ
rune3 = 0xffff

abbrev pub rune4 : ℕ
rune4 = 0x1f_ffff

abbrev pub testx : ℕ
testx = 0xc0

abbrev pub runeerror : ℕ
runeerror = 0xfffd

abbrev pub runemax : ℕ
runemax = 0x10_ffff

abbrev pub runeself : ℕ
runeself = 0x80

-- The rune and the number of bytes; `none` is a read behind the bytes that are there.
abbrev pub Decoded : Type 0
Decoded = Option (ℕ × ℕ)

abbrev pub bad : Decoded
bad = some (runeerror, 1)

-- `b ^ Tx`, and whether `Testx` meets it.
unfoldable pub low_part : ℕ → ℕ
low_part b = bit_xor b tx

unfoldable pub is_stray : ℕ → Bool
is_stray c = not (bit_and c testx == 0)

-- `(l << Bitx) | c`: the operands share no bit, for `c` is below 64.
abbrev pub join : ℕ → ℕ → ℕ
join l c = l * 64 + c

-- The four character sequence; `c` is the first byte.
unfoldable pub four_bytes : ℕ → ℕ → ℕ → List ℕ → Decoded
four_bytes c c1 c2 [] = none
four_bytes c c1 c2 (b ∷ s) =
    let c3 = low_part b in
    let l = join (join (join c c1) c2) c3 % (rune4 + 1) in
    if is_stray c3
    then bad
    else if ltb c t5
    then (if leb l rune3 then bad else if ltb runemax l then bad else some (l, 4))
    else bad

unfoldable pub three_bytes : ℕ → ℕ → List ℕ → Decoded
three_bytes c c1 [] = none
three_bytes c c1 (b ∷ s) =
    let c2 = low_part b in
    let l = join (join c c1) c2 % (rune3 + 1) in
    if is_stray c2
    then bad
    else if ltb c t4
    then (if leb l rune2 then bad else some (l, 3))
    else four_bytes c c1 c2 s

unfoldable pub two_bytes : ℕ → List ℕ → Decoded
two_bytes c [] = none
two_bytes c (b ∷ s) =
    let c1 = low_part b in
    let l = join c c1 % (rune2 + 1) in
    if is_stray c1
    then bad
    else if ltb c t3
    then (if ltb c t2 then bad else if leb l rune1 then bad else some (l, 2))
    else three_bytes c c1 s

unfoldable pub chartorune : List ℕ → Decoded
chartorune [] = none
chartorune (c ∷ s) = if ltb c tx then some (c, 1) else two_bytes c s

-- The bytes of a rune up to `runemax`. What `|` joins shares no bit.
unfoldable pub encode : ℕ → List ℕ
encode c =
    if leb c rune1
    then c ∷ []
    else if leb c rune2
    then (t2 + c / 64) ∷ (tx + c % 64) ∷ []
    else if leb c rune3
    then (t3 + c / 64 ^ 2) ∷ (tx + c / 64 % 64) ∷ (tx + c % 64) ∷ []
    else (t4 + c / 64 ^ 3) ∷ (tx + c / 64 ^ 2 % 64) ∷ (tx + c / 64 % 64) ∷ (tx + c % 64) ∷ []

-- The bytes that are written at `str`; the number that is returned is their number. A rune is 32
-- bits, and `long`, which `include/lib.h` defines as `int`, has a sign: from 2 ^ 31 on `c` is
-- negative, and so below `rune1`, and its low byte is written.
unfoldable pub runetochar : ℕ → List ℕ
runetochar c =
    if leb (2 ^ 31) c then (c % 256) ∷ [] else encode (if ltb runemax c then runeerror else c)

unfoldable pub runelen : ℕ → ℕ
runelen c = length (runetochar c)

-- The rune goes into an `int`: from 2 ^ 31 on it is negative, and so below `rune1`.
unfoldable pub rune_size : ℕ → ℕ
rune_size c =
    if leb (2 ^ 31) c
    then 1
    else if leb c rune1
    then 1
    else if leb c rune2
    then 2
    else if leb c rune3
    then 3
    else if ltb runemax c
    then 3
    else 4

unfoldable pub runenlen : List ℕ → ℕ
unfolding rune_size
runenlen [] = 0
runenlen (c ∷ r) = rune_size c + runenlen r

-- Whether the first `n` bytes hold a whole rune; `none` is a read behind the bytes.
unfoldable pub fullrune : List ℕ → ℕ → Option Bool
fullrune s zero = some false
fullrune [] (suc n) = none
fullrune (c ∷ s) (suc n) = some (
    if ltb c tx
    then true
    else if ltb c t3
    then leb 2 (suc n)
    else if ltb c t4
    then leb 3 (suc n)
    else leb 4 (suc n))

-- One round of the loop of `utflen`, at a byte that is not NUL: how far `s` moves.
unfoldable pub advance : List ℕ → Option ℕ
advance [] = none
advance (c ∷ s) =
    if ltb c runeself
    then some 1
    else (elim (chartorune (c ∷ s)) [ none ↦ none | some (r, n) ↦ some n ])

-- `none` also if the fuel runs out; `s` holds the string and its NUL.
unfoldable pub utflen_loop : ℕ → List ℕ → ℕ → Option ℕ
utflen_loop zero s n = none
utflen_loop (suc fuel) [] n = none
utflen_loop (suc fuel) (c ∷ s) n = elim (c == 0) [
  | true ↦ some n
  | false ↦ elim (advance (c ∷ s)) [
    | none ↦ none
    | some k ↦ utflen_loop fuel (drop k (c ∷ s)) (n + 1)
  ]
]

-- Each round takes a byte at least.
unfoldable pub utflen : List ℕ → Option ℕ
utflen s = utflen_loop (length s) s 0
