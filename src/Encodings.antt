-- ===== src/Encodings.antt =====
-- libc/u16.c and libc/u64.c: bytes as digits of base 16 and base 64.
pub mod Base64
pub mod Base16
pub mod Base32
pub mod RoundTrip
mod Tests
use Prim.Native.Nat.{bit_and, bit_or}
use drawterm.Prelude.{
  ℕ, zero, suc, ◌+◌, ◌-◌, ◌*◌, ◌/◌, ◌^◌, ◌%◌, Bool, true, false, Option, none, some, List, [], ◌∷◌,
  ◌++◌, length, ltb, leb, ◌==◌, if◌then◌else◌, u32,
}

-- An `int` as its 32 bits: `a - b`, and `a >> 8`.
abbrev pub minus : ℕ → ℕ → ℕ
minus a b = u32 (a + (2 ^ 32 - u32 b))

abbrev pub shift8 : ℕ → ℕ
shift8 v = v / 256 + (if leb (2 ^ 31) v then 2 ^ 32 - 2 ^ 24 else 0)

-- All bits where `x` is from `low` to `high`, and none otherwise.
unfoldable pub between : ℕ → ℕ → ℕ → ℕ
between x low high = shift8 (bit_and (minus (minus low 1) x) (minus (minus x high) 1))

unfoldable pub enc64chr : ℕ → ℕ
enc64chr o = bit_or (bit_and (between o 0 25) (65 + o)) (
    bit_or (bit_and (between o 26 51) (u32 (97 + minus o 26))) (
      bit_or (bit_and (between o 52 61) (u32 (48 + minus o 52)))
        (bit_or (bit_and (between o 62 62) 43) (bit_and (between o 63 63) 47))))

-- -1 is `none`. Characters from 128 on, which may be negative numbers, are none either way.
unfoldable pub dec64chr : ℕ → Option ℕ
dec64chr c =
    let o = bit_or (bit_and (between c 65 90) (u32 (1 + minus c 65))) (
      bit_or (bit_and (between c 97 122) (u32 (27 + minus c 97))) (
        bit_or (bit_and (between c 48 57) (u32 (53 + minus c 48)))
          (bit_or (bit_and (between c 43 43) 63) (bit_and (between c 47 47) 64)))) in
    if o == 0 then none else some (o - 1)

-- The local variables of `dec64`: the bytes written, and the room for more.
pub record Decoder : Type 0 where
  pub i : ℕ
  pub b24 : ℕ
  pub room : ℕ
  pub out : List ℕ

abbrev pub byte : ℕ → ℕ
byte v = v % 256

-- `switch(i)` in the loop; the bits that `|=` joins are apart. `none` is `exhausted`.
unfoldable pub digit : ℕ → Decoder → Option Decoder
digit c s =
    if s.i == 0
    then some (record s { b24 = c * 2 ^ 18; i = 1 })
    else if s.i == 1
    then some (record s { b24 = s.b24 + c * 2 ^ 12; i = 2 })
    else if s.i == 2
    then some (record s { b24 = s.b24 + c * 2 ^ 6; i = 3 })
    else if ltb s.room 3
    then none
    else (let v = s.b24 + c in
        some record {
          i = 0;
          b24 = v;
          room = s.room - 3;
          out = s.out ++ (byte (v / 2 ^ 16) ∷ byte (v / 2 ^ 8) ∷ byte v ∷ []);
        })

-- The `switch(i)` behind the loop.
unfoldable pub last_bytes : Decoder → List ℕ
last_bytes s =
    if s.i == 2
    then (if ltb s.room 1 then s.out else s.out ++ (byte (s.b24 / 2 ^ 16) ∷ []))
    else if s.i == 3
    then (if ltb s.room 2
        then s.out
        else s.out ++ (byte (s.b24 / 2 ^ 16) ∷ byte (s.b24 / 2 ^ 8) ∷ []))
    else s.out

unfoldable pub dec64_loop : List ℕ → Decoder → List ℕ
dec64_loop [] s = last_bytes s
dec64_loop (ch ∷ text) s = elim (dec64chr ch) [
  | none ↦ dec64_loop text s
  | some c ↦ elim (digit c s) [ none ↦ s.out | some t ↦ dec64_loop text t ]
]

-- The bytes that are written, of which the code returns the number.
unfoldable pub dec64 : ℕ → List ℕ → List ℕ
dec64 lim text = dec64_loop text (record { i = 0; b24 = 0; room = lim; out = [] })

-- `room` is `e - out`.
unfoldable pub enc64 : ℕ → List ℕ → List ℕ
enc64 room [] = []
enc64 room (a ∷ []) =
    let v = a * 2 ^ 16 in
    if leb room 4 then [] else enc64chr (v / 2 ^ 18) ∷ enc64chr (v / 2 ^ 12 % 64) ∷ 61 ∷ 61 ∷ []
enc64 room (a ∷ b ∷ []) =
    let v = a * 2 ^ 16 + b * 2 ^ 8 in
    if leb room 4
    then []
    else enc64chr (v / 2 ^ 18) ∷ enc64chr (v / 2 ^ 12 % 64) ∷ enc64chr (v / 2 ^ 6 % 64) ∷ 61 ∷ []
enc64 room (a ∷ b ∷ c ∷ p) =
    let v = a * 2 ^ 16 + b * 2 ^ 8 + c in
    let rest = enc64 (room - 4) p in
    if leb room 4
    then []
    else enc64chr (v / 2 ^ 18)
      ∷ enc64chr (v / 2 ^ 12 % 64)
      ∷ enc64chr (v / 2 ^ 6 % 64)
      ∷ enc64chr (v % 64)
      ∷ rest

unfoldable pub enc16chr : ℕ → ℕ
enc16chr o =
    bit_or (bit_and (between o 0 9) (48 + o)) (bit_and (between o 10 15) (u32 (65 + minus o 10)))

unfoldable pub dec16chr : ℕ → Option ℕ
dec16chr c =
    let o = bit_or (bit_and (between c 48 57) (u32 (1 + minus c 48))) (
      bit_or (bit_and (between c 65 70) (u32 (11 + minus c 65)))
        (bit_and (between c 97 102) (u32 (11 + minus c 97)))) in
    if o == 0 then none else some (o - 1)

-- `high` is the first digit of a pair that is not complete, that is `i` and `w`.
unfoldable pub dec16_loop : ℕ → Option ℕ → List ℕ → List ℕ
dec16_loop room high [] = []
dec16_loop room high (ch ∷ text) = elim (dec16chr ch) [
  | none ↦ dec16_loop room high text
  | some c ↦ elim high [
    | none ↦ dec16_loop room (some c) text
    | some w ↦
        let rest = dec16_loop (room - 1) none text in
        if ltb room 1 then [] else byte (w * 16 + c) ∷ rest
  ]
]

unfoldable pub dec16 : ℕ → List ℕ → List ℕ
dec16 lim text = dec16_loop lim none text

unfoldable pub enc16 : ℕ → List ℕ → List ℕ
enc16 room [] = []
enc16 room (c ∷ p) =
    let rest = enc16 (room - 2) p in
    if leb room 2 then [] else enc16chr (c / 16) ∷ enc16chr (c % 16) ∷ rest
