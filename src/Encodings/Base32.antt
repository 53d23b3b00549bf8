-- ===== src/Encodings/Base32.antt =====
-- libc/u32.c: bytes as digits of base 32, and back.
pub mod RoundTrip
use Prim.Native.Nat.{bit_and, bit_or}
use drawterm.Prelude.{
  ℕ, zero, suc, ◌+◌, ◌-◌, ◌*◌, ◌/◌, ◌%◌, ◌<◌, ◌≤◌, ◌≡◌, refl, sym, ap, ◌∙◌, Bool, true, false,
  Option, none, some, List, [], ◌∷◌, ◌++◌, length, All, IsByte, ltb, leb, le→ltb, lt→leb, ◌==◌,
  ==_iff, if◌then◌else◌, u32, accepts, accepts_at, arith,
}
use mathlib.Core.Path.{ap₂}
use drawterm.Encodings.{minus, between, byte}

unfoldable pub enc32chr : ℕ → ℕ
enc32chr o =
    bit_or (bit_and (between o 0 25) (65 + o)) (bit_and (between o 26 31) (u32 (50 + minus o 26)))

-- With the 0 that `dec32` takes for a character that is no digit.
unfoldable pub dec32chr : ℕ → ℕ
dec32chr c =
    bit_or (bit_and (between c 65 90) (u32 (1 + minus c 65))) (
      bit_or (bit_and (between c 97 122) (u32 (1 + minus c 97)))
        (bit_and (between c 50 55) (u32 (27 + minus c 50))))
    - 1

-- The bits that `|` joins are apart.
unfoldable pub byte0 : ℕ → ℕ → ℕ
byte0 a b = byte (a * 8 + b / 4 % 8)

unfoldable pub byte1 : ℕ → ℕ → ℕ → ℕ
byte1 b c d = byte (b % 4 * 64 + c * 2 + d / 16 % 2)

unfoldable pub byte2 : ℕ → ℕ → ℕ
byte2 d e = byte (d % 16 * 16 + e / 2 % 16)

unfoldable pub byte3 : ℕ → ℕ → ℕ → ℕ
byte3 e f g = byte (e % 2 * 128 + f * 4 + g / 8 % 4)

unfoldable pub byte4 : ℕ → ℕ → ℕ
byte4 g h = byte (g % 8 * 32 + h)

unfoldable pub prepend : List ℕ → Option (List ℕ) → Option (List ℕ)
prepend p none = none
prepend p (some q) = some (p ++ q)

-- The loop of `dec32` and what follows it, on the digits.
unfoldable pub groups : List ℕ → Option (List ℕ)
groups [] = some []
groups (a ∷ []) = none
groups (a ∷ b ∷ []) = some (byte0 a b ∷ [])
groups (a ∷ b ∷ c ∷ []) = none
groups (a ∷ b ∷ c ∷ d ∷ []) = some (byte0 a b ∷ byte1 b c d ∷ [])
groups (a ∷ b ∷ c ∷ d ∷ e ∷ []) = some (byte0 a b ∷ byte1 b c d ∷ byte2 d e ∷ [])
groups (a ∷ b ∷ c ∷ d ∷ e ∷ f ∷ []) = none
groups (a ∷ b ∷ c ∷ d ∷ e ∷ f ∷ g ∷ []) =
    some (byte0 a b ∷ byte1 b c d ∷ byte2 d e ∷ byte3 e f g ∷ [])
groups (a ∷ b ∷ c ∷ d ∷ e ∷ f ∷ g ∷ h ∷ text) =
    prepend (byte0 a b ∷ byte1 b c d ∷ byte2 d e ∷ byte3 e f g ∷ byte4 g h ∷ []) (groups text)

unfoldable pub digits : List ℕ → List ℕ
digits [] = []
digits (c ∷ text) = dec32chr c ∷ digits text

-- The bytes that are written, however many they are; -1 is `none`.
unfoldable pub dec32 : ℕ → List ℕ → Option (List ℕ)
dec32 ndest text =
    if ltb (ndest + 1) ((5 * length text + 7) / 8) then none else groups (digits text)

-- The values of the digits, in `enc32`.
unfoldable pub values : List ℕ → List ℕ
values [] = []
values (s ∷ []) = (s / 8 % 32) ∷ (s % 8 * 4) ∷ []
values (s ∷ t ∷ []) = (s / 8 % 32) ∷ (s % 8 * 4 + t / 64 % 4) ∷ (t / 2 % 32) ∷ (t % 2 * 16) ∷ []
values (s ∷ t ∷ u ∷ []) =
    (s / 8 % 32)
    ∷ (s % 8 * 4 + t / 64 % 4)
    ∷ (t / 2 % 32)
    ∷ (t % 2 * 16 + u / 16 % 16)
    ∷ (u % 16 * 2)
    ∷ []
values (s ∷ t ∷ u ∷ v ∷ []) =
    (s / 8 % 32)
    ∷ (s % 8 * 4 + t / 64 % 4)
    ∷ (t / 2 % 32)
    ∷ (t % 2 * 16 + u / 16 % 16)
    ∷ (u % 16 * 2 + v / 128 % 2)
    ∷ (v / 4 % 32)
    ∷ (v % 4 * 8)
    ∷ []
values (s ∷ t ∷ u ∷ v ∷ w ∷ p) =
    (s / 8 % 32)
    ∷ (s % 8 * 4 + t / 64 % 4)
    ∷ (t / 2 % 32)
    ∷ (t % 2 * 16 + u / 16 % 16)
    ∷ (u % 16 * 2 + v / 128 % 2)
    ∷ (v / 4 % 32)
    ∷ (v % 4 * 8 + w / 32 % 8)
    ∷ (w % 32)
    ∷ values p

unfoldable pub chars : List ℕ → List ℕ
chars [] = []
chars (j ∷ js) = enc32chr j ∷ chars js

unfoldable pub enc32 : ℕ → List ℕ → Option (List ℕ)
enc32 ndest p = if leb ndest ((8 * length p + 4) / 5) then none else some (chars (values p))
