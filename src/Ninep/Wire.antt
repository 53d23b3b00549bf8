-- ===== src/Ninep/Wire.antt =====
-- include/fcall.h and the helpers of libc/convS2M.c and libc/convM2S.c: numbers, strings and qids
-- as little-endian bytes. A buffer is the list of its bytes from the pointer `p` up to `ep`.
pub mod RoundTrip
use drawterm.Prelude.{
  ℕ, ◌+◌, ◌*◌, ◌/◌, ◌%◌, ◌^◌, Option, none, some, List, [], ◌∷◌, ◌++◌, length, take, drop, has,
  ◌==◌, if◌then◌else◌, u32,
}

-- A `char*`: nil, or the bytes before its NUL.
abbrev pub CString : Type 0
CString = Option (List ℕ)

pub record Qid : Type 0 where
  pub path : ℕ
  pub vers : ℕ
  pub type : ℕ

unfoldable pub pbit8 : ℕ → List ℕ
pbit8 v = (v % 256) ∷ []

unfoldable pub pbit16 : ℕ → List ℕ
pbit16 v = (v % 256) ∷ (v / 2 ^ 8 % 256) ∷ []

unfoldable pub pbit32 : ℕ → List ℕ
pbit32 v = (v % 256) ∷ (v / 2 ^ 8 % 256) ∷ (v / 2 ^ 16 % 256) ∷ (v / 2 ^ 24 % 256) ∷ []

-- The value is the 64-bit pattern of a `vlong`.
unfoldable pub pbit64 : ℕ → List ℕ
pbit64 v =
    (v % 256)
    ∷ (v / 2 ^ 8 % 256)
    ∷ (v / 2 ^ 16 % 256)
    ∷ (v / 2 ^ 24 % 256)
    ∷ (v / 2 ^ 32 % 256)
    ∷ (v / 2 ^ 40 % 256)
    ∷ (v / 2 ^ 48 % 256)
    ∷ (v / 2 ^ 56 % 256)
    ∷ []

-- The bytes that are joined by `|` share no bit, so the sum is the same number.
abbrev pub join16 : ℕ → ℕ → ℕ
join16 a b = a + b * 2 ^ 8

abbrev pub join32 : ℕ → ℕ → ℕ → ℕ → ℕ
join32 a b c d = a + b * 2 ^ 8 + c * 2 ^ 16 + d * 2 ^ 24

-- A reader of the buffer: `none` is the code's `return 0`, also by way of a nil pointer.
abbrev pub Reader : Type 0 → Type 0
Reader A = List ℕ → Option (A × List ℕ)

infixl 5 ◌>>=◌ ◌>>◌
abbrev pub ◌>>=◌ : {A B : Type 0} → Reader A → (A → Reader B) → Reader B
◌>>=◌ m f s = elim (m s) [ none ↦ none | some (a, s') ↦ f a s' ]

abbrev pub ◌>>◌ : {B : Type 0} → Reader (Unit {0}) → Reader B → Reader B
m >> k = m >>= λ _. k

abbrev pub done : {A : Type 0} → A → Reader A
done a s = some (a, s)

-- `if(p+n > ep) return 0;`
unfoldable pub need : ℕ → Reader (Unit {0})
need n s = if has n s then some (tt, s) else none

-- The readers of numbers stand behind a `need`, so that they never meet the end.
unfoldable pub gbit8 : Reader ℕ
gbit8 (a ∷ s) = some (a, s)
gbit8 _ = none

unfoldable pub gbit16 : Reader ℕ
gbit16 (a ∷ b ∷ s) = some (join16 a b, s)
gbit16 _ = none

unfoldable pub gbit32 : Reader ℕ
gbit32 (a ∷ b ∷ c ∷ d ∷ s) = some (join32 a b c d, s)
gbit32 _ = none

unfoldable pub gbit64 : Reader ℕ
gbit64 (a ∷ b ∷ c ∷ d ∷ e ∷ f ∷ g ∷ h ∷ s) = some (join32 a b c d + join32 e f g h * 2 ^ 32, s)
gbit64 _ = none

-- `if(p+n > ep) return 0; q = p; p += n;`: the `n` bytes at `q`.
unfoldable pub gbytes : ℕ → Reader (List ℕ)
gbytes n s = if has n s then some (take n s, drop n s) else none

-- The string that starts at a pointer.
unfoldable pub c_string : List ℕ → List ℕ
c_string [] = []
c_string (c ∷ s) = let rest = c_string s in if c == 0 then [] else c ∷ rest

-- The bytes are moved down over their count, and a NUL is put behind them; `*s` is what a reader
-- of the C string then sees.
unfoldable pub gstring : Reader CString
unfolding need gbit16 gbytes c_string
gstring = do need 2; n ← gbit16; bytes ← gbytes n; done (some (c_string bytes))

unfoldable pub gqid : Reader Qid
unfolding need gbit8 gbit32 gbit64
gqid = do need 13; t ← gbit8; v ← gbit32; p ← gbit64; done (record { path = p; vers = v; type = t })

-- `strlen` goes into a `uint`.
unfoldable pub pstring : CString → List ℕ
unfolding pbit16
pstring none = pbit16 0
pstring (some s) = pbit16 (u32 (length s)) ++ take (u32 (length s)) s

unfoldable pub stringsz : CString → ℕ
stringsz none = 2
stringsz (some s) = u32 (2 + length s)

unfoldable pub pqid : Qid → List ℕ
unfolding pbit8 pbit32 pbit64
pqid q = pbit8 q.type ++ pbit32 q.vers ++ pbit64 q.path
