-- ===== src/Encodings/RoundTrip.antt =====
-- The encodings of libc/u16.c and libc/u64.c, back and forth.
use drawterm.Prelude.{ℕ, ◌+◌, ◌*◌, ◌/◌, ◌<◌, ◌≤◌, ◌≡◌, List, length, All, IsByte}
use drawterm.Encodings.{enc64, dec64, enc16, dec16}
use drawterm.Encodings.Base64.{dec64-enc64}
use drawterm.Encodings.Base16.{dec16-enc16}

-- Whatever bytes enc16 and enc64 write as text, into a buffer with room for the text and its NUL,
-- dec16 and dec64 take back into a buffer with room for the bytes.
pub dec-enc :
    (p : List ℕ) (lim room : ℕ)
    → All IsByte p
    → length p * 2 < lim
    → (length p + 2) / 3 * 4 < lim
    → length p ≤ room
    → (dec16 room (enc16 lim p) ≡ p) × (dec64 room (enc64 lim p) ≡ p)
dec-enc p lim room a h k l = (dec16-enc16 p lim room a h l, dec64-enc64 p lim room a k l)
