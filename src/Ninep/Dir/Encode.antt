-- ===== src/Ninep/Dir/Encode.antt =====
-- What `convD2M` writes into a buffer of any size.
use drawterm.Prelude.{
  IsU16, ℕ, ◌+◌, ◌-◌, ◌≤◌, ◌≡◌, refl, none, some, List, [], ◌∷◌, ◌++◌, length, length-append,
  append_assoc, append-nil, ltb, if◌then◌else◌, arith,
}
use drawterm.Ninep.Wire.{CString, pbit16, gbit16}
use drawterm.Ninep.Wire.RoundTrip.{gbit16-pbit16}
use drawterm.Ninep.Dir.{Dir, strlen, chars, size_d2m, put_strings, put_fixed, same_size, conv_d2m}

-- A string behind its length, and the strings of a list.
abbrev pub string_bytes : CString → List ℕ
string_bytes s = pbit16 (strlen s) ++ chars s

abbrev pub strings_bytes : List CString → List ℕ
strings_bytes [] = []
strings_bytes (s ∷ ss) = string_bytes s ++ strings_bytes ss

abbrev pub names : Dir → List CString
names d = d.name ∷ d.uid ∷ d.gid ∷ d.muid ∷ []

-- A whole entry.
abbrev pub dir_bytes : Dir → List ℕ
dir_bytes d = put_fixed d (size_d2m d) ++ strings_bytes (names d)

length-string_bytes : (s : CString) → length (string_bytes s) ≡ 2 + strlen s
unfolding pbit16
length-string_bytes none = refl
length-string_bytes (some s) = omega arith

length-strings_bytes :
    (s : CString) (ss : List CString)
    → length (strings_bytes (s ∷ ss)) ≡ 2 + strlen s + length (strings_bytes ss)
length-strings_bytes s ss =
    omega (arith, length-append (string_bytes s) (strings_bytes ss), length-string_bytes s)

put_strings_lem :
    (nbuf : ℕ) (ss : List CString) (out : List ℕ)
    → length out + length (strings_bytes ss) ≤ nbuf
    → put_strings nbuf out ss ≡ some (out ++ strings_bytes ss)
unfolding put_strings
put_strings_lem nbuf [] out h = rw append-nil
put_strings_lem nbuf (s ∷ ss) out h = ground (
  arith,
  append_assoc out (string_bytes s) (strings_bytes ss),
  length-append out (string_bytes s),
  length-string_bytes s,
  length-strings_bytes s ss,
  put_strings_lem nbuf ss (out ++ string_bytes s),
)

length-put_fixed : (d : Dir) (ss : ℕ) → length (put_fixed d ss) ≡ 41
unfolding put_fixed
length-put_fixed d ss = refl

-- `sizeD2M` counts the bytes of the entry.
pub length-dir_bytes : (d : Dir) → length (dir_bytes d) ≡ size_d2m d
unfolding size_d2m
length-dir_bytes d = omega (
  arith,
  length-append (put_fixed d (size_d2m d)) (strings_bytes (names d)),
  length-put_fixed d (size_d2m d),
  length-strings_bytes d.name (d.uid ∷ d.gid ∷ d.muid ∷ []),
  length-strings_bytes d.uid (d.gid ∷ d.muid ∷ []),
  length-strings_bytes d.gid (d.muid ∷ []),
  length-strings_bytes d.muid [],
)

pub conv_d2m_cases :
    (d : Dir) (nbuf : ℕ)
    → conv_d2m d nbuf ≡ (
        if ltb nbuf 2
        then none
        else if ltb nbuf (size_d2m d)
        then some (2, pbit16 (size_d2m d - 2))
        else some (size_d2m d, dir_bytes d))
unfolding conv_d2m same_size
conv_d2m_cases d nbuf = ground (
  arith,
  length-dir_bytes d,
  length-append (put_fixed d (size_d2m d)) (strings_bytes (names d)),
  put_strings_lem nbuf (names d) (put_fixed d (size_d2m d)),
)

-- For an entry whose size behind its count goes into 16 bits: in a buffer of `sizeD2M` bytes at
-- least, `convD2M` writes the whole entry; in a shorter one only two bytes, from which `GBIT16` reads
-- how much more is needed; below two bytes it writes nothing and fails.
pub conv_d2m_lem :
    (d : Dir) (nbuf : ℕ)
    → IsU16 (size_d2m d - 2)
    → (conv_d2m d nbuf ≡ (
        if ltb nbuf 2
        then none
        else if ltb nbuf (size_d2m d)
        then some (2, pbit16 (size_d2m d - 2))
        else some (size_d2m d, dir_bytes d)))
      × (gbit16 (pbit16 (size_d2m d - 2)) ≡ some (size_d2m d - 2, []))
unfolding pbit16
conv_d2m_lem d nbuf small = (conv_d2m_cases d nbuf, gbit16-pbit16 (size_d2m d - 2) [] small)
