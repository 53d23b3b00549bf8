-- ===== src/Ninep/Limits.antt =====
-- Messages outside the limits of the format: what `convS2M` does with them.
use drawterm.Prelude.{
  ℕ, ◌+◌, ◌-◌, ◌/◌, ◌%◌, ◌^◌, ◌≤◌, ◌<◌, ◌≡◌, refl, none, some, List, ◌++◌, length, take, drop,
  length-take, length-drop, take-eq_self, arith, IsU16, IsU32, u32,
}
use drawterm.Ninep.Wire.{
  pbit8, pbit16, pbit32, pbit64, join16, gbytes, gstring, c_string, pstring, stringsz,
}
use drawterm.Ninep.Wire.RoundTrip.{>>=_step, gbytes-le}
use drawterm.Ninep.Message.{get_sized_header}
use drawterm.Ninep.Fcall.{Fcall, msg_type, twalk, twrite, rerror, max_welem}
use drawterm.Ninep.Encode.{
  ok, fault, fields_size, names_in_range, size_of, size_s2m, put_fields, too_many, reads_in_range,
  finish, put_message, conv_s2m,
}
use drawterm.Ninep.Decode.{get_fields, get_message, check_end, conv_m2s}

-- A Twalk that counts more than MAXWELEM names: `sizeS2M` reads past the end of `wname`, before
-- `convS2M` comes to its test of `nwname`.
pub conv_s2m_many_names :
    (f : Fcall) (nap : ℕ)
    → msg_type f.type ≡ some twalk
    → length f.wname ≡ max_welem
    → max_welem < f.nwname
    → conv_s2m f nap ≡ fault
unfolding conv_s2m size_s2m size_of names_in_range
conv_s2m_many_names f nap k n h = rw k (ground arith)

-- A Twrite whose `count` makes the size wrap round is taken for a short one: `convS2M` then writes
-- more bytes than the buffer has.
pub conv_s2m_wrapped_size :
    (f : Fcall) (nap : ℕ)
    → msg_type f.type ≡ some twrite
    → IsU32 f.count
    → f.count ≤ length f.payload
    → 2 ^ 32 < 23 + f.count
    → IsU32 nap
    → 23 + f.count - 2 ^ 32 ≤ nap
    → conv_s2m f nap ≡ fault
unfolding conv_s2m size_s2m size_of names_in_range fields_size put_message too_many reads_in_range
    finish put_fields pbit64
conv_s2m_wrapped_size f nap k c p w b r = rw k (ground (arith, length-take f.count f.payload))

pstring_long : (s : List ℕ) → IsU32 (length s) → pstring (some s) ≡ pbit16 (length s) ++ s
unfolding pstring
pstring_long s h =
    let e : u32 (length s) ≡ length s = omega arith in
    rw (e, take-eq_self (length s) s (omega arith))

join16_cut : (v : ℕ) → join16 (v % 256) (v / 2 ^ 8 % 256) ≡ v % 2 ^ 16
join16_cut v = omega arith

-- Only the low 16 bits of the length count: the rest of the string is left in the buffer.
gstring_long :
    (s : List ℕ)
    → IsU32 (length s)
    → gstring (pstring (some s))
      ≡ some (some (c_string (take (length s % 2 ^ 16) s)), drop (length s % 2 ^ 16) s)
unfolding gstring pbit16
gstring_long s h =
    rw (pstring_long s h, join16_cut (length s))
      (>>=_step (gbytes (length s % 2 ^ 16)) _ _ _ _
        (gbytes-le (length s % 2 ^ 16) s (omega arith)))

length-pstring_long : (s : List ℕ) → IsU32 (length s) → length (pstring (some s)) ≡ 2 + length s
unfolding pbit16
length-pstring_long s h = rw (pstring_long s h) (omega arith)

abbrev rerror_bytes : Fcall → List ℕ → List ℕ
rerror_bytes f s = pbit32 (9 + length s) ++ (pbit8 f.type ++ (pbit16 f.tag ++ pstring (some s)))

length-rerror_bytes :
    (f : Fcall) (s : List ℕ) → IsU32 (length s) → length (rerror_bytes f s) ≡ 9 + length s
unfolding pbit8 pbit16 pbit32
length-rerror_bytes f s h = omega (arith, length-pstring_long s h)

written_long :
    (f : Fcall) (s : List ℕ) (nap : ℕ)
    → msg_type f.type ≡ some rerror
    → f.ename ≡ some s
    → IsU32 (9 + length s)
    → 9 + length s ≤ nap
    → conv_s2m f nap ≡ ok (9 + length s, rerror_bytes f s)
unfolding conv_s2m size_s2m size_of names_in_range fields_size stringsz put_message too_many
    reads_in_range finish put_fields pbit8 pbit16 pbit32
written_long f s nap k e w r = rw (k, e) (ground (arith, length-pstring_long s (omega arith)))

refused_long :
    (f g : Fcall) (s : List ℕ)
    → f.type ≡ 107
    → IsU16 f.tag
    → 2 ^ 16 ≤ length s
    → IsU32 (9 + length s)
    → conv_m2s (rerror_bytes f s) g ≡ none
unfolding conv_m2s check_end get_message get_fields
refused_long f g s k b l w =
    let h : Fcall = record g { type = f.type; tag = f.tag } in
    let known : msg_type f.type ≡ some rerror = rw k (unfold msg_type in refl) in
    rw
      (
        get_sized_header (9 + length s) f.type f.tag g (pstring (some s)) w (omega arith)
            (omega arith) b,
        known,
      )
      (ground (
        arith,
        gstring_long s (omega arith),
        length-drop (length s % 2 ^ 16) s,
        length-rerror_bytes f s (omega arith),
      ))

-- An Rerror whose string is 2 ^ 16 bytes or longer: `convS2M` returns its size and writes all of
-- it, with the length cut to 16 bits, and `convM2S` refuses the result.
pub long_ename_lost :
    (f g : Fcall) (s : List ℕ) (nap : ℕ)
    → f.type ≡ 107
    → IsU16 f.tag
    → f.ename ≡ some s
    → 2 ^ 16 ≤ length s
    → IsU32 (9 + length s)
    → 9 + length s ≤ nap
    → (out : List ℕ) × (conv_s2m f nap ≡ ok (9 + length s, out)) × (conv_m2s out g ≡ none)
long_ename_lost f g s nap k b e l w r = (
  rerror_bytes f s,
  written_long f s nap (rw k (unfold msg_type in refl)) e w r,
  refused_long f g s k b l w,
)
