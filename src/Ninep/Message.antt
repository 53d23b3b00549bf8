-- ===== src/Ninep/Message.antt =====
-- Whole messages: `convM2S` after `convS2M`, behind any bytes, and on what is cut short.
use drawterm.Prelude.{
  ℕ, ◌≤◌, ◌≡◌, none, some, List, [], ◌∷◌, ◌++◌, length, length-append, append-nil, ap, arith,
  IsByte, IsU16, IsU32, Option-cases, inl, inr, le→ltb,
}
use drawterm.Ninep.Wire.{done, pbit8, pbit16, pbit32, ◌>>=◌}
use drawterm.Ninep.Wire.RoundTrip.{join16-digits, join32-digits}
use drawterm.Ninep.Fcall.{Fcall, MsgType, msg_type}
use drawterm.Ninep.Encode.{ok, put_fields, conv_s2m}
use drawterm.Ninep.Decode.{get_message, get_sized, at_least_header, check_end, conv_m2s}
use drawterm.Ninep.Spec.{carried, Fits}
use drawterm.Ninep.Size.{message_size, message_bytes, length-message_bytes, conv_s2m_lem}
use drawterm.Ninep.RoundTrip.{get_fields-put_fields}
use drawterm.Ninep.Local.{get_sized-IsLocal}

-- What `*g` becomes on receipt of `f`, a message of type `t`.
abbrev pub received : MsgType → Fcall → Fcall → Fcall
received t f g = carried t f (record g { type = f.type; tag = f.tag })

at_least_header-le : (n : ℕ) (s : List ℕ) → 7 ≤ n → at_least_header n s ≡ some (tt, s)
unfolding at_least_header
at_least_header-le n s h = rw (le→ltb n 7 h)

-- The header is read back, and the fields are read behind it.
pub get_sized_header :
    (size type tag : ℕ) (g : Fcall) (s : List ℕ)
    → IsU32 size
    → 7 ≤ size
    → IsByte type
    → IsU16 tag
    → get_sized g (pbit32 size ++ (pbit8 type ++ (pbit16 tag ++ s)))
      ≡ (get_message (msg_type type) (record g { type = type; tag = tag }) >>= λ f. done (size, f))
          s
unfolding get_sized pbit8 pbit16 pbit32
get_sized_header size type tag g s u l b w = ground (
  arith,
  join32-digits size u,
  join16-digits tag w,
  at_least_header-le size (pbit8 type ++ (pbit16 tag ++ s)) l,
)

get_sized-message_bytes :
    (t : MsgType) (f g : Fcall) (more : List ℕ)
    → Fits t f
    → get_sized g (message_bytes t f ++ more) ≡ some ((message_size t f, received t f g), more)
unfolding get_message pbit8 pbit16 pbit32
get_sized-message_bytes t f g more v = ground (
  arith,
  v.known,
  get_sized_header (message_size t f) f.type f.tag g (put_fields t f ++ more) v.small (omega arith)
      v.type_byte v.tag_word,
  get_fields-put_fields t f (record g { type = f.type; tag = f.tag }) more v.fields,
)

pub conv_m2s-message_bytes :
    (t : MsgType) (f g : Fcall) (more : List ℕ)
    → Fits t f
    → conv_m2s (message_bytes t f ++ more) g ≡ some (message_size t f, received t f g)
unfolding conv_m2s check_end
conv_m2s-message_bytes t f g more v = ground (
  arith,
  get_sized-message_bytes t f g more v,
  length-append (message_bytes t f) more,
  length-message_bytes t f v.fields,
)

-- Whatever `convS2M` returns for a message that fits, `convM2S` reads back from its bytes: the same
-- size, and the fields that the type sends. It leaves the other fields of `*g` and the bytes behind
-- the message alone.
pub conv_m2s-conv_s2m :
    (t : MsgType) (f g : Fcall) (nap size : ℕ) (out more : List ℕ)
    → Fits t f
    → conv_s2m f nap ≡ ok (size, out)
    → conv_m2s (out ++ more) g ≡ some (size, received t f g)
conv_m2s-conv_s2m t f g nap size out more v e =
    ground (arith, conv_s2m_lem t f nap v, conv_m2s-message_bytes t f g more v)

-- A decoded message lies within the buffer, and `convM2S` does not look behind it: with any bytes
-- added it answers the same.
pub conv_m2s_frame :
    (ap more : List ℕ) (g f : Fcall) (size : ℕ)
    → conv_m2s ap g ≡ some (size, f)
    → (size ≤ length ap) × (conv_m2s (ap ++ more) g ≡ some (size, f))
unfolding conv_m2s check_end
conv_m2s_frame ap more g f size e = elim (Option-cases (get_sized g ap)) [
  | inl n ↦ ground (arith, n)
  | inr (((n, f'), s), p) ↦ ground (
    arith,
    p,
    (get_sized-IsLocal g).extend ap more s (n, f') p,
    length-append ap more,
    length-append s more,
  )
]

-- `convM2S` refuses every proper prefix of a message that fits.
pub conv_m2s_truncated :
    (t : MsgType) (f g : Fcall) (x : ℕ) (front back : List ℕ)
    → Fits t f
    → message_bytes t f ≡ front ++ (x ∷ back)
    → conv_m2s front g ≡ none
conv_m2s_truncated t f g x front back v e = elim (Option-cases (conv_m2s front g)) [
  | inl n ↦ n
  | inr ((size, f'), p) ↦ ground (
    arith,
    conv_m2s_frame front (x ∷ back) g f' size p,
    rw (append-nil, e) at (conv_m2s-message_bytes t f g [] v),
    length-message_bytes t f v.fields,
    ap length e,
    length-append front (x ∷ back),
  )
]
