-- ===== src/Ninep/Decoded.antt =====
-- A message that `convM2S` accepts fits: it can be sent on by `convS2M`.
use drawterm.Prelude.{
  ℕ, ◌+◌, ◌≤◌, ◌≡◌, refl, Option, none, some, List, length, drop, All, length-append, take-append,
  arith, IsByte, IsU16, IsU32, Option-cases, inl, inr, ap,
}
use drawterm.Ninep.Fcall.{
  Fcall, MsgType, msg_type, tversion, rversion, tauth, rauth, tattach, rattach, rerror, tflush,
  rflush, twalk, rwalk, topen, ropen, tcreate, rcreate, tread, rread, twrite, rwrite, tclunk,
  rclunk, tremove, rremove, tstat, rstat, twstat, rwstat,
}
use drawterm.Ninep.Encode.{fields_size}
use drawterm.Ninep.Decode.{get_fields, get_message, get_sized, check_end, conv_m2s}
use drawterm.Ninep.Spec.{Fits, FitsFields}
use drawterm.Ninep.Size.{message_size}
use drawterm.Ninep.Yields.{
  Yields, done-Yields, bind-Yields, need-Yields, gbit8-Yields, gbit16-Yields, gbit32-Yields,
  gbit64-Yields, gbytes-Yields, gstring-Yields, gqid-Yields, get_names-Yields, get_qids-Yields,
  at_most_max_welem-Yields, at_least_header-Yields,
}

-- The fields that a type sends fit, take no more bytes than were read, and leave the header alone.
abbrev FieldsRead : MsgType → Fcall → Fcall → ℕ → Type 0
FieldsRead t f g k = FitsFields t g × (fields_size t g ≤ k) × (g.type ≡ f.type) × (g.tag ≡ f.tag)

get_fields-Yields : (t : MsgType) (f : Fcall) → Yields (get_fields t f) (FieldsRead t f)
unfolding get_fields fields_size
get_fields-Yields tversion f = bind-Yields (need-Yields 4) λ _ i0 p0.
    bind-Yields gbit32-Yields λ a i1 p1.
      bind-Yields gstring-Yields λ b i2 p2. done-Yields _ ((p1.0, p2.0), omega arith, refl, refl)
get_fields-Yields tflush f =
    bind-Yields (need-Yields 2)
      λ _ i0 p0. bind-Yields gbit16-Yields λ a i1 p1. done-Yields _ (p1.0, omega arith, refl, refl)
get_fields-Yields tauth f = bind-Yields (need-Yields 4) λ _ i0 p0.
    bind-Yields gbit32-Yields λ a i1 p1. bind-Yields gstring-Yields λ b i2 p2.
      bind-Yields gstring-Yields
        λ c i3 p3. done-Yields _ ((p1.0, p2.0, p3.0), omega arith, refl, refl)
get_fields-Yields tattach f = bind-Yields (need-Yields 4) λ _ i0 p0.
    bind-Yields gbit32-Yields λ a i1 p1. bind-Yields (need-Yields 4) λ _ i4 p4.
      bind-Yields gbit32-Yields λ d i5 p5. bind-Yields gstring-Yields λ b i2 p2.
        bind-Yields gstring-Yields
          λ c i3 p3. done-Yields _ ((p1.0, p5.0, p2.0, p3.0), omega arith, refl, refl)
get_fields-Yields twalk f = bind-Yields (need-Yields 10) λ _ i0 p0.
    bind-Yields gbit32-Yields λ a i1 p1. bind-Yields gbit32-Yields λ b i2 p2.
      bind-Yields gbit16-Yields λ n i3 p3. bind-Yields (at_most_max_welem-Yields n) λ _ i4 p4.
        bind-Yields (get_names-Yields n) λ ss i5 p5. done-Yields _ (
          (
            p1.0,
            p2.0,
            p4.0,
            omega (arith, length-append ss (drop n f.wname)),
            rw (take-append n ss (drop n f.wname) (omega arith)) p5.1,
          ),
          rw (take-append n ss (drop n f.wname) (omega arith)) (omega arith),
          refl,
          refl,
        )
get_fields-Yields topen f = bind-Yields (need-Yields 5) λ _ i0 p0.
    bind-Yields gbit32-Yields λ a i1 p1.
      bind-Yields gbit8-Yields λ b i2 p2. done-Yields _ ((p1.0, p2.0), omega arith, refl, refl)
get_fields-Yields tcreate f = bind-Yields (need-Yields 4) λ _ i0 p0.
    bind-Yields gbit32-Yields λ a i1 p1. bind-Yields gstring-Yields λ b i2 p2.
      bind-Yields (need-Yields 5) λ _ i3 p3. bind-Yields gbit32-Yields λ c i4 p4.
        bind-Yields gbit8-Yields
          λ d i5 p5. done-Yields _ ((p1.0, p2.0, p4.0, p5.0), omega arith, refl, refl)
get_fields-Yields tread f = bind-Yields (need-Yields 16) λ _ i0 p0.
    bind-Yields gbit32-Yields λ a i1 p1. bind-Yields gbit64-Yields λ b i2 p2.
      bind-Yields gbit32-Yields
        λ c i3 p3. done-Yields _ ((p1.0, p2.0, p3.0), omega arith, refl, refl)
get_fields-Yields twrite f = bind-Yields (need-Yields 16) λ _ i0 p0.
    bind-Yields gbit32-Yields λ a i1 p1. bind-Yields gbit64-Yields λ b i2 p2.
      bind-Yields gbit32-Yields λ c i3 p3.
        bind-Yields (gbytes-Yields c)
          λ d i4 p4. done-Yields _ ((p1.0, p2.0, p3.0, omega arith), omega arith, refl, refl)
get_fields-Yields tclunk f =
    bind-Yields (need-Yields 4)
      λ _ i0 p0. bind-Yields gbit32-Yields λ a i1 p1. done-Yields _ (p1.0, omega arith, refl, refl)
get_fields-Yields tremove f =
    bind-Yields (need-Yields 4)
      λ _ i0 p0. bind-Yields gbit32-Yields λ a i1 p1. done-Yields _ (p1.0, omega arith, refl, refl)
get_fields-Yields tstat f =
    bind-Yields (need-Yields 4)
      λ _ i0 p0. bind-Yields gbit32-Yields λ a i1 p1. done-Yields _ (p1.0, omega arith, refl, refl)
get_fields-Yields twstat f = bind-Yields (need-Yields 6) λ _ i0 p0.
    bind-Yields gbit32-Yields λ a i1 p1. bind-Yields gbit16-Yields λ b i2 p2.
      bind-Yields (gbytes-Yields b)
        λ d i4 p4. done-Yields _ ((p1.0, p2.0, omega arith), omega arith, refl, refl)
get_fields-Yields rversion f = bind-Yields (need-Yields 4) λ _ i0 p0.
    bind-Yields gbit32-Yields λ a i1 p1.
      bind-Yields gstring-Yields λ b i2 p2. done-Yields _ ((p1.0, p2.0), omega arith, refl, refl)
get_fields-Yields rerror f =
    bind-Yields gstring-Yields λ b i2 p2. done-Yields _ (p2.0, omega arith, refl, refl)
get_fields-Yields rflush f = done-Yields f (tt, omega arith, refl, refl)
get_fields-Yields rauth f =
    bind-Yields gqid-Yields λ b i2 p2. done-Yields _ (p2.0, omega arith, refl, refl)
get_fields-Yields rattach f =
    bind-Yields gqid-Yields λ b i2 p2. done-Yields _ (p2.0, omega arith, refl, refl)
get_fields-Yields rwalk f = bind-Yields (need-Yields 2) λ _ i0 p0.
    bind-Yields gbit16-Yields λ n i3 p3. bind-Yields (at_most_max_welem-Yields n) λ _ i4 p4.
      bind-Yields (get_qids-Yields n) λ ss i5 p5. done-Yields _ (
        (
          p4.0,
          omega (arith, length-append ss (drop n f.wqid)),
          rw (take-append n ss (drop n f.wqid) (omega arith)) p5.1,
        ),
        omega arith,
        refl,
        refl,
      )
get_fields-Yields ropen f = bind-Yields gqid-Yields λ b i2 p2.
    bind-Yields (need-Yields 4) λ _ i0 p0.
      bind-Yields gbit32-Yields λ a i1 p1. done-Yields _ ((p2.0, p1.0), omega arith, refl, refl)
get_fields-Yields rcreate f = bind-Yields gqid-Yields λ b i2 p2.
    bind-Yields (need-Yields 4) λ _ i0 p0.
      bind-Yields gbit32-Yields λ a i1 p1. done-Yields _ ((p2.0, p1.0), omega arith, refl, refl)
get_fields-Yields rread f = bind-Yields (need-Yields 4) λ _ i0 p0.
    bind-Yields gbit32-Yields λ a i1 p1.
      bind-Yields (gbytes-Yields a)
        λ d i4 p4. done-Yields _ ((p1.0, omega arith), omega arith, refl, refl)
get_fields-Yields rwrite f =
    bind-Yields (need-Yields 4)
      λ _ i0 p0. bind-Yields gbit32-Yields λ a i1 p1. done-Yields _ (p1.0, omega arith, refl, refl)
get_fields-Yields rclunk f = done-Yields f (tt, omega arith, refl, refl)
get_fields-Yields rremove f = done-Yields f (tt, omega arith, refl, refl)
get_fields-Yields rstat f = bind-Yields (need-Yields 2) λ _ i0 p0.
    bind-Yields gbit16-Yields λ a i1 p1.
      bind-Yields (gbytes-Yields a)
        λ d i4 p4. done-Yields _ ((p1.0, omega arith), omega arith, refl, refl)
get_fields-Yields rwstat f = done-Yields f (tt, omega arith, refl, refl)

get_message-Yields :
    (m : Option MsgType) (f : Fcall)
    → Yields (get_message m f) (λ g k. (t : MsgType) × (m ≡ some t) × FieldsRead t f g k)
unfolding get_message
get_message-Yields none f = record { gives = λ s s' a bytes e. cc }
get_message-Yields (some t) f = record {
  gives = λ s s' a bytes e.
      let (k, long, rest, held) = (get_fields-Yields t f).gives s s' a bytes e in
      (k, long, rest, (t, refl, held));
}

abbrev SizedRead : ℕ × Fcall → ℕ → Type 0
SizedRead (size, g) k =
    (t : MsgType) × (msg_type g.type ≡ some t)
    × IsByte g.type
    × IsU16 g.tag
    × FitsFields t g
    × (message_size t g ≤ k)
    × (7 ≤ size)

get_sized-Yields : (f : Fcall) → Yields (get_sized f) SizedRead
unfolding get_sized
get_sized-Yields f = bind-Yields (need-Yields 7) λ _ i0 p0. bind-Yields gbit32-Yields λ size i1 p1.
    bind-Yields (at_least_header-Yields size) λ _ i2 p2. bind-Yields gbit8-Yields λ type i3 p3.
      bind-Yields gbit16-Yields λ tag i4 p4.
        bind-Yields (get_message-Yields (msg_type type) (record f { type = type; tag = tag }))
          λ g i5 p5.
            done-Yields (size, g)
              (let (t, known, fields) = p5 in
                let (fits, small, same, same_tag) = fields in
                (t, rw same known, rw same p3.0, rw same_tag p4.0, fits, omega arith, p2.0))

-- Whatever bytes come in, a message that `convM2S` accepts is of a known type and fits: its fields
-- are in range, its counts stay inside its arrays, its strings are C strings, and `sizeS2M` of it
-- is at most the size that was taken. The size is 7 at least.
pub conv_m2s-Fits :
    (ap : List ℕ) (g f : Fcall) (size : ℕ)
    → All IsByte ap
    → IsU32 (length ap)
    → conv_m2s ap g ≡ some (size, f)
    → (t : MsgType) × Fits t f × (message_size t f ≤ size) × (7 ≤ size)
unfolding conv_m2s check_end
conv_m2s-Fits ap g f size bytes long e = elim (Option-cases (get_sized g ap)) [
  | inl n ↦ ground (arith, n)
  | inr (((n, f'), s), p) ↦
      let (k, taken, rest, held) = (get_sized-Yields g).gives ap s (n, f') bytes p in
      let (t, known, type_byte, tag_word, fits, small, least) = held in
      let same : f' ≡ f = ground (arith, p) in
      let size_is : n ≡ size = ground (arith, p) in
      let end : n + length s ≡ length ap = ground (arith, p) in
      rw (← same) (
        t,
        record {
          known = known;
          type_byte = type_byte;
          tag_word = tag_word;
          fields = fits;
          small = omega arith;
        },
        omega arith,
        omega arith,
      )
]
