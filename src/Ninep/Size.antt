-- ===== src/Ninep/Size.antt =====
-- `sizeS2M` counts the bytes that `convS2M` writes, so its last test never fails.
use drawterm.Prelude.{
  ℕ, ◌+◌, ◌*◌, ◌≤◌, ◌≡◌, refl, true, false, List, [], ◌∷◌, ◌++◌, length, take, All, length-append,
  length-take, arith, ltb, if◌then◌else◌,
}
use drawterm.Ninep.Wire.{CString, Qid, pbit8, pbit16, pbit32, pstring, pqid}
use drawterm.Ninep.Wire.RoundTrip.{FitsString, length-pstring}
use drawterm.Ninep.Encode.{
  ok, fail, names_size, fields_size, names_in_range, size_of, size_s2m, put_names, put_qids,
  put_fields, too_many, reads_in_range, finish, put_message, conv_s2m,
}
use drawterm.Ninep.Spec.{FitsFields, Fits}
use drawterm.Ninep.Fcall.{
  Fcall, MsgType, tversion, rversion, tauth, rauth, tattach, rattach, rerror, tflush, rflush, twalk,
  rwalk, topen, ropen, tcreate, rcreate, tread, rread, twrite, rwrite, tclunk, rclunk, tremove,
  rremove, tstat, rstat, twstat, rwstat,
}

length-put_names : (ss : List CString) → All FitsString ss → length (put_names ss) ≡ names_size ss
unfolding put_names names_size
length-put_names [] h = refl
length-put_names (s ∷ ss) h =
    omega (
      arith,
      length-append (pstring s) (put_names ss),
      length-pstring s h.0,
      length-put_names ss h.1,
    )

length-pqid : (q : Qid) → length (pqid q) ≡ 13
unfolding pqid
length-pqid q = refl

length-put_qids : (qs : List Qid) → length (put_qids qs) ≡ length qs * 13
unfolding put_qids
length-put_qids [] = refl
length-put_qids (q ∷ qs) =
    omega (arith, length-append (pqid q) (put_qids qs), length-pqid q, length-put_qids qs)

-- The bytes behind the tag are as many as `sizeS2M` adds for the type.
pub length-put_fields :
    (t : MsgType) (f : Fcall) → FitsFields t f → length (put_fields t f) ≡ fields_size t f
unfolding put_fields fields_size
length-put_fields tversion f h = omega (arith, length-pstring f.version h.1)
length-put_fields tflush f h = refl
length-put_fields tauth f h = omega (
  arith,
  length-append (pstring f.uname) (pstring f.aname),
  length-pstring f.uname h.1,
  length-pstring f.aname h.2,
)
length-put_fields tattach f h = omega (
  arith,
  length-append (pstring f.uname) (pstring f.aname),
  length-pstring f.uname h.2,
  length-pstring f.aname h.3,
)
length-put_fields twalk f h = omega (arith, length-put_names (take f.nwname f.wname) h.4)
length-put_fields topen f h = refl
length-put_fields tcreate f h = omega (
  arith,
  length-append (pstring f.name) (pbit32 f.perm ++ pbit8 f.mode),
  length-pstring f.name h.1,
)
length-put_fields tread f h = refl
length-put_fields twrite f h = omega (arith, length-take f.count f.payload)
length-put_fields tclunk f h = refl
length-put_fields tremove f h = refl
length-put_fields tstat f h = refl
length-put_fields twstat f h = omega (arith, length-take f.nstat f.stat)
length-put_fields rversion f h = omega (arith, length-pstring f.version h.1)
length-put_fields rerror f h = length-pstring f.ename h
length-put_fields rflush f h = refl
length-put_fields rauth f h = length-pqid f.aqid
length-put_fields rattach f h = length-pqid f.qid
length-put_fields rwalk f h =
    omega (arith, length-put_qids (take f.nwqid f.wqid), length-take f.nwqid f.wqid)
length-put_fields ropen f h =
    omega (arith, length-append (pqid f.qid) (pbit32 f.iounit), length-pqid f.qid)
length-put_fields rcreate f h =
    omega (arith, length-append (pqid f.qid) (pbit32 f.iounit), length-pqid f.qid)
length-put_fields rread f h = omega (arith, length-take f.count f.payload)
length-put_fields rwrite f h = refl
length-put_fields rclunk f h = refl
length-put_fields rremove f h = refl
length-put_fields rstat f h = omega (arith, length-take f.nstat f.stat)
length-put_fields rwstat f h = refl

-- A message that fits passes every guard and reads inside its arrays.
pub record Passes (t : MsgType) (f : Fcall) : Type 0 where
  pub names : names_in_range t f ≡ true
  pub few : too_many t f ≡ false
  pub reads : reads_in_range t f ≡ true

Fits-Passes : (t : MsgType) (f : Fcall) → FitsFields t f → Passes t f
unfolding names_in_range too_many reads_in_range
Fits-Passes twalk f h = ground arith
Fits-Passes _ f h = ground arith

-- The whole message in bytes.
abbrev pub message_size : MsgType → Fcall → ℕ
message_size t f = 4 + 1 + 2 + fields_size t f

abbrev pub message_bytes : MsgType → Fcall → List ℕ
message_bytes t f = pbit32 (message_size t f) ++ (pbit8 f.type ++ (pbit16 f.tag ++ put_fields t f))

pub length-message_bytes :
    (t : MsgType) (f : Fcall) → FitsFields t f → length (message_bytes t f) ≡ message_size t f
unfolding pbit8 pbit16 pbit32
length-message_bytes t f h = omega (arith, length-put_fields t f h)

pub size_s2m_lem : (t : MsgType) (f : Fcall) → Fits t f → size_s2m f ≡ ok (message_size t f)
unfolding size_s2m size_of
size_s2m_lem t f v = ground (arith, v.known, v.small, (Fits-Passes t f v.fields).names)

finish_lem :
    (nap size : ℕ) (out : List ℕ)
    → length out ≡ size
    → size ≤ nap
    → finish nap size out ≡ ok (size, out)
unfolding finish
finish_lem nap size out e h = ground arith

-- A message that fits is written into any buffer that has room for `sizeS2M` bytes, and refused by
-- any other; no access is out of range.
pub conv_s2m_lem :
    (t : MsgType) (f : Fcall) (nap : ℕ)
    → Fits t f
    → conv_s2m f nap
      ≡ (if ltb nap (message_size t f) then fail else ok (message_size t f, message_bytes t f))
unfolding conv_s2m put_message
conv_s2m_lem t f nap v =
    let p : Passes t f = Fits-Passes t f v.fields in
    ground (
      arith,
      size_s2m_lem t f v,
      v.known,
      p.few,
      p.reads,
      finish_lem nap (message_size t f) (message_bytes t f) (length-message_bytes t f v.fields),
    )
