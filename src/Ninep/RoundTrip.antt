-- ===== src/Ninep/RoundTrip.antt =====
-- `convM2S` reads back what `convS2M` wrote.
use drawterm.Prelude.{
  ℕ, zero, suc, ◌≤◌, ◌≡◌, refl, some, List, [], ◌∷◌, ◌++◌, map, length, take, All, length-take,
  append_assoc, arith, le→ltb,
}
use drawterm.Ninep.Wire.{CString, Qid, pbit8, pbit32, pstring, pqid}
use drawterm.Ninep.Wire.RoundTrip.{
  FitsString, FitsQid, read_back, join16-digits, join32-digits, join64-digits, gbytes-append,
  gstring-pstring, gqid-pqid,
}
use drawterm.Ninep.Encode.{put_names, put_qids, put_fields}
use drawterm.Ninep.Decode.{get_names, get_qids, get_fields, at_most_max_welem}
use drawterm.Ninep.Spec.{carried, FitsFields}
use drawterm.Ninep.Fcall.{
  Fcall, MsgType, max_welem, tversion, rversion, tauth, rauth, tattach, rattach, rerror, tflush,
  rflush, twalk, rwalk, topen, ropen, tcreate, rcreate, tread, rread, twrite, rwrite, tclunk,
  rclunk, tremove, rremove, tstat, rstat, twstat, rwstat,
}

get_names-put_names :
    (n : ℕ) (ss : List CString) (rest : List ℕ)
    → n ≡ length ss
    → All FitsString ss
    → get_names n (put_names ss ++ rest) ≡ some (map read_back ss, rest)
unfolding get_names put_names
get_names-put_names zero [] rest e h = refl
get_names-put_names zero (s ∷ ss) rest e h = absurd (omega arith)
get_names-put_names (suc n) [] rest e h = absurd (omega arith)
get_names-put_names (suc n) (s ∷ ss) rest e h = ground (
  arith,
  append_assoc (pstring s) (put_names ss) rest,
  gstring-pstring s (put_names ss ++ rest) h.0,
  get_names-put_names n ss rest (omega arith) h.1,
)

length-take_of_le {ℓ} : {A : Type ℓ} (n : ℕ) (xs : List A) → n ≤ length xs → n ≡ length (take n xs)
length-take_of_le n xs h = omega (arith, length-take n xs)

get_qids-put_qids :
    (n : ℕ) (qs : List Qid) (rest : List ℕ)
    → n ≡ length qs
    → All FitsQid qs
    → get_qids n (put_qids qs ++ rest) ≡ some (qs, rest)
unfolding get_qids put_qids
get_qids-put_qids zero [] rest e h = refl
get_qids-put_qids zero (s ∷ ss) rest e h = absurd (omega arith)
get_qids-put_qids (suc n) [] rest e h = absurd (omega arith)
get_qids-put_qids (suc n) (s ∷ ss) rest e h = ground (
  arith,
  append_assoc (pqid s) (put_qids ss) rest,
  gqid-pqid s (put_qids ss ++ rest) h.0,
  get_qids-put_qids n ss rest (omega arith) h.1,
)

at_most_max_welem-le : (n : ℕ) (s : List ℕ) → n ≤ max_welem → at_most_max_welem n s ≡ some (tt, s)
unfolding at_most_max_welem
at_most_max_welem-le n s h = rw (le→ltb max_welem n h)

pub get_fields-put_fields :
    (t : MsgType) (f g : Fcall) (rest : List ℕ)
    → FitsFields t f
    → get_fields t g (put_fields t f ++ rest) ≡ some (carried t f g, rest)
unfolding get_fields put_fields carried
get_fields-put_fields tversion f g rest h =
    ground (arith, join32-digits f.msize h.0, gstring-pstring f.version rest h.1)
get_fields-put_fields tflush f g rest h = ground (arith, join16-digits f.oldtag h)
get_fields-put_fields tauth f g rest h = ground (
  arith,
  join32-digits f.afid h.0,
  append_assoc (pstring f.uname) (pstring f.aname) rest,
  gstring-pstring f.uname (pstring f.aname ++ rest) h.1,
  gstring-pstring f.aname rest h.2,
)
get_fields-put_fields tattach f g rest h = ground (
  arith,
  join32-digits f.fid h.0,
  join32-digits f.afid h.1,
  append_assoc (pstring f.uname) (pstring f.aname) rest,
  gstring-pstring f.uname (pstring f.aname ++ rest) h.2,
  gstring-pstring f.aname rest h.3,
)
get_fields-put_fields twalk f g rest h = ground (
  arith,
  join32-digits f.fid h.0,
  join32-digits f.newfid h.1,
  join16-digits f.nwname (omega arith),
  at_most_max_welem-le f.nwname (put_names (take f.nwname f.wname) ++ rest) h.2,
  get_names-put_names f.nwname (take f.nwname f.wname) rest (length-take_of_le f.nwname f.wname h.3)
      h.4,
)
get_fields-put_fields topen f g rest h = ground (arith, join32-digits f.fid h.0)
get_fields-put_fields tcreate f g rest h =
    let tail : List ℕ = pbit32 f.perm ++ pbit8 f.mode in
    ground (
      arith,
      join32-digits f.fid h.0,
      join32-digits f.perm h.2,
      append_assoc (pstring f.name) tail rest,
      gstring-pstring f.name (tail ++ rest) h.1,
    )
get_fields-put_fields tread f g rest h =
    ground (arith, join32-digits f.fid h.0, join64-digits f.offset h.1, join32-digits f.count h.2)
get_fields-put_fields twrite f g rest h = ground (
  arith,
  join32-digits f.fid h.0,
  join64-digits f.offset h.1,
  join32-digits f.count h.2,
  gbytes-append f.count (take f.count f.payload) rest (length-take_of_le f.count f.payload h.3),
)
get_fields-put_fields tclunk f g rest h = ground (arith, join32-digits f.fid h)
get_fields-put_fields tremove f g rest h = ground (arith, join32-digits f.fid h)
get_fields-put_fields tstat f g rest h = ground (arith, join32-digits f.fid h)
get_fields-put_fields twstat f g rest h = ground (
  arith,
  join32-digits f.fid h.0,
  join16-digits f.nstat h.1,
  gbytes-append f.nstat (take f.nstat f.stat) rest (length-take_of_le f.nstat f.stat h.2),
)
get_fields-put_fields rversion f g rest h =
    ground (arith, join32-digits f.msize h.0, gstring-pstring f.version rest h.1)
get_fields-put_fields rerror f g rest h = ground (arith, gstring-pstring f.ename rest h)
get_fields-put_fields rflush f g rest h = refl
get_fields-put_fields rauth f g rest h = ground (arith, gqid-pqid f.aqid rest h)
get_fields-put_fields rattach f g rest h = ground (arith, gqid-pqid f.qid rest h)
get_fields-put_fields rwalk f g rest h = ground (
  arith,
  join16-digits f.nwqid (omega arith),
  at_most_max_welem-le f.nwqid (put_qids (take f.nwqid f.wqid) ++ rest) h.0,
  get_qids-put_qids f.nwqid (take f.nwqid f.wqid) rest (length-take_of_le f.nwqid f.wqid h.1) h.2,
)
get_fields-put_fields ropen f g rest h = ground (
  arith,
  append_assoc (pqid f.qid) (pbit32 f.iounit) rest,
  gqid-pqid f.qid (pbit32 f.iounit ++ rest) h.0,
  join32-digits f.iounit h.1,
)
get_fields-put_fields rcreate f g rest h = ground (
  arith,
  append_assoc (pqid f.qid) (pbit32 f.iounit) rest,
  gqid-pqid f.qid (pbit32 f.iounit ++ rest) h.0,
  join32-digits f.iounit h.1,
)
get_fields-put_fields rread f g rest h = ground (
  arith,
  join32-digits f.count h.0,
  gbytes-append f.count (take f.count f.payload) rest (length-take_of_le f.count f.payload h.1),
)
get_fields-put_fields rwrite f g rest h = ground (arith, join32-digits f.count h)
get_fields-put_fields rclunk f g rest h = refl
get_fields-put_fields rremove f g rest h = refl
get_fields-put_fields rstat f g rest h = ground (
  arith,
  join16-digits f.nstat h.0,
  gbytes-append f.nstat (take f.nstat f.stat) rest (length-take_of_le f.nstat f.stat h.1),
)
get_fields-put_fields rwstat f g rest h = refl
