-- ===== src/Ninep/Encode.antt =====
-- libc/convS2M.c: `sizeS2M` and `convS2M`.
use drawterm.Prelude.{
  ℕ, ◌+◌, ◌*◌, Bool, true, false, Option, none, some, List, [], ◌∷◌, ◌++◌, length, take, ltb, leb,
  ◌==◌, if◌then◌else◌, u32,
}
use drawterm.Ninep.Wire.{CString, Qid, pbit8, pbit16, pbit32, pbit64, pstring, pqid, stringsz}
use drawterm.Ninep.Fcall.{
  Fcall, MsgType, msg_type, max_welem, tversion, rversion, tauth, rauth, tattach, rattach, rerror,
  tflush, rflush, twalk, rwalk, topen, ropen, tcreate, rcreate, tread, rread, twrite, rwrite,
  tclunk, rclunk, tremove, rremove, tstat, rstat, twstat, rwstat,
}

-- `fail` is the code's `return 0`; a `fault` is an access outside an array or a buffer.
pub data Outcome (A : Type 0) : Type 0 where
  ok : A → Outcome A
  fail : Outcome A
  fault : Outcome A

infixl 5 ◌>>=◌
abbrev pub ◌>>=◌ : {A B : Type 0} → Outcome A → (A → Outcome B) → Outcome B
ok a >>= f = f a
fail >>= f = fail
fault >>= f = fault

unfoldable pub names_size : List CString → ℕ
names_size [] = 0
names_size (s ∷ ss) = stringsz s + names_size ss

-- What the `switch` of `sizeS2M` adds for each type.
unfoldable pub fields_size : MsgType → Fcall → ℕ
fields_size tversion f = 4 + stringsz f.version
fields_size tflush f = 2
fields_size tauth f = 4 + stringsz f.uname + stringsz f.aname
fields_size tattach f = 4 + 4 + stringsz f.uname + stringsz f.aname
fields_size twalk f = 4 + 4 + 2 + names_size (take f.nwname f.wname)
fields_size topen f = 4 + 1
fields_size tcreate f = 4 + stringsz f.name + 4 + 1
fields_size tread f = 4 + 8 + 4
fields_size twrite f = 4 + 8 + 4 + f.count
fields_size tclunk f = 4
fields_size tremove f = 4
fields_size tstat f = 4
fields_size twstat f = 4 + 2 + f.nstat
fields_size rversion f = 4 + stringsz f.version
fields_size rerror f = stringsz f.ename
fields_size rflush f = 0
fields_size rauth f = 13
fields_size rattach f = 13
fields_size rwalk f = 2 + f.nwqid * 13
fields_size ropen f = 13 + 4
fields_size rcreate f = 13 + 4
fields_size rread f = 4 + f.count
fields_size rwrite f = 4
fields_size rclunk f = 0
fields_size rremove f = 0
fields_size rstat f = 2 + f.nstat
fields_size rwstat f = 0

-- The loop of `sizeS2M` over the names stays inside the array.
unfoldable pub names_in_range : MsgType → Fcall → Bool
names_in_range twalk f = leb f.nwname (length f.wname)
names_in_range _ f = true

-- Unsigned sums are taken modulo 2 ^ 32, once at the end.
unfoldable pub size_of : Option MsgType → Fcall → Outcome ℕ
size_of none f = ok 0
size_of (some t) f = if names_in_range t f then ok (u32 (4 + 1 + 2 + fields_size t f)) else fault

unfoldable pub size_s2m : Fcall → Outcome ℕ
size_s2m f = size_of (msg_type f.type) f

unfoldable pub put_names : List CString → List ℕ
unfolding pstring
put_names [] = []
put_names (s ∷ ss) = pstring s ++ put_names ss

unfoldable pub put_qids : List Qid → List ℕ
unfolding pqid
put_qids [] = []
put_qids (q ∷ qs) = pqid q ++ put_qids qs

-- What the `switch` of `convS2M` writes behind the tag.
unfoldable pub put_fields : MsgType → Fcall → List ℕ
unfolding pbit8 pbit16 pbit32 pbit64
put_fields tversion f = pbit32 f.msize ++ pstring f.version
put_fields tflush f = pbit16 f.oldtag
put_fields tauth f = pbit32 f.afid ++ (pstring f.uname ++ pstring f.aname)
put_fields tattach f = pbit32 f.fid ++ (pbit32 f.afid ++ (pstring f.uname ++ pstring f.aname))
put_fields twalk f =
    pbit32 f.fid ++ (pbit32 f.newfid ++ (pbit16 f.nwname ++ put_names (take f.nwname f.wname)))
put_fields topen f = pbit32 f.fid ++ pbit8 f.mode
put_fields tcreate f = pbit32 f.fid ++ (pstring f.name ++ (pbit32 f.perm ++ pbit8 f.mode))
put_fields tread f = pbit32 f.fid ++ (pbit64 f.offset ++ pbit32 f.count)
put_fields twrite f =
    pbit32 f.fid ++ (pbit64 f.offset ++ (pbit32 f.count ++ take f.count f.payload))
put_fields tclunk f = pbit32 f.fid
put_fields tremove f = pbit32 f.fid
put_fields tstat f = pbit32 f.fid
put_fields twstat f = pbit32 f.fid ++ (pbit16 f.nstat ++ take f.nstat f.stat)
put_fields rversion f = pbit32 f.msize ++ pstring f.version
put_fields rerror f = pstring f.ename
put_fields rflush f = []
put_fields rauth f = pqid f.aqid
put_fields rattach f = pqid f.qid
put_fields rwalk f = pbit16 f.nwqid ++ put_qids (take f.nwqid f.wqid)
put_fields ropen f = pqid f.qid ++ pbit32 f.iounit
put_fields rcreate f = pqid f.qid ++ pbit32 f.iounit
put_fields rread f = pbit32 f.count ++ take f.count f.payload
put_fields rwrite f = pbit32 f.count
put_fields rclunk f = []
put_fields rremove f = []
put_fields rstat f = pbit16 f.nstat ++ take f.nstat f.stat
put_fields rwstat f = []

-- `if(f->nwname > MAXWELEM) return 0;` and its twin for the qids.
unfoldable pub too_many : MsgType → Fcall → Bool
too_many twalk f = ltb max_welem f.nwname
too_many rwalk f = ltb max_welem f.nwqid
too_many _ f = false

-- The loops and the `memmove`s of `convS2M` read inside their arrays.
unfoldable pub reads_in_range : MsgType → Fcall → Bool
reads_in_range twalk f = leb f.nwname (length f.wname)
reads_in_range rwalk f = leb f.nwqid (length f.wqid)
reads_in_range twrite f = leb f.count (length f.payload)
reads_in_range rread f = leb f.count (length f.payload)
reads_in_range twstat f = leb f.nstat (length f.stat)
reads_in_range rstat f = leb f.nstat (length f.stat)
reads_in_range _ f = true

-- A fault, if the bytes written do not fit the `nap` bytes of the buffer; then the last test.
unfoldable pub finish : ℕ → ℕ → List ℕ → Outcome (ℕ × List ℕ)
finish nap size out =
    if ltb nap (length out) then fault else if size == length out then ok (size, out) else fail

unfoldable pub put_message : ℕ → ℕ → Option MsgType → Fcall → Outcome (ℕ × List ℕ)
unfolding pbit8 pbit16 pbit32
put_message nap size none f = fail
put_message nap size (some t) f =
    if too_many t f
    then fail
    else if reads_in_range t f
    then finish nap size (pbit32 size ++ (pbit8 f.type ++ (pbit16 f.tag ++ put_fields t f)))
    else fault

-- The size that is returned, and the bytes at `ap`.
unfoldable pub conv_s2m : Fcall → ℕ → Outcome (ℕ × List ℕ)
conv_s2m f nap = do
  size ← size_s2m f
  if size == 0
      then fail
      else if ltb nap size
      then fail
      else put_message nap size (msg_type f.type) f
