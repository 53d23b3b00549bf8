-- ===== src/Ninep/Decode.antt =====
-- libc/convM2S.c: `convM2S`.
use drawterm.Prelude.{
  ℕ, zero, suc, ◌+◌, drop, Option, none, some, List, [], ◌∷◌, ◌++◌, length, ltb, ◌==◌,
  if◌then◌else◌,
}
use drawterm.Ninep.Wire.{
  CString, Qid, Reader, ◌>>=◌, ◌>>◌, done, need, gbit8, gbit16, gbit32, gbit64, gbytes, gstring,
  gqid,
}
use drawterm.Ninep.Fcall.{
  Fcall, MsgType, msg_type, max_welem, tversion, rversion, tauth, rauth, tattach, rattach, rerror,
  tflush, rflush, twalk, rwalk, topen, ropen, tcreate, rcreate, tread, rread, twrite, rwrite,
  tclunk, rclunk, tremove, rremove, tstat, rstat, twstat, rwstat,
}

unfoldable pub get_names : ℕ → Reader (List CString)
unfolding gstring
get_names zero = done []
get_names (suc n) = do name ← gstring; names ← get_names n; done (name ∷ names)

unfoldable pub get_qids : ℕ → Reader (List Qid)
unfolding gqid
get_qids zero = done []
get_qids (suc n) = do q ← gqid; qs ← get_qids n; done (q ∷ qs)

-- `if(n > MAXWELEM) return 0;`
unfoldable pub at_most_max_welem : ℕ → Reader (Unit {0})
at_most_max_welem n s = if ltb max_welem n then none else some (tt, s)

-- The `switch` of `convM2S`: the fields of each type, put over those that `*f` had. A loop over an
-- array overwrites its first elements.
unfoldable pub get_fields : MsgType → Fcall → Reader Fcall
unfolding need gbit8 gbit16 gbit32 gbit64
get_fields tversion f = do
  need 4
  msize ← gbit32
  version ← gstring
  done (record f { msize = msize; version = version })
get_fields tflush f = do need 2; oldtag ← gbit16; done (record f { oldtag = oldtag })
get_fields tauth f = do
  need 4
  afid ← gbit32
  uname ← gstring
  aname ← gstring
  done (record f { afid = afid; uname = uname; aname = aname })
get_fields tattach f = do
  need 4
  fid ← gbit32
  need 4
  afid ← gbit32
  uname ← gstring
  aname ← gstring
  done (record f { fid = fid; afid = afid; uname = uname; aname = aname })
get_fields twalk f = do
  need 10
  fid ← gbit32
  newfid ← gbit32
  n ← gbit16
  at_most_max_welem n
  names ← get_names n
  done (record f { fid = fid; newfid = newfid; nwname = n; wname = names ++ drop n f.wname })
get_fields topen f = do
  need 5
  fid ← gbit32
  mode ← gbit8
  done (record f { fid = fid; mode = mode })
get_fields tcreate f = do
  need 4
  fid ← gbit32
  name ← gstring
  need 5
  perm ← gbit32
  mode ← gbit8
  done (record f { fid = fid; name = name; perm = perm; mode = mode })
get_fields tread f = do
  need 16
  fid ← gbit32
  offset ← gbit64
  count ← gbit32
  done (record f { fid = fid; offset = offset; count = count })
get_fields twrite f = do
  need 16
  fid ← gbit32
  offset ← gbit64
  count ← gbit32
  payload ← gbytes count
  done (record f { fid = fid; offset = offset; count = count; payload = payload })
get_fields tclunk f = do need 4; fid ← gbit32; done (record f { fid = fid })
get_fields tremove f = do need 4; fid ← gbit32; done (record f { fid = fid })
get_fields tstat f = do need 4; fid ← gbit32; done (record f { fid = fid })
get_fields twstat f = do
  need 6
  fid ← gbit32
  nstat ← gbit16
  stat ← gbytes nstat
  done (record f { fid = fid; nstat = nstat; stat = stat })
get_fields rversion f = do
  need 4
  msize ← gbit32
  version ← gstring
  done (record f { msize = msize; version = version })
get_fields rerror f = do ename ← gstring; done (record f { ename = ename })
get_fields rflush f = done f
get_fields rauth f = do aqid ← gqid; done (record f { aqid = aqid })
get_fields rattach f = do qid ← gqid; done (record f { qid = qid })
get_fields rwalk f = do
  need 2
  n ← gbit16
  at_most_max_welem n
  qids ← get_qids n
  done (record f { nwqid = n; wqid = qids ++ drop n f.wqid })
get_fields ropen f = do
  qid ← gqid
  need 4
  iounit ← gbit32
  done (record f { qid = qid; iounit = iounit })
get_fields rcreate f = do
  qid ← gqid
  need 4
  iounit ← gbit32
  done (record f { qid = qid; iounit = iounit })
get_fields rread f = do
  need 4
  count ← gbit32
  payload ← gbytes count
  done (record f { count = count; payload = payload })
get_fields rwrite f = do need 4; count ← gbit32; done (record f { count = count })
get_fields rclunk f = done f
get_fields rremove f = done f
get_fields rstat f = do
  need 2
  nstat ← gbit16
  stat ← gbytes nstat
  done (record f { nstat = nstat; stat = stat })
get_fields rwstat f = done f

unfoldable pub get_message : Option MsgType → Fcall → Reader Fcall
get_message none f s = none
get_message (some t) f s = get_fields t f s

-- `if(size < 7) return 0;`
unfoldable pub at_least_header : ℕ → Reader (Unit {0})
at_least_header size s = if ltb size 7 then none else some (tt, s)

unfoldable pub get_sized : Fcall → Reader (ℕ × Fcall)
unfolding need gbit8 gbit16 gbit32
get_sized f = do
  need 7
  size ← gbit32
  at_least_header size
  type ← gbit8
  tag ← gbit16
  f' ← get_message (msg_type type) (record f { type = type; tag = tag })
  done (size, f')

-- The last test, `ap+size == p`: `s` is what lies from `p` up to `ep`.
unfoldable pub check_end : List ℕ → Option ((ℕ × Fcall) × List ℕ) → Option (ℕ × Fcall)
check_end ap none = none
check_end ap (some ((size, f), s)) = if size + length s == length ap then some (size, f) else none

-- `none` is the code's `return 0`; else the size that it returns, and `*f`.
unfoldable pub conv_m2s : List ℕ → Fcall → Option (ℕ × Fcall)
conv_m2s ap f = check_end ap (get_sized f ap)
