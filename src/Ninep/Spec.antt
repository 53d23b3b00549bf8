-- ===== src/Ninep/Spec.antt =====
-- What a 9P message carries, type by type, apart from how it is laid out in bytes.
use drawterm.Prelude.{
  ◌+◌, ◌≤◌, ◌≡◌, ◌++◌, map, length, take, drop, All, some, IsByte, IsU16, IsU32, IsU64,
}
use drawterm.Ninep.Wire.RoundTrip.{FitsString, FitsQid, read_back}
use drawterm.Ninep.Encode.{fields_size}
use drawterm.Ninep.Fcall.{
  Fcall, MsgType, msg_type, max_welem, tversion, rversion, tauth, rauth, tattach, rattach, rerror,
  tflush, rflush, twalk, rwalk, topen, ropen, tcreate, rcreate, tread, rread, twrite, rwrite,
  tclunk, rclunk, tremove, rremove, tstat, rstat, twstat, rwstat,
}

-- The fields of `f` that its type sends, over those of `g`: the record that the receiver of `f`
-- should end with, if it had `g`.
unfoldable pub carried : MsgType → Fcall → Fcall → Fcall
carried tversion f g = record g { msize = f.msize; version = read_back f.version }
carried tflush f g = record g { oldtag = f.oldtag }
carried tauth f g = record g { afid = f.afid; uname = read_back f.uname; aname = read_back f.aname }
carried tattach f g = record g {
  fid = f.fid;
  afid = f.afid;
  uname = read_back f.uname;
  aname = read_back f.aname;
}
carried twalk f g = record g {
  fid = f.fid;
  newfid = f.newfid;
  nwname = f.nwname;
  wname = map read_back (take f.nwname f.wname) ++ drop f.nwname g.wname;
}
carried topen f g = record g { fid = f.fid; mode = f.mode }
carried tcreate f g = record g {
  fid = f.fid;
  name = read_back f.name;
  perm = f.perm;
  mode = f.mode;
}
carried tread f g = record g { fid = f.fid; offset = f.offset; count = f.count }
carried twrite f g = record g {
  fid = f.fid;
  offset = f.offset;
  count = f.count;
  payload = take f.count f.payload;
}
carried tclunk f g = record g { fid = f.fid }
carried tremove f g = record g { fid = f.fid }
carried tstat f g = record g { fid = f.fid }
carried twstat f g = record g { fid = f.fid; nstat = f.nstat; stat = take f.nstat f.stat }
carried rversion f g = record g { msize = f.msize; version = read_back f.version }
carried rerror f g = record g { ename = read_back f.ename }
carried rflush f g = g
carried rauth f g = record g { aqid = f.aqid }
carried rattach f g = record g { qid = f.qid }
carried rwalk f g = record g { nwqid = f.nwqid; wqid = take f.nwqid f.wqid ++ drop f.nwqid g.wqid }
carried ropen f g = record g { qid = f.qid; iounit = f.iounit }
carried rcreate f g = record g { qid = f.qid; iounit = f.iounit }
carried rread f g = record g { count = f.count; payload = take f.count f.payload }
carried rwrite f g = record g { count = f.count }
carried rclunk f g = g
carried rremove f g = g
carried rstat f g = record g { nstat = f.nstat; stat = take f.nstat f.stat }
carried rwstat f g = g

-- The fields that the type sends are within the ranges of their C types, its strings are C strings
-- of less than 2 ^ 16 bytes, and its counts stay inside its arrays.
abbrev pub FitsFields : MsgType → Fcall → Type 0
FitsFields tversion f = IsU32 f.msize × FitsString f.version
FitsFields tflush f = IsU16 f.oldtag
FitsFields tauth f = IsU32 f.afid × FitsString f.uname × FitsString f.aname
FitsFields tattach f = IsU32 f.fid × IsU32 f.afid × FitsString f.uname × FitsString f.aname
FitsFields twalk f =
    IsU32 f.fid
    × IsU32 f.newfid
    × (f.nwname ≤ max_welem)
    × (f.nwname ≤ length f.wname)
    × All FitsString (take f.nwname f.wname)
FitsFields topen f = IsU32 f.fid × IsByte f.mode
FitsFields tcreate f = IsU32 f.fid × FitsString f.name × IsU32 f.perm × IsByte f.mode
FitsFields tread f = IsU32 f.fid × IsU64 f.offset × IsU32 f.count
FitsFields twrite f = IsU32 f.fid × IsU64 f.offset × IsU32 f.count × (f.count ≤ length f.payload)
FitsFields tclunk f = IsU32 f.fid
FitsFields tremove f = IsU32 f.fid
FitsFields tstat f = IsU32 f.fid
FitsFields twstat f = IsU32 f.fid × IsU16 f.nstat × (f.nstat ≤ length f.stat)
FitsFields rversion f = IsU32 f.msize × FitsString f.version
FitsFields rerror f = FitsString f.ename
FitsFields rflush f = Unit {0}
FitsFields rauth f = FitsQid f.aqid
FitsFields rattach f = FitsQid f.qid
FitsFields rwalk f =
    (f.nwqid ≤ max_welem) × (f.nwqid ≤ length f.wqid) × All FitsQid (take f.nwqid f.wqid)
FitsFields ropen f = FitsQid f.qid × IsU32 f.iounit
FitsFields rcreate f = FitsQid f.qid × IsU32 f.iounit
FitsFields rread f = IsU32 f.count × (f.count ≤ length f.payload)
FitsFields rwrite f = IsU32 f.count
FitsFields rclunk f = Unit {0}
FitsFields rremove f = Unit {0}
FitsFields rstat f = IsU16 f.nstat × (f.nstat ≤ length f.stat)
FitsFields rwstat f = Unit {0}

-- A message of type `t` that can be sent: also, its size fits the 32 bits in front.
pub record Fits (t : MsgType) (f : Fcall) : Type 0 where
  pub known : msg_type f.type ≡ some t
  pub type_byte : IsByte f.type
  pub tag_word : IsU16 f.tag
  pub fields : FitsFields t f
  pub small : IsU32 (4 + 1 + 2 + fields_size t f)
