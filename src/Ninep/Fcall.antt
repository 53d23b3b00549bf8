-- ===== src/Ninep/Fcall.antt =====
-- include/fcall.h: the record of a message and the types of messages.
use drawterm.Prelude.{ℕ, Option, none, some, List, ◌==◌, if◌then◌else◌}
use drawterm.Ninep.Wire.{CString, Qid}

pub data MsgType : Type 0 where
  tversion rversion tauth rauth tattach rattach rerror : MsgType
  tflush rflush twalk rwalk topen ropen tcreate rcreate : MsgType
  tread rread twrite rwrite tclunk rclunk tremove rremove : MsgType
  tstat rstat twstat rwstat : MsgType

-- What a `switch` on the type byte selects; `none` is its default, which takes Terror in.
unfoldable pub msg_type : ℕ → Option MsgType
msg_type c =
    if c == 100
    then some tversion
    else if c == 101
    then some rversion
    else if c == 102
    then some tauth
    else if c == 103
    then some rauth
    else if c == 104
    then some tattach
    else if c == 105
    then some rattach
    else if c == 107
    then some rerror
    else if c == 108
    then some tflush
    else if c == 109
    then some rflush
    else if c == 110
    then some twalk
    else if c == 111
    then some rwalk
    else if c == 112
    then some topen
    else if c == 113
    then some ropen
    else if c == 114
    then some tcreate
    else if c == 115
    then some rcreate
    else if c == 116
    then some tread
    else if c == 117
    then some rread
    else if c == 118
    then some twrite
    else if c == 119
    then some rwrite
    else if c == 120
    then some tclunk
    else if c == 121
    then some rclunk
    else if c == 122
    then some tremove
    else if c == 123
    then some rremove
    else if c == 124
    then some tstat
    else if c == 125
    then some rstat
    else if c == 126
    then some twstat
    else if c == 127
    then some rwstat
    else none

abbrev pub max_welem : ℕ
max_welem = 16

-- `payload` is the source's `data`, and `payload` and `stat` hold the bytes that can be read at
-- that pointer. `wname` and `wqid` are arrays of `max_welem` elements.
pub record Fcall : Type 0 where
  pub type : ℕ
  pub fid : ℕ
  pub tag : ℕ
  pub msize : ℕ
  pub version : CString
  pub oldtag : ℕ
  pub ename : CString
  pub qid : Qid
  pub iounit : ℕ
  pub aqid : Qid
  pub afid : ℕ
  pub uname : CString
  pub aname : CString
  pub perm : ℕ
  pub name : CString
  pub mode : ℕ
  pub newfid : ℕ
  pub nwname : ℕ
  pub wname : List CString
  pub nwqid : ℕ
  pub wqid : List Qid
  pub offset : ℕ
  pub count : ℕ
  pub payload : List ℕ
  pub nstat : ℕ
  pub stat : List ℕ
