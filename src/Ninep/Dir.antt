-- ===== src/Ninep/Dir.antt =====
-- libc/convD2M.c and libc/convM2D.c: directory entries and their bytes.
pub mod Encode
pub mod Decode
pub mod Check
mod Tests
use drawterm.Prelude.{
  ℕ, zero, suc, ◌+◌, ◌-◌, ◌%◌, ◌^◌, Bool, true, false, Option, none, some, List, [], ◌∷◌, ◌++◌,
  length, drop, ltb, ◌==◌, ◌||◌, not, if◌then◌else◌,
}
use drawterm.Ninep.Wire.{
  CString, Qid, Reader, ◌>>=◌, ◌>>◌, done, need, gbit8, gbit16, gbit32, gbit64, gbytes, c_string,
  pbit8, pbit16, pbit32, pbit64,
}

-- `file_length` is the source's `length`, as a 64-bit pattern.
pub record Dir : Type 0 where
  pub type : ℕ
  pub dev : ℕ
  pub qid : Qid
  pub mode : ℕ
  pub atime : ℕ
  pub mtime : ℕ
  pub file_length : ℕ
  pub name : CString
  pub uid : CString
  pub gid : CString
  pub muid : CString

-- STATFIXLEN
abbrev pub stat_fix_len : ℕ
stat_fix_len = 49

-- `if(sv[i]) strlen(sv[i])`, else 0. Lengths are `int`s: they are taken to stay below 2 ^ 31.
abbrev pub strlen : CString → ℕ
strlen none = 0
strlen (some s) = length s

-- The bytes that `memmove` copies.
abbrev pub chars : CString → List ℕ
chars none = []
chars (some s) = s

unfoldable pub size_d2m : Dir → ℕ
size_d2m d = stat_fix_len + (strlen d.name + strlen d.uid + strlen d.gid + strlen d.muid)

-- The loop over `sv`: `out` is what lies between `buf` and `p`, and `none` is `return 0`.
unfoldable pub put_strings : ℕ → List ℕ → List CString → Option (List ℕ)
put_strings nbuf out [] = some out
put_strings nbuf out (s ∷ ss) =
    let rest = put_strings nbuf (out ++ (pbit16 (strlen s) ++ chars s)) ss in
    if ltb nbuf (length out + strlen s + 2) then none else rest

unfoldable pub put_fixed : Dir → ℕ → List ℕ
unfolding pbit8 pbit16 pbit32 pbit64
put_fixed d ss =
    pbit16 (ss - 2)
    ++ (pbit16 d.type
        ++ (pbit32 d.dev
            ++ (pbit8 d.qid.type
                ++ (pbit32 d.qid.vers
                    ++ (pbit64 d.qid.path
                        ++ (pbit32 d.mode
                            ++ (pbit32 d.atime ++ (pbit32 d.mtime ++ pbit64 d.file_length))))))))

-- `if(ss != p - buf) return 0;`
unfoldable pub same_size : ℕ → Option (List ℕ) → Option (ℕ × List ℕ)
same_size ss none = none
same_size ss (some out) = if ss == length out then some (length out, out) else none

-- The number that is returned, and the bytes at `buf`; `none` is `return 0`.
unfoldable pub conv_d2m : Dir → ℕ → Option (ℕ × List ℕ)
conv_d2m d nbuf =
    let ss = size_d2m d in
    if ltb nbuf 2
    then none
    else if ltb nbuf ss
    then some (2, pbit16 (ss - 2))
    else same_size ss (put_strings nbuf (put_fixed d ss) (d.name ∷ d.uid ∷ d.gid ∷ d.muid ∷ []))

-- One round of the loop of `convM2D`: the string that is stored at `strs`.
unfoldable pub get_string : Reader (List ℕ)
get_string = do need 2; ns ← gbit16; bytes ← gbytes ns; done (c_string bytes)

-- `nullstring`, if the caller gives no room for the strings.
abbrev pub stored : Bool → List ℕ → CString
stored strs s = if strs then some s else some []

-- The fixed fields, behind the test of `nbuf`; `d` is overwritten whole.
unfoldable pub get_fixed : Reader Dir
unfolding gbit8 gbit16 gbit32 gbit64
get_fixed = do
  size ← gbit16
  type ← gbit16
  dev ← gbit32
  qtype ← gbit8
  vers ← gbit32
  path ← gbit64
  mode ← gbit32
  atime ← gbit32
  mtime ← gbit32
  file_length ← gbit64
  done (record {
    type = type;
    dev = dev;
    qid = record { path = path; vers = vers; type = qtype };
    mode = mode;
    atime = atime;
    mtime = mtime;
    file_length = file_length;
    name = none;
    uid = none;
    gid = none;
    muid = none;
  })

-- The loop, for `n` strings.
unfoldable pub get_strings : ℕ → Reader (List (List ℕ))
get_strings zero = done []
get_strings (suc n) = do s ← get_string; ss ← get_strings n; done (s ∷ ss)

-- `sv[0]` to `sv[3]`; the loop delivers no other number of strings.
unfoldable pub set_names : Bool → List (List ℕ) → Dir → Dir
set_names strs (n ∷ u ∷ g ∷ m ∷ []) d = record d {
  name = stored strs n;
  uid = stored strs u;
  gid = stored strs g;
  muid = stored strs m;
}
set_names strs _ d = d

unfoldable pub get_dir : Bool → Reader Dir
get_dir strs = do d ← get_fixed; ss ← get_strings 4; done (set_names strs ss d)

-- `return p - buf;`
unfoldable pub taken : List ℕ → Option (Dir × List ℕ) → Option (ℕ × Dir)
taken buf none = none
taken buf (some (d, s)) = some (length buf - length s, d)

-- `strs` says whether the caller gave room for the strings; `none` is `return 0`.
unfoldable pub conv_m2d : List ℕ → Bool → Option (ℕ × Dir)
conv_m2d buf strs = if ltb (length buf) stat_fix_len then none else taken buf (get_dir strs buf)

-- GBIT16 at an offset that has been tested; the 0 is never read.
unfoldable pub gbit16_at : List ℕ → ℕ → ℕ
unfolding gbit16
gbit16_at buf pos = elim (gbit16 (drop pos buf)) [ none ↦ 0 | some (n, s) ↦ n ]

-- The loop of `statcheck`, for `n` more rounds, and its last test; `pos` may leave the buffer.
unfoldable pub check_strings : ℕ → ℕ → List ℕ → Bool
check_strings zero pos buf = pos == length buf
check_strings (suc n) pos buf =
    let rest = check_strings n (pos + (2 + gbit16_at buf pos)) buf in
    if ltb (length buf) (pos + 2) then false else rest

-- `true` is the code's 0, `false` its -1.
unfoldable pub statcheck : List ℕ → Bool
statcheck buf =
    if ltb (length buf) stat_fix_len || not (length buf == 2 + gbit16_at buf 0)
    then false
    else check_strings 4 41 buf
