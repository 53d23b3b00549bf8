-- ===== src/Ninep/Dir/Decode.antt =====
-- `convM2D` reads back what `convD2M` wrote.
use drawterm.Prelude.{
  ℕ, ◌%◌, ◌≤◌, ◌≡◌, refl, Bool, none, some, List, [], ◌∷◌, ◌++◌, length, length-append, All, map,
  append_assoc, arith, IsU16, IsU32, IsU64,
}
use drawterm.Ninep.Wire.{CString, need, gbit16, pbit16, gbytes, c_string}
use drawterm.Ninep.Wire.RoundTrip.{
  FitsString, FitsQid, join16-digits, join32-digits, join64-digits, gbytes-append, c_string-eq_self,
}
use drawterm.Ninep.Dir.{
  Dir, chars, stored, size_d2m, put_fixed, get_string, get_fixed, get_strings, set_names, get_dir,
  taken, conv_d2m, conv_m2d,
}
use drawterm.Ninep.Dir.Encode.{
  string_bytes, strings_bytes, names, dir_bytes, length-dir_bytes, conv_d2m_cases,
}

-- An entry whose fields are in the range of the format.
pub record FitsDir (d : Dir) : Type 0 where
  pub type : IsU16 d.type
  pub dev : IsU32 d.dev
  pub qid : FitsQid d.qid
  pub mode : IsU32 d.mode
  pub atime : IsU32 d.atime
  pub mtime : IsU32 d.mtime
  pub file_length : IsU64 d.file_length
  pub name : FitsString d.name
  pub uid : FitsString d.uid
  pub gid : FitsString d.gid
  pub muid : FitsString d.muid

get_string-string_bytes :
    (s : CString) (rest : List ℕ)
    → FitsString s
    → get_string (string_bytes s ++ rest) ≡ some (chars s, rest)
unfolding get_string need gbit16 pbit16
get_string-string_bytes none rest h = unfold gbytes c_string in refl
get_string-string_bytes (some s) rest h = ground (
  arith,
  join16-digits (length s) h.0,
  gbytes-append (length s) s rest refl,
  c_string-eq_self s h.1,
)

get_string-strings_bytes :
    (s : CString) (ss : List CString) (rest : List ℕ)
    → FitsString s
    → get_string (strings_bytes (s ∷ ss) ++ rest) ≡ some (chars s, strings_bytes ss ++ rest)
get_string-strings_bytes s ss rest h =
    rw (append_assoc (string_bytes s) (strings_bytes ss) rest)
      (get_string-string_bytes s (strings_bytes ss ++ rest) h)

-- What a reader of an entry ends with: its strings, or empty ones if it asked for none.
abbrev pub restored : Bool → Dir → Dir
restored strs d = record d {
  name = stored strs (chars d.name);
  uid = stored strs (chars d.uid);
  gid = stored strs (chars d.gid);
  muid = stored strs (chars d.muid);
}

get_strings-strings_bytes :
    (ss : List CString) (rest : List ℕ)
    → All FitsString ss
    → get_strings (length ss) (strings_bytes ss ++ rest) ≡ some (map chars ss, rest)
unfolding get_strings
get_strings-strings_bytes [] rest h = refl
get_strings-strings_bytes (s ∷ ss) rest h =
    ground (arith, get_string-strings_bytes s ss rest h.0, get_strings-strings_bytes ss rest h.1)

abbrev unnamed : Dir → Dir
unnamed d = record d { name = none; uid = none; gid = none; muid = none }

get_fixed-put_fixed :
    (d : Dir) (ss : ℕ) (rest : List ℕ)
    → FitsDir d
    → get_fixed (put_fixed d ss ++ rest) ≡ some (unnamed d, rest)
unfolding get_fixed put_fixed
get_fixed-put_fixed d ss rest v =
    let type_byte : d.qid.type % 256 ≡ d.qid.type = omega arith in
    rw (
      type_byte,
      join16-digits d.type v.type,
      join32-digits d.dev v.dev,
      join32-digits d.qid.vers v.qid.1,
      join64-digits d.qid.path v.qid.2,
      join32-digits d.mode v.mode,
      join32-digits d.atime v.atime,
      join32-digits d.mtime v.mtime,
      join64-digits d.file_length v.file_length,
    )

get_dir-dir_bytes :
    (strs : Bool) (d : Dir) (rest : List ℕ)
    → FitsDir d
    → get_dir strs (dir_bytes d ++ rest) ≡ some (restored strs d, rest)
unfolding get_dir set_names
get_dir-dir_bytes strs d rest v = ground (
  arith,
  append_assoc (put_fixed d (size_d2m d)) (strings_bytes (names d)) rest,
  get_fixed-put_fixed d (size_d2m d) (strings_bytes (names d) ++ rest) v,
  get_strings-strings_bytes (names d) rest (v.name, (v.uid, (v.gid, (v.muid, tt)))),
)

-- Whatever `convD2M` returns for an entry that fits and a buffer that has room, `convM2D` reads
-- back from its bytes, also with others behind: the same size and the same fields, with nil strings
-- turned into empty ones, and all four empty where the caller gives no room for them.
pub conv_m2d-conv_d2m :
    (strs : Bool) (d : Dir) (nbuf n : ℕ) (out more : List ℕ)
    → FitsDir d
    → size_d2m d ≤ nbuf
    → conv_d2m d nbuf ≡ some (n, out)
    → conv_m2d (out ++ more) strs ≡ some (n, restored strs d)
unfolding conv_m2d taken size_d2m
conv_m2d-conv_d2m strs d nbuf n out more v room e = ground (
  arith,
  conv_d2m_cases d nbuf,
  get_dir-dir_bytes strs d more v,
  length-append (dir_bytes d) more,
  length-dir_bytes d,
)
