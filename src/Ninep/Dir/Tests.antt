-- ===== src/Ninep/Dir/Tests.antt =====
-- Runs of the codec of directory entries, and its theorems at a concrete entry.
use drawterm.Prelude.{
  refl, ◌+◌, ◌-◌, ◌≡◌, refl, ◌↔◌, true, false, none, some, [], ◌∷◌, ◌++◌, length, arith,
  if◌then◌else◌, ltb,
}
use drawterm.Ninep.Wire.{pbit16}
use drawterm.Ninep.Dir.{
  Dir, size_d2m, put_strings, put_fixed, same_size, conv_d2m, conv_m2d, gbit16_at, statcheck,
}
use drawterm.Ninep.Wire.{gbit16}
use drawterm.Ninep.Dir.Encode.{dir_bytes, conv_d2m_lem}
use drawterm.Ninep.Dir.Decode.{FitsDir, restored, conv_m2d-conv_d2m}
use drawterm.Ninep.Dir.Check.{statcheck_iff}

abbrev entry : Dir
entry = record {
  type = b'M';
  dev = 0;
  qid = record { path = 5; vers = 2; type = 0 };
  mode = 0x1a4;
  atime = 1;
  mtime = 2;
  file_length = 3;
  name = some (b'a' ∷ []);
  uid = some (b'g' ∷ b'o' ∷ []);
  gid = none;
  muid = none;
}

entry-FitsDir : FitsDir entry
entry-FitsDir = record {
  type = omega arith;
  dev = omega arith;
  qid = (omega arith, omega arith, omega arith);
  mode = omega arith;
  atime = omega arith;
  mtime = omega arith;
  file_length = omega arith;
  name = (omega arith, (λ e. omega arith, tt));
  uid = (omega arith, (λ e. omega arith, (λ e. omega arith, tt)));
  gid = tt;
  muid = tt;
}

entry_sent : conv_d2m entry 52 ≡ some (52, dir_bytes entry)
unfolding conv_d2m size_d2m put_strings put_fixed same_size pbit16
entry_sent = refl

entry_no_room : conv_d2m entry 51 ≡ some (2, 50 ∷ 0 ∷ [])
unfolding conv_d2m size_d2m pbit16
entry_no_room = refl

conv_m2d-conv_d2m_example :
    conv_m2d (dir_bytes entry ++ (1 ∷ 2 ∷ [])) true ≡ some (52, restored true entry)
unfolding size_d2m
conv_m2d-conv_d2m_example =
    conv_m2d-conv_d2m true entry 52 52 (dir_bytes entry) (1 ∷ 2 ∷ []) entry-FitsDir (omega arith)
      entry_sent

conv_d2m_lem_example :
    (conv_d2m entry 60 ≡ (
      if ltb 60 2
      then none
      else if ltb 60 (size_d2m entry)
      then some (2, pbit16 (size_d2m entry - 2))
      else some (size_d2m entry, dir_bytes entry)))
    × (gbit16 (pbit16 (size_d2m entry - 2)) ≡ some (size_d2m entry - 2, []))
conv_d2m_lem_example = conv_d2m_lem entry 60 (unfold size_d2m in omega arith)

statcheck_iff_example :
    (statcheck (dir_bytes entry) ≡ true)
    ↔ (length (dir_bytes entry) ≡ 2 + gbit16_at (dir_bytes entry) 0)
      × ((d : Dir) × (conv_m2d (dir_bytes entry) false ≡ some (length (dir_bytes entry), d)))
statcheck_iff_example = statcheck_iff (dir_bytes entry) false
