-- ===== src/Ninep/Tests.antt =====
-- Runs of the codec of messages, and its theorems at concrete messages.
use drawterm.Prelude.{
  zero, suc, refl, ℕ, zero, suc, ◌+◌, ◌-◌, ◌^◌, ◌≤◌, ◌≡◌, refl, ap, none, some, List, [], ◌∷◌, ◌++◌,
  length, arith, if◌then◌else◌, ltb,
}
use drawterm.Ninep.Wire.{
  CString, Qid, need, gbit16, gbytes, c_string, gstring, pstring, stringsz, pbit8, pbit16, pbit32,
}
use drawterm.Ninep.Fcall.{Fcall, MsgType, msg_type, twalk}
use drawterm.Ninep.Stream.{Bytes, read9pmsg}
use drawterm.Ninep.Stream.Delivery.{Delivers, Took, read9pmsg-conv_s2m}
use drawterm.Ninep.Encode.{
  ok, fail, fault, fields_size, names_size, names_in_range, size_of, size_s2m, put_names,
  put_fields, too_many, reads_in_range, finish, put_message, conv_s2m,
}
use drawterm.Ninep.Decode.{
  get_names, get_fields, at_most_max_welem, get_message, at_least_header, get_sized, check_end,
  conv_m2s,
}
use drawterm.Ninep.Spec.{carried, Fits}
use drawterm.Ninep.Size.{message_size, message_bytes, conv_s2m_lem}
use drawterm.Ninep.Message.{received, conv_m2s-conv_s2m, conv_m2s_frame, conv_m2s_truncated}
use drawterm.Ninep.Decoded.{conv_m2s-Fits}
use drawterm.Ninep.Limits.{conv_s2m_wrapped_size, long_ename_lost}

abbrev no_qid : Qid
no_qid = record { path = 0; vers = 0; type = 0 }

abbrev blank : Fcall
blank = record {
  type = 0;
  fid = 0;
  tag = 0;
  msize = 0;
  version = none;
  oldtag = 0;
  ename = none;
  qid = no_qid;
  iounit = 0;
  aqid = no_qid;
  afid = 0;
  uname = none;
  aname = none;
  perm = 0;
  name = none;
  mode = 0;
  newfid = 0;
  nwname = 0;
  wname = [];
  nwqid = 0;
  wqid = [];
  offset = 0;
  count = 0;
  payload = [];
  nstat = 0;
  stat = [];
}

-- Twalk tag 7 fid 1 newfid 2 "usr" nil
abbrev walk : Fcall
walk = record blank {
  type = 110;
  tag = 7;
  fid = 1;
  newfid = 2;
  nwname = 2;
  wname = some (b'u' ∷ b's' ∷ b'r' ∷ []) ∷ none ∷ [];
}

abbrev walk_bytes : List ℕ
walk_bytes =
    24 ∷ 0 ∷ 0 ∷ 0 ∷ 110 ∷ 7 ∷ 0 ∷ 1 ∷ 0 ∷ 0 ∷ 0 ∷ 2 ∷ 0 ∷ 0 ∷ 0 ∷ 2 ∷ 0 ∷ 3 ∷ 0 ∷ b'u' ∷ b's'
    ∷ b'r' ∷ 0 ∷ 0 ∷ []

encode_walk : conv_s2m walk 24 ≡ ok (24, walk_bytes)
unfolding conv_s2m size_s2m size_of msg_type names_in_range fields_size names_size stringsz
    put_message too_many reads_in_range finish put_fields put_names pstring pbit8 pbit16 pbit32
encode_walk = refl

walk_no_room : conv_s2m walk 23 ≡ fail
unfolding conv_s2m size_s2m size_of msg_type names_in_range fields_size names_size stringsz
walk_no_room = refl

decode_walk : conv_m2s walk_bytes blank ≡ some (24, received twalk walk blank)
unfolding conv_m2s check_end get_sized at_least_header get_message get_fields at_most_max_welem
    get_names gstring need gbit16 gbytes c_string msg_type carried
decode_walk = refl

walk-Fits : Fits twalk walk
unfolding msg_type fields_size names_size stringsz
walk-Fits = record {
  known = refl;
  type_byte = omega arith;
  tag_word = omega arith;
  fields = (
    omega arith,
    omega arith,
    omega arith,
    omega arith,
    ((omega arith, (λ e. omega arith, (λ e. omega arith, (λ e. omega arith, tt)))), (tt, tt)),
  );
  small = omega arith;
}

conv_s2m_lem_example : conv_s2m walk 24 ≡ (
    if ltb 24 (message_size twalk walk)
    then fail
    else ok (message_size twalk walk, message_bytes twalk walk))
conv_s2m_lem_example = conv_s2m_lem twalk walk 24 walk-Fits

conv_m2s-conv_s2m_example :
    conv_m2s (walk_bytes ++ (9 ∷ [])) blank ≡ some (24, received twalk walk blank)
conv_m2s-conv_s2m_example =
    conv_m2s-conv_s2m twalk walk blank 24 24 walk_bytes (9 ∷ []) walk-Fits encode_walk

conv_m2s_frame_example :
    (24 ≤ length walk_bytes)
    × (conv_m2s (walk_bytes ++ (1 ∷ [])) blank ≡ some (24, received twalk walk blank))
conv_m2s_frame_example = conv_m2s_frame walk_bytes (1 ∷ []) blank _ 24 decode_walk

abbrev walk_front : List ℕ
walk_front =
    24 ∷ 0 ∷ 0 ∷ 0 ∷ 110 ∷ 7 ∷ 0 ∷ 1 ∷ 0 ∷ 0 ∷ 0 ∷ 2 ∷ 0 ∷ 0 ∷ 0 ∷ 2 ∷ 0 ∷ 3 ∷ 0 ∷ b'u' ∷ []

conv_m2s_truncated_example : conv_m2s walk_front blank ≡ none
unfolding fields_size names_size stringsz put_fields put_names pstring pbit8 pbit16 pbit32
conv_m2s_truncated_example =
    conv_m2s_truncated twalk walk blank b's' walk_front (b'r' ∷ 0 ∷ 0 ∷ []) walk-Fits refl

conv_m2s-Fits_example :
    (t : MsgType) × Fits t (received twalk walk blank)
    × (message_size t (received twalk walk blank) ≤ 24)
    × (7 ≤ 24)
conv_m2s-Fits_example =
    conv_m2s-Fits walk_bytes blank (received twalk walk blank) 24 (omega arith) (omega arith)
      decode_walk

abbrev eight : List CString
eight = none ∷ none ∷ none ∷ none ∷ none ∷ none ∷ none ∷ none ∷ []

-- Shut, so that it is never written out.
replicate : ℕ → List ℕ
replicate zero = []
replicate (suc n) = 1 ∷ replicate n

length-replicate : (n : ℕ) → length (replicate n) ≡ n
unfolding replicate
length-replicate zero = refl
length-replicate (suc n) = ap suc (length-replicate n)

abbrev huge_write : Fcall
huge_write = record blank { type = 118; count = 2 ^ 32 - 1; payload = replicate (2 ^ 32 - 1) }

conv_s2m_wrapped_size_example : conv_s2m huge_write 8192 ≡ fault
unfolding msg_type
conv_s2m_wrapped_size_example =
    conv_s2m_wrapped_size huge_write 8192 refl (omega arith)
      (omega (arith, length-replicate (2 ^ 32 - 1))) (omega arith) (omega arith) (omega arith)

abbrev long_error : Fcall
long_error = record blank { type = 107; ename = some (replicate 65536) }

long_ename_lost_example :
    (out : List ℕ) × (conv_s2m long_error 70000 ≡ ok (9 + length (replicate 65536), out))
    × (conv_m2s out blank ≡ none)
long_ename_lost_example =
    long_ename_lost long_error blank (replicate 65536) 70000 refl (omega arith) refl
      (omega (arith, length-replicate 65536)) (omega (arith, length-replicate 65536))
      (omega (arith, length-replicate 65536))

-- A connection that delivers one byte at a time.
abbrev trickle : ℕ → List ℕ → Bytes × List ℕ
trickle zero s = (some [], s)
trickle (suc n) [] = (some [], [])
trickle (suc n) (x ∷ xs) = (some (x ∷ []), xs)

trickle-Delivers : Delivers trickle (λ s. s)
unfolding Delivers
trickle-Delivers n [] h ne = absurd (ne refl)
trickle-Delivers zero (x ∷ xs) h ne = absurd (omega arith)
trickle-Delivers (suc n) (x ∷ xs) h ne = record {
  first = x;
  others = [];
  after = xs;
  answer = refl;
  fits = omega arith;
  order = refl;
}

read9pmsg-conv_s2m_example :
    Took trickle
      (λ s. s)
      walk_bytes
      (9 ∷ 9 ∷ [])
      (read9pmsg trickle 8192 (walk_bytes ++ (9 ∷ 9 ∷ [])))
read9pmsg-conv_s2m_example =
    read9pmsg-conv_s2m trickle (λ s. s) trickle-Delivers twalk walk 24 8192 24 walk_bytes
      (9 ∷ 9 ∷ []) (walk_bytes ++ (9 ∷ 9 ∷ [])) walk-Fits encode_walk (omega arith) (omega arith)
      refl
