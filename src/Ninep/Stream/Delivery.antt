-- ===== src/Ninep/Stream/Delivery.antt =====
-- However the bytes come in pieces, `readn` and `read9pmsg` take what they ask for.
use drawterm.Prelude.{
  ℕ, zero, suc, ◌+◌, ◌-◌, ◌^◌, ◌≤◌, ◌<◌, ◌≡◌, ◌≢◌, refl, sym, ap, subst, ◌∙◌, true, false, some,
  List, [], ◌∷◌, ◌++◌, append_assoc, append-nil, length, length-append, drop, length-drop, ◌==◌,
  arith, IsU32,
}
use drawterm.Ninep.Wire.{gbit32, pbit32}
use drawterm.Ninep.Wire.{pbit8, pbit16}
use drawterm.Ninep.Wire.RoundTrip.{join32-digits}
use drawterm.Ninep.Fcall.{Fcall, MsgType}
use drawterm.Ninep.Encode.{ok, put_fields, conv_s2m}
use drawterm.Ninep.Spec.{Fits}
use drawterm.Ninep.Size.{message_size, message_bytes, length-message_bytes, conv_s2m_lem}
use drawterm.Ninep.Stream.{Bytes, head_size, bad_length, readn_loop, readn, read_body, read9pmsg}

size_read : (n : ℕ) → IsU32 n → head_size (pbit32 n) ≡ n
unfolding head_size pbit32 gbit32
size_read n h = join32-digits n h

module _ {S : Type 0} (read : ℕ → S → Bytes × S) (left : S → List ℕ) where
  -- What a read did, of at most `n` bytes: it took some of the bytes that are to come, in order.
  pub record Piece (n : ℕ) (s : S) : Type 0 where
    pub first : ℕ
    pub others : List ℕ
    pub after : S
    pub answer : read n s ≡ (some (first ∷ others), after)
    pub fits : length (first ∷ others) ≤ n
    pub order : left s ≡ (first ∷ others) ++ left after

  -- The file delivers its bytes in order: a read of one byte or more, while there are bytes to come,
  -- takes one at least.
  unfoldable pub Delivers : Type 0
  Delivers = (n : ℕ) (s : S) → 0 < n → left s ≢ [] → Piece n s

  -- What `readn` leaves, if it read the bytes `ys`.
  pub record Took (ys : List ℕ) (more : List ℕ) (r : Bytes × S) : Type 0 where
    pub bytes : r.0 ≡ some ys
    pub rest : left r.1 ≡ more

  split_piece :
      (xs bs rest more : List ℕ)
      → length bs ≤ length xs
      → xs ++ more ≡ bs ++ rest
      → (xs ≡ bs ++ drop (length bs) xs) × (rest ≡ drop (length bs) xs ++ more)
  split_piece xs [] rest more h e = (refl, sym e)
  split_piece [] (b ∷ bs) rest more h e = absurd (omega arith)
  split_piece (x ∷ xs) (b ∷ bs) rest more h e =
      let heads : x ≡ b = ground (arith, e) in
      let tails : xs ++ more ≡ bs ++ rest = ground (arith, e) in
      let (p, q) = split_piece xs bs rest more (omega arith) tails in (ground (arith, heads, p), q)

  readn_step :
      (fuel n : ℕ) (t : List ℕ) (s : S) (b : ℕ) (bs : List ℕ) (s' : S)
      → read (suc n) s ≡ (some (b ∷ bs), s')
      → readn_loop read (suc fuel) (suc n) t s
        ≡ readn_loop read fuel (suc n - length (b ∷ bs)) (t ++ (b ∷ bs)) s'
  unfolding readn_loop
  readn_step fuel n t s b bs s' e =
      let answer : (read (suc n) s).0 ≡ some (b ∷ bs) = ap (λ r. r.0) e in
      let after : (read (suc n) s).1 ≡ s' = ap (λ r. r.1) e in rw (answer, after, readn_loop) refl

  readn_loop_lem :
      Delivers
      → (fuel n : ℕ) (t xs more : List ℕ) (s : S) → n ≤ fuel
      → length xs ≡ n
      → left s ≡ xs ++ more
      → Took (t ++ xs) more (readn_loop read fuel n t s)
  unfolding Delivers readn_loop
  readn_loop_lem d zero n t [] more s le len e = record {
    bytes = ap some (sym (append-nil t));
    rest = e;
  }
  readn_loop_lem d zero n t (x ∷ xs) more s le len e = absurd (omega arith)
  readn_loop_lem d (suc fuel) zero t [] more s le len e = record {
    bytes = ap some (sym (append-nil t));
    rest = e;
  }
  readn_loop_lem d (suc fuel) zero t (x ∷ xs) more s le len e = absurd (omega arith)
  readn_loop_lem d (suc fuel) (suc n) t xs more s le len e =
      let p =
        d (suc n) s (omega arith)
          (λ z. absurd (omega (arith, ap length (sym e ∙ z), length-append xs more))) in
      let bs = p.first ∷ p.others in
      let (front, back) =
        split_piece xs bs (left p.after) more (omega (arith, p.fits)) (sym e ∙ p.order) in
      let ih =
        readn_loop_lem d fuel (suc n - length bs) (t ++ bs) (drop (length bs) xs) more p.after
          (omega arith) (omega (arith, length-drop (length bs) xs)) back in
      let whole : (t ++ bs) ++ drop (length bs) xs ≡ t ++ xs =
        append_assoc t bs (drop (length bs) xs) ∙ ap (λ z. t ++ z) (sym front) in
      rw (readn_step fuel n t s p.first p.others p.after p.answer)
        (record { bytes = ih.bytes ∙ ap some whole; rest = ih.rest })

  readn_lem :
      Delivers
      → (xs more : List ℕ) (s : S) → left s ≡ xs ++ more
      → Took xs more (readn read (length xs) s)
  unfolding readn
  readn_lem d xs more s e =
      readn_loop_lem d (length xs) (length xs) [] xs more s (omega arith) refl e

  read_body_lem :
      Delivers
      → (head body more : List ℕ) (s : S) → head_size head ≡ 4 + length body
      → left s ≡ body ++ more
      → Took (head ++ body) more (read_body read head s)
  unfolding read_body
  read_body_lem d head body more s size e =
      let k : head_size head - 4 ≡ length body = omega (arith, size) in
      let took : Took body more (readn read (head_size head - 4) s) =
        rw k (readn_lem d body more s e) in
      rw (took.bytes, read_body) (record { bytes = ground (arith, k); rest = took.rest })

  -- `read9pmsg` takes a message of an acceptable size that is to come, whatever its pieces.
  pub read9pmsg_whole :
      Delivers
      → (n : ℕ) (head body more : List ℕ) (s : S) → length head ≡ 4
      → head_size head ≡ 4 + length body
      → bad_length n (4 + length body) ≡ false
      → left s ≡ head ++ (body ++ more)
      → Took (head ++ body) more (read9pmsg read n s)
  unfolding read9pmsg
  read9pmsg_whole d n head body more s four size good e =
      let took : Took head (body ++ more) (readn read 4 s) =
        subst (λ k. Took head (body ++ more) (readn read k s)) four
          (readn_lem d head (body ++ more) s e) in
      let fits : (length head == 4) ≡ true = ground (arith, four) in
      let fine : bad_length n (head_size head) ≡ false = rw size good in
      rw (took.bytes, fits, fine, read9pmsg) (read_body_lem d head body more _ size took.rest)

-- If a connection delivers its bytes in order, a read at least one byte of those to come, and they
-- start with what `convS2M` wrote for a message that fits, of a size below 2 ^ 31, then `read9pmsg`,
-- with a buffer of that size or more, takes this message and leaves what comes behind it, whatever the pieces.
pub read9pmsg-conv_s2m :
    {S : Type 0} (read : ℕ → S → Bytes × S) (left : S → List ℕ)
    → Delivers read left
    → (t : MsgType) (f : Fcall) (nap n size : ℕ) (out more : List ℕ) (s : S) → Fits t f
    → conv_s2m f nap ≡ ok (size, out)
    → size ≤ n
    → size < 2 ^ 31
    → left s ≡ out ++ more
    → Took read left out more (read9pmsg read n s)
read9pmsg-conv_s2m read left d t f nap n size out more s v e room small order =
    let written : (size ≡ message_size t f) × (out ≡ message_bytes t f) =
      ground (arith, e, conv_s2m_lem t f nap v) in
    let body = pbit8 f.type ++ (pbit16 f.tag ++ put_fields t f) in
    let long : 4 + length body ≡ message_size t f =
      unfold pbit32 in omega (arith, length-message_bytes t f v.fields) in
    rw written.1 (
      read9pmsg_whole read left d n (pbit32 (message_size t f)) body more s (unfold pbit32 in refl)
        (size_read (message_size t f) v.small ∙ sym long)
        (unfold bad_length in ground (arith, long, written.0, room, small))
        (order
          ∙ ap (λ z. z ++ more) written.1
          ∙ append_assoc (pbit32 (message_size t f)) body more))
