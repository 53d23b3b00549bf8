-- ===== src/Qio/Consume.antt =====
-- The operations that take bytes out of a queue and do not wait.
use drawterm.Prelude.{
  take-append_over, take-append_le, ℕ, ◌+◌, ◌-◌, ◌≤◌, ◌≡◌, inl, inr, refl, sym, ap, subst, ◌∙◌,
  true, ◌||◌, Option, none, some, List, [], ◌∷◌, ◌++◌, append_assoc, append-nil, length,
  length-append, length-drop, take, drop, take-append-drop, Bool-cases, leb, ◌==◌, min, u32, arith,
}
use drawterm.Qio.Blocks.{Block, blen, balloc}
use drawterm.Qio.{Queue, sub32, dequeue, qget, drop_empty, consume, qconsume}
use drawterm.Qio.Write.{discard, qdiscard, qflush, qclose}
use drawterm.Qio.Kept.{
  contents, total, Kept, Kept-refl, Kept-trans, Same, Same-Kept, consumer-Same, dequeue-Kept,
  qremove-none, qremove-some,
}

abbrev pub bytes_of : Option Block → List ℕ
bytes_of none = []
bytes_of (some b) = b.bytes

abbrev pub or_none : Option (List ℕ) → List ℕ
or_none none = []
or_none (some p) = p

pub flag_Same : (q : Queue) → Same q (record q { starve = true })
flag_Same q = record { blocks = refl; dlen = refl; rp = refl; wp = refl; msg = refl; bypass = refl }

pub qget-Kept : (q : Queue) → Kept q [] (bytes_of (qget q).0) (qget q).1
unfolding qget
qget-Kept q = go q.blocks refl
  where
    go : (bs : List Block) → q.blocks ≡ bs → Kept q [] (bytes_of (qget q).0) (qget q).1
    go [] e = rw (qget, qremove-none q e) (Same-Kept (Kept-refl q) (flag_Same q))
    go (b ∷ bs) e =
        rw (qget, qremove-some q b bs e)
          (Same-Kept (dequeue-Kept q b bs e) (consumer-Same (dequeue b bs q)))

-- The first `k` bytes of the first block go.
abbrev cut : ℕ → Block → Block
cut k b = record b { front = b.front + k; bytes = drop k b.bytes }

cut-Kept :
    (q : Queue) (b : Block) (bs : List Block) (k : ℕ)
    → q.blocks ≡ b ∷ bs
    → k ≤ blen b
    → Kept q [] (take k b.bytes) (record q { blocks = cut k b ∷ bs; dlen = sub32 q.dlen k })
cut-Kept q b bs k e h = record {
  msg = refl;
  bypass = refl;
  counts = λ c. record {
    in_bytes =
        let l : q.dlen ≡ u32 (length (b.bytes ++ contents bs)) = rw e at c.in_bytes in
        omega (
          arith,
          length-append b.bytes (contents bs),
          length-drop k b.bytes,
          length-append (drop k b.bytes) (contents bs),
        );
    in_room =
        let l : q.wp ≡ u32 (q.rp + (balloc b + total bs)) = rw e at c.in_room in
        omega (arith, length-drop k b.bytes);
  };
  stream = λ _. rw e (
      sym (append_assoc (take k b.bytes) (drop k b.bytes) (contents bs))
      ∙ ap (λ z. z ++ contents bs) (take-append-drop k b.bytes)
      ∙ sym (append-nil (b.bytes ++ contents bs)));
}

pub nil_of : (p : List ℕ) → length p ≡ 0 → p ≡ []
nil_of [] h = refl
nil_of (x ∷ p) h = absurd (omega arith)

-- In a message queue the bytes that a read leaves are lost.
pub Kept-of_msg : {q r : Queue} {p t u : List ℕ} → q.msg ≡ true → Kept q p t r → Kept q p u r
Kept-of_msg m k = record {
  msg = k.msg;
  bypass = k.bypass;
  counts = k.counts;
  stream = λ e. absurd (cc);
}

pub Kept-taken : {q r : Queue} {p t u : List ℕ} → t ≡ u → Kept q p t r → Kept q p u r
Kept-taken {q} {r} {p} e k = subst (λ z. Kept q p z r) e k

drop_one-Kept :
    (q : Queue) (b : Block) (bs : List Block)
    → q.blocks ≡ b ∷ bs
    → blen b ≡ 0
    → Kept q [] [] (record q { blocks = bs; rp = u32 (q.rp + balloc b) })
drop_one-Kept q b bs e z = record {
  msg = refl;
  bypass = refl;
  counts = λ c. record {
    in_bytes =
        let l : q.dlen ≡ u32 (length (b.bytes ++ contents bs)) = rw e at c.in_bytes in
        omega (arith, length-append b.bytes (contents bs));
    in_room = let l : q.wp ≡ u32 (q.rp + (balloc b + total bs)) = rw e at c.in_room in omega arith;
  };
  stream = λ _. rw (e, nil_of b.bytes z) (sym (append-nil (contents bs)));
}

drop_empty-Kept :
    (bs : List Block) (rp : ℕ) (q : Queue)
    → Kept
        (record q { blocks = bs; rp = rp })
        []
        []
        (record q { blocks = (drop_empty bs rp).0; rp = (drop_empty bs rp).1 })
unfolding drop_empty
drop_empty-Kept [] rp q = Kept-refl _
drop_empty-Kept (b ∷ bs) rp q = elim (Bool-cases (blen b == 0)) [
  | inr full ↦ rw full (Kept-refl _)
  | inl empty ↦ rw empty (
      Kept-trans
        (drop_one-Kept (record q { blocks = b ∷ bs; rp = rp }) b bs refl (ground (arith, empty)))
        (drop_empty-Kept bs (u32 (rp + balloc b)) q))
]

consume-Kept :
    (len : ℕ) (q : Queue) (bs : List Block) (rp : ℕ)
    → Kept
        (record q { blocks = bs; rp = rp })
        []
        (or_none (consume len q (bs, rp)).0)
        (consume len q (bs, rp)).1
unfolding consume
consume-Kept len q [] rp =
    Same-Kept (Same-Kept (Kept-refl _) (flag_Same (record q { blocks = []; rp = rp })))
      (consumer-Same _)
consume-Kept len q (b ∷ bs) rp =
    Same-Kept
      (elim (Bool-cases (q.msg || k == blen b)) [
        | inr part ↦ rw part first
        | inl done ↦ rw done (elim (Bool-cases q.msg) [
          | inl m ↦ Kept-of_msg m (Kept-trans first rest)
          | inr m ↦ Kept-taken (whole (ground (arith, done, m))) (Kept-trans first rest)
        ])
      ])
      (consumer-Same _)
  where
    k : ℕ
    k = min len (blen b)

    first :
        Kept
          (record q { blocks = b ∷ bs; rp = rp })
          []
          (take k b.bytes)
          (record q { blocks = cut k b ∷ bs; rp = rp; dlen = sub32 q.dlen k })
    first = cut-Kept (record q { blocks = b ∷ bs; rp = rp }) b bs k refl (omega arith)

    rest :
        Kept
          (record q { blocks = cut k b ∷ bs; rp = rp; dlen = sub32 q.dlen k })
          []
          (drop k b.bytes)
          (dequeue
            (cut k b)
            bs
            (record q { blocks = cut k b ∷ bs; rp = rp; dlen = sub32 q.dlen k }))
    rest = dequeue-Kept _ (cut k b) bs refl

    whole : k ≡ blen b → take k b.bytes ++ drop k b.bytes ≡ take k b.bytes
    whole h =
        rw (nil_of (drop k b.bytes) (omega (arith, length-drop k b.bytes)))
          (append-nil (take k b.bytes))

pub qconsume-Kept :
    (len : ℕ) (q : Queue) → Kept q [] (or_none (qconsume len q).0) (qconsume len q).1
unfolding qconsume
qconsume-Kept len q =
    Kept-trans (drop_empty-Kept q.blocks q.rp q)
      (consume-Kept len q (drop_empty q.blocks q.rp).0 (drop_empty q.blocks q.rp).1)

discard-Kept :
    (len : ℕ) (bs : List Block) (q : Queue)
    → Kept
        (record q { blocks = bs })
        []
        (take (discard len bs q).0 (contents bs))
        (discard len bs q).1
unfolding discard
discard-Kept len [] q = Kept-refl _
discard-Kept len (b ∷ bs) q = elim (Bool-cases (len == 0)) [
  | inl none_left ↦ rw none_left (Kept-refl _)
  | inr more ↦ elim (Bool-cases (leb (blen b) len)) [
    | inl all ↦
        rw (more, all)
          (Kept-taken (sym (take-append_over b.bytes (contents bs) _)) (
            Kept-trans (dequeue-Kept (record q { blocks = b ∷ bs }) b bs refl)
              (discard-Kept (len - blen b) bs (dequeue b bs q))))
    | inr part ↦
        rw (more, part)
          (Kept-taken (sym (take-append_le len b.bytes (contents bs) (ground (arith, part))))
            (cut-Kept (record q { blocks = b ∷ bs }) b bs len refl (ground (arith, part))))
  ]
]

pub qdiscard-Kept :
    (len : ℕ) (q : Queue)
    → Kept q [] (take (qdiscard len q).0 (contents q.blocks)) (qdiscard len q).1
unfolding qdiscard
qdiscard-Kept len q = Same-Kept (discard-Kept len q.blocks q) (consumer-Same _)

emptied-Kept :
    (q : Queue) → Kept q [] (contents q.blocks) (record q { blocks = []; rp = q.wp; dlen = 0 })
emptied-Kept q = record {
  msg = refl;
  bypass = refl;
  counts = λ c. record { in_bytes = refl; in_room = omega (arith, c.in_room) };
  stream = λ _. refl;
}

pub qflush-Kept : (q : Queue) → Kept q [] (contents q.blocks) (qflush q)
unfolding qflush
qflush-Kept q = Same-Kept (emptied-Kept q) (consumer-Same _)

pub qclose-Kept : (q : Queue) → Kept q [] (contents q.blocks) (qclose q)
unfolding qclose
qclose-Kept q =
    Same-Kept (emptied-Kept q)
      record { blocks = refl; dlen = refl; rp = refl; wp = refl; msg = refl; bypass = refl }
