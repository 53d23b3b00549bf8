-- ===== src/Qio/Reading.antt =====
-- The reads of a process take the bytes out in order.
use drawterm.Prelude.{
  ℕ, ◌+◌, ◌-◌, ◌<◌, ◌≤◌, ◌≡◌, inl, inr, refl, sym, ◌∙◌, true, false, ◌||◌, Option, none, some, List,
  [], ◌∷◌, length, take-eq_self, Bool-cases, leb, ◌==◌, if◌then◌else◌, arith,
}
use drawterm.Qio.Blocks.{Block, blen, readblist}
use drawterm.Qio.{Err, Queue, dequeue, qputback}
use drawterm.Qio.Read.{
  Waited, ready, at_eof, failed, sleeps, is_other, qwait, waited, Result, got, eof, error, blocked,
  qbread, skip_empty, split_last, put_split, put_rest, read_blocks, finish_read, qcanread,
  read_from, qread,
}
use drawterm.Qio.Kept.{
  contents, Kept, Kept-refl, Kept-trans, Same, Same-Kept, reader-Same, dequeue-Kept, putback-Kept,
  qremove-none, qremove-some,
}
use drawterm.Qio.Consume.{Kept-of_msg, Kept-taken, nil_of}
use drawterm.Qio.Gather.{cut_block-Kept, last_len, read_blocks-Kept, split_last_lem, readblist-take}

abbrev pub block_of : Result Block → List ℕ
block_of (got b) = b.bytes
block_of eof = []
block_of (error e) = []
block_of blocked = []

abbrev pub data_of : Result (List ℕ) → List ℕ
data_of (got p) = p
data_of eof = []
data_of (error e) = []
data_of blocked = []

starve_Same : (q : Queue) → Same q (record q { starve = true; closed = false })
starve_Same q = record {
  blocks = refl;
  dlen = refl;
  rp = refl;
  wp = refl;
  msg = refl;
  bypass = refl;
}

eof_Same : (q : Queue) → Same q (record q { closed = true; eof = q.eof + 1 })
eof_Same q = record { blocks = refl; dlen = refl; rp = refl; wp = refl; msg = refl; bypass = refl }

Same-refl : (q : Queue) → Same q q
Same-refl q = record { blocks = refl; dlen = refl; rp = refl; wp = refl; msg = refl; bypass = refl }

qwait-Same : (q : Queue) → Same q (qwait q).1
unfolding qwait
qwait-Same q = go q.blocks
  where
    go :
        (bs : List Block)
        → Same q
            (elim bs as (λ _. Waited × Queue) [
              | b ∷ cs ↦ (ready, q)
              | [] ↦
                  if q.closed
                  then (if leb 3 q.eof || is_other q.err
                      then (failed, q)
                      else (at_eof, record q { eof = q.eof + 1 }))
                  else (sleeps, record q { starve = true })
            ]).1
    go (b ∷ cs) = Same-refl q
    go [] = elim (Bool-cases q.closed) [
      | inr c ↦ simp c (starve_Same q)
      | inl c ↦ elim (Bool-cases (leb 3 q.eof || is_other q.err)) [
        | inl n ↦ simp (c, n) (Same-refl q)
        | inr n ↦ simp (c, n) (eof_Same q)
      ]
    ]

block_of-waited : (e : Err) (w : Waited) → block_of (waited e w) ≡ []
unfolding waited
block_of-waited e ready = refl
block_of-waited e at_eof = refl
block_of-waited e failed = refl
block_of-waited e sleeps = refl

data_of-waited : (e : Err) (w : Waited) → data_of (waited e w) ≡ []
unfolding waited
data_of-waited e ready = refl
data_of-waited e at_eof = refl
data_of-waited e failed = refl
data_of-waited e sleeps = refl

pub qbread-Kept :
    (room len : ℕ) (q : Queue) → Kept q [] (block_of (qbread room len q).0) (qbread room len q).1
unfolding qbread
qbread-Kept room len q = go q.blocks refl
  where
    go :
        (bs : List Block)
        → q.blocks ≡ bs
        → Kept q [] (block_of (qbread room len q).0) (qbread room len q).1
    go [] e =
        rw (qbread, qremove-none q e)
          (Kept-taken (sym (block_of-waited q.err (qwait q).0))
            (Same-Kept (Kept-refl q) (qwait-Same q)))
    go (b ∷ bs) e =
        rw (qbread, qremove-some q b bs e)
          (Same-Kept (cut_block-Kept room len q _ [] b (dequeue-Kept q b bs e)) (reader-Same _))

skip_empty-Kept : (bs : List Block) (q : Queue) → q.blocks ≡ bs → Kept q [] [] (skip_empty bs q)
unfolding skip_empty
skip_empty-Kept [] q e = Kept-refl q
skip_empty-Kept (b ∷ bs) q e = elim (Bool-cases (blen b == 0)) [
  | inr full ↦ simp full (Kept-refl q)
  | inl empty ↦ simp empty (
      Kept-trans (Kept-taken (nil_of b.bytes (ground (arith, empty))) (dequeue-Kept q b bs e))
        (skip_empty-Kept bs (dequeue b bs q) refl))
]

put_split_lem :
    (r : Queue) (x : List Block × Option Block) (t : Block)
    → x.1 ≡ some t
    → put_split r x ≡ (x.0, qputback r t)
unfolding put_split
put_split_lem r (l, none) t e = absurd (cc)
put_split_lem r (l, some s) t e = cc

put_rest-Kept :
    (room len : ℕ) (q r : Queue) (l : List Block) (n : ℕ)
    → Kept q [] (contents l) r
    → n ≡ length (contents l)
    → n ≤ len + last_len l
    → Kept q [] (readblist (put_rest room len (l, n, r)).0 len 0) (put_rest room len (l, n, r)).1
unfolding put_rest
put_rest-Kept room len q r l n k e h = elim (Bool-cases (leb n len || r.msg)) [
  | inl whole ↦ simp whole (elim (Bool-cases r.msg) [
    | inl m ↦ Kept-of_msg (sym k.msg ∙ m) k
    | inr m ↦
        Kept-taken
          (sym
            (readblist-take l len 0 ∙ take-eq_self len (contents l) (ground (arith, whole, m, e))))
          k
  ])
  | inr part ↦ simp part (cut_last l k e h (ground (arith, part)))
]
  where
    cut_last :
        (l : List Block)
        → Kept q [] (contents l) r
        → n ≡ length (contents l)
        → n ≤ len + last_len l
        → len < n
        → Kept q []
            (readblist (put_split r (split_last room (n - len) l)).0 len 0)
            (put_split r (split_last room (n - len) l)).1
    cut_last [] k e h m = absurd (omega arith)
    cut_last (b ∷ bs) k e h m =
        let (t, f, g, j) = split_last_lem room (n - len) b bs (omega arith) in
        rw (put_split_lem r (split_last room (n - len) (b ∷ bs)) t f) (
          Kept-taken
            (sym (
              readblist-take (split_last room (n - len) (b ∷ bs)).0 len 0
              ∙ take-eq_self len (contents (split_last room (n - len) (b ∷ bs)).0)
                  (omega (arith, j))))
            (putback-Kept q r [] (contents (b ∷ bs))
              (contents (split_last room (n - len) (b ∷ bs)).0) t k (sym g)))

read_from-Kept :
    (room len : ℕ) (q s : Queue)
    → Kept q [] [] s
    → Kept q [] (data_of (read_from room len s).0) (read_from room len s).1
unfolding read_from finish_read
read_from-Kept room len q s k = elim (Bool-cases (qcanread s)) [
  | inr empty ↦
      simp empty (Kept-taken (sym (data_of-waited s.err (qwait s).0)) (Same-Kept k (qwait-Same s)))
  | inl more ↦
      let (l, e, h) = read_blocks-Kept len s in
      simp more (
        Same-Kept
          (put_rest-Kept room len q (read_blocks len s).2 (read_blocks len s).0
            (read_blocks len s).1 (Kept-trans k l) e h)
          (reader-Same _))
]

pub qread-Kept :
    (room len : ℕ) (q : Queue) → Kept q [] (data_of (qread room len q).0) (qread room len q).1
unfolding qread
qread-Kept room len q = read_from-Kept room len q _ (elim (Bool-cases q.coalesce) [
  | inl c ↦ simp c (skip_empty-Kept q.blocks q refl)
  | inr c ↦ simp c (Kept-refl q)
])
