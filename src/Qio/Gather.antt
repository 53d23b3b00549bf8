-- ===== src/Qio/Gather.antt =====
-- The blocks that a read takes off a queue, and the last of them cut in two.
use drawterm.Prelude.{
  take-append_min, drop-append_over, drop-append_le, take_nil, drop_nil, ℕ, ◌+◌, ◌-◌, ◌≤◌, ◌≡◌, inl,
  inr, refl, sym, ap, subst, ◌∙◌, some, List, [], ◌∷◌, ◌++◌, append_assoc, append-nil, length,
  length-append, length-take, length-drop, take, drop, take-append-drop, Bool-cases, ltb, leb, ◌==◌,
  min, arith,
}
use drawterm.Qio.Blocks.{Block, new_block, put_bytes, allocb, blen, readblist, splitblock}
use drawterm.Qio.{Queue, dequeue}
use drawterm.Qio.Read.{cut_block, gather, first_block, split_last, read_blocks}
use drawterm.Qio.Kept.{contents, Kept, Kept-refl, Kept-trans, dequeue-Kept, putback-Kept}
use drawterm.Qio.Consume.{Kept-of_msg, Kept-taken}

pub split-bytes :
    (room : ℕ) (a : Block) (n : ℕ)
    → (splitblock room a n).0.bytes ++ (splitblock room a n).1.bytes ≡ a.bytes
unfolding splitblock new_block put_bytes allocb
split-bytes room a n = elim (Bool-cases (ltb (blen a - n) n)) [
  | inl e ↦ rw e (take-append-drop (blen a - n) a.bytes)
  | inr e ↦ rw e (take-append-drop (blen a - n) a.bytes)
]

pub cut_block-Kept :
    (room len : ℕ) (q r : Queue) (p : List ℕ) (b : Block)
    → Kept q p b.bytes r
    → Kept q p (cut_block room len b r).0.bytes (cut_block room len b r).1
unfolding cut_block
cut_block-Kept room len q r p b k = elim (Bool-cases (leb (blen b) len)) [
  | inl small ↦ simp small k
  | inr large ↦ elim (Bool-cases r.msg) [
    | inl m ↦ simp (large, m) (Kept-of_msg (sym k.msg ∙ m) k)
    | inr m ↦
        simp (large, m)
          (putback-Kept q r p b.bytes (splitblock room b (blen b - len)).0.bytes
            (splitblock room b (blen b - len)).1 k (sym (split-bytes room b (blen b - len))))
  ]
]

-- The blocks that are gathered are what is taken, and their bytes are counted.
pub gather-Kept :
    (n len : ℕ) (bs : List Block) (q : Queue)
    → q.blocks ≡ bs
    → Kept q [] (contents (gather n len bs q).0) (gather n len bs q).2
      × ((gather n len bs q).1 ≡ n + length (contents (gather n len bs q).0))
unfolding gather
gather-Kept n len [] q e = (Kept-refl q, omega arith)
gather-Kept n len (b ∷ bs) q e = elim (Bool-cases (leb len (n + blen b))) [
  | inl full ↦ simp full (
    Kept-taken (sym (append-nil b.bytes)) (dequeue-Kept q b bs e),
    omega (arith, length-append b.bytes []),
  )
  | inr room ↦
      let (k, l) = gather-Kept (n + blen b) len bs (dequeue b bs q) refl in
      simp room (
        Kept-trans (dequeue-Kept q b bs e) k,
        omega (
          arith,
          l,
          length-append b.bytes (contents (gather (n + blen b) len bs (dequeue b bs q)).0),
        ),
      )
]

abbrev pub last_len : List Block → ℕ
last_len [] = 0
last_len (b ∷ []) = blen b
last_len (b ∷ c ∷ bs) = last_len (c ∷ bs)

pub last_len-cons : (b : Block) (bs : List Block) → last_len bs ≤ last_len (b ∷ bs)
last_len-cons b [] = omega arith
last_len-cons b (c ∷ bs) = omega arith

-- Without the last of them, the blocks that are gathered have no more than `len` bytes.
pub gather-last :
    (n len : ℕ) (bs : List Block) (q : Queue)
    → n ≤ len
    → (gather n len bs q).1 ≤ len + last_len (gather n len bs q).0
unfolding gather
gather-last n len [] q h = omega arith
gather-last n len (b ∷ bs) q h = elim (Bool-cases (leb len (n + blen b))) [
  | inl full ↦ simp full (omega arith)
  | inr room ↦ simp room (
      omega (
        arith,
        gather-last (n + blen b) len bs (dequeue b bs q) (ground (arith, room)),
        last_len-cons b (gather (n + blen b) len bs (dequeue b bs q)).0,
      ))
]

pub first_block-Kept :
    (len : ℕ) (bs : List Block) (q : Queue)
    → q.blocks ≡ bs
    → Kept q [] (contents (first_block bs q).0) (first_block bs q).2
      × ((first_block bs q).1 ≡ length (contents (first_block bs q).0))
      × ((first_block bs q).1 ≤ len + last_len (first_block bs q).0)
unfolding first_block
first_block-Kept len [] q e = (Kept-refl q, refl, omega arith)
first_block-Kept len (b ∷ bs) q e = (
  Kept-taken (sym (append-nil b.bytes)) (dequeue-Kept q b bs e),
  omega (arith, length-append b.bytes []),
  omega arith,
)

pub read_blocks-Kept :
    (len : ℕ) (q : Queue)
    → Kept q [] (contents (read_blocks len q).0) (read_blocks len q).2
      × ((read_blocks len q).1 ≡ length (contents (read_blocks len q).0))
      × ((read_blocks len q).1 ≤ len + last_len (read_blocks len q).0)
unfolding read_blocks
read_blocks-Kept len q = elim (Bool-cases q.coalesce) [
  | inl c ↦
      let (k, e) = gather-Kept 0 len q.blocks q refl in
      simp c (k, omega (arith, e), gather-last 0 len q.blocks q (omega arith))
  | inr c ↦ simp c (first_block-Kept len q.blocks q refl)
]

pub split-length :
    (room : ℕ) (a : Block) (n : ℕ) → n ≤ blen a → blen (splitblock room a n).0 ≡ blen a - n
unfolding splitblock new_block put_bytes allocb
split-length room a n h = elim (Bool-cases (ltb (blen a - n) n)) [
  | inl e ↦ rw e (omega (arith, length-take (blen a - n) a.bytes))
  | inr e ↦ rw e (omega (arith, length-take (blen a - n) a.bytes))
]

-- The last block is cut in two, and its tail is what is put back.
pub split_last_lem :
    (room n : ℕ) (b : Block) (bs : List Block)
    → n ≤ last_len (b ∷ bs)
    → (t : Block) × ((split_last room n (b ∷ bs)).1 ≡ some t)
      × (contents (split_last room n (b ∷ bs)).0 ++ t.bytes ≡ contents (b ∷ bs))
      × (length (contents (split_last room n (b ∷ bs)).0) ≡ length (contents (b ∷ bs)) - n)
unfolding split_last
split_last_lem room n b [] h = (
  (splitblock room b n).1,
  refl,
  rw (append-nil (splitblock room b n).0.bytes, append-nil b.bytes) (split-bytes room b n),
  rw (append-nil (splitblock room b n).0.bytes, append-nil b.bytes) (split-length room b n h),
)
split_last_lem room n b (c ∷ bs) h =
    let (t, e, f, l) = split_last_lem room n c bs h in
    (
      t,
      e,
      append_assoc b.bytes _ t.bytes ∙ ap (λ z. b.bytes ++ z) f,
      omega (
        arith,
        l,
        length-append b.bytes (contents (split_last room n (c ∷ bs)).0),
        length-append b.bytes (contents (c ∷ bs)),
        last_le c bs,
        h,
      ),
    )
  where
    last_le : (c : Block) (bs : List Block) → last_len (c ∷ bs) ≤ length (contents (c ∷ bs))
    last_le c [] = omega (arith, length-append c.bytes [])
    last_le c (d ∷ bs) = omega (arith, last_le d bs, length-append c.bytes (contents (d ∷ bs)))

pub readblist-take : (bs : List Block) (n o : ℕ) → readblist bs n o ≡ take n (drop o (contents bs))
unfolding readblist
readblist-take [] n o = rw (drop_nil o, take_nil n)
readblist-take (b ∷ bs) n o = elim (Bool-cases (n == 0)) [
  | inl z ↦ let e : n ≡ 0 = ground (arith, z) in rw e refl
  | inr some_left ↦ elim (Bool-cases (leb (blen b) o)) [
    | inl over ↦
        simp (some_left, over)
          (readblist-take bs n (o - blen b)
            ∙ ap (take n) (sym (drop-append_over o b.bytes (contents bs) (ground (arith, over)))))
    | inr part ↦
        let l : o ≤ blen b = ground (arith, part) in
        simp (some_left, part)
          (ap (λ z. take (min n (blen b - o)) (drop o b.bytes) ++ z)
              (readblist-take bs (n - min n (blen b - o)) 0)
            ∙ subst
                (λ m.
                  take (min n m) (drop o b.bytes) ++ take (n - min n m) (contents bs)
                  ≡ take n (drop o b.bytes ++ contents bs))
                (length-drop o b.bytes) (sym (take-append_min n (drop o b.bytes) (contents bs)))
            ∙ ap (take n) (sym (drop-append_le o b.bytes (contents bs) l)))
  ]
]
