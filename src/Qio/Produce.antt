-- ===== src/Qio/Produce.antt =====
-- The operations that put bytes into a queue.
use drawterm.Prelude.{
  ℕ, zero, suc, ◌+◌, ◌≡◌, inl, inr, refl, sym, ap, subst, ◌∙◌, Bool, true, false, ◌&&◌, ◌||◌, not,
  List, [], ◌∷◌, ◌++◌, append-nil, length, take, drop, take-eq_self, Bool-cases, leb, min, arith,
}
use native.Mathlib.Decide.{dec_le}
use drawterm.Qio.Blocks.{Block, new_block, put_bytes, allocb}
use drawterm.Qio.{bypasses, Queue, maxatomic, iunlock_writer, qaddlist, qpass, qpassnolim, qproduce}
use drawterm.Qio.Write.{qbwrite, iwrite_blocks, qiwrite}
use drawterm.Qio.Kept.{
  contents, Kept, Kept-refl, Kept-trans, Same-Kept, producer-Same, writer-Same, addlist-Kept,
}

pub new_block-contents : (room : ℕ) (p : List ℕ) → contents (new_block room p ∷ []) ≡ p
unfolding new_block put_bytes allocb
new_block-contents room p = append-nil p

-- What a call takes in of the bytes it is given.
abbrev pub when : Bool → List ℕ → List ℕ
when true p = p
when false p = []

pub qpassnolim-Kept :
    (bs : List Block) (q : Queue)
    → Kept q (when (not q.closed) (contents bs)) [] (qpassnolim bs q).1
unfolding qpassnolim
qpassnolim-Kept bs q = elim (Bool-cases q.closed) [
  | inl c ↦ simp c (Kept-refl q)
  | inr c ↦ simp c (Same-Kept (addlist-Kept bs q) (producer-Same _))
]

pub qpass-Kept :
    (bs : List Block) (q : Queue)
    → Kept q (when (not (q.closed || q.flow)) (contents bs)) [] (qpass bs q).1
unfolding qpass
qpass-Kept bs q = elim (Bool-cases q.closed) [
  | inl c ↦ simp c (Kept-refl q)
  | inr c ↦ elim (Bool-cases q.flow) [
    | inl f ↦ simp (c, f) (Kept-refl q)
    | inr f ↦ simp (c, f) (Same-Kept (addlist-Kept bs q) (producer-Same _))
  ]
]

pub qproduce-Kept :
    (room : ℕ) (p : List ℕ) (q : Queue)
    → Kept q (when (not (q.closed || q.flow)) p) [] (qproduce room p q).1
unfolding qproduce
qproduce-Kept room p q =
    subst (λ z. Kept q (when (not (q.closed || q.flow)) z) [] (qpass (new_block room p ∷ []) q).1)
      (new_block-contents room p) (qpass-Kept (new_block room p ∷ []) q)

bypassed :
    (q : Queue) (bs : List Block)
    → q.bypass ≡ true
    → Kept q [] [] (record q { bypass = true; signals = q.signals ++ (bypasses bs ∷ []) })
bypassed q bs y =
    Same-Kept (Kept-refl q)
      record { blocks = refl; dlen = refl; rp = refl; wp = refl; msg = refl; bypass = sym y }

-- The test of `qbwrite` on what it is to queue.
abbrev pub queues : Queue → Bool
queues q = not q.bypass && (not q.closed && not (q.flow && q.noblock))

pub qbwrite-Kept :
    (bs : List Block) (q : Queue) → Kept q (when (queues q) (contents bs)) [] (qbwrite bs q).1
unfolding qbwrite
qbwrite-Kept bs q = elim (Bool-cases q.bypass) [
  | inl y ↦ simp y (bypassed q bs y)
  | inr y ↦ elim (Bool-cases q.closed) [
    | inl c ↦ simp (y, c) (Kept-refl q)
    | inr c ↦ elim (Bool-cases (q.flow && q.noblock)) [
      | inl f ↦ simp (y, c, f) (Kept-refl q)
      | inr f ↦ simp (y, c, f) (Same-Kept (addlist-Kept bs q) (writer-Same _))
    ]
  ]
]

take_more_than : (p : List ℕ) (m n : ℕ) → take m p ++ take n (drop m p) ≡ take (m + n) p
take_more_than p zero n = let e : 0 + n ≡ n = omega arith in rw e refl
take_more_than [] (suc m) zero = let e : suc m + 0 ≡ suc m = omega arith in rw e refl
take_more_than [] (suc m) (suc n) =
    let e : suc m + suc n ≡ suc (m + suc n) = omega arith in rw e refl
take_more_than (x ∷ p) (suc m) n =
    let e : suc m + n ≡ suc (m + n) = omega arith in rw e (ap (λ z. x ∷ z) (take_more_than p m n))

take-min : (p : List ℕ) (n : ℕ) → take (min (length p) n) p ≡ take n p
take-min p n = elim (dec_le (length p) n) [
  | yes l ↦
      let e : min (length p) n ≡ length p = omega arith in
      rw (e, take-eq_self (length p) p (omega arith)) (sym (take-eq_self n p l))
  | no l ↦ let e : min (length p) n ≡ n = omega arith in rw e refl
]

-- The count that `qiwrite` returns is that of the bytes it has queued.
iwrite-Kept :
    (fuel : ℕ) (rooms : ℕ → ℕ) (p : List ℕ) (q : Queue)
    → q.bypass ≡ false
    → Kept q (take (iwrite_blocks fuel rooms p q).0 p) [] (iwrite_blocks fuel rooms p q).1
unfolding iwrite_blocks
iwrite-Kept zero rooms p q y = Kept-refl q
iwrite-Kept (suc fuel) rooms p q y = elim (Bool-cases (q.flow || q.closed)) [
  | inl full ↦ simp (y, full) (Kept-refl q)
  | inr room ↦ elim (Bool-cases (leb (length p) maxatomic || q.msg)) [
    | inl last ↦
        simp (y, room, last) (subst (λ z. Kept q z [] next) (sym (take-min p maxatomic)) first)
    | inr more ↦
        simp (y, room, more)
          (subst (λ z. Kept q z [] (iwrite_blocks fuel rooms (drop maxatomic p) next).1)
            (take_more_than p maxatomic (iwrite_blocks fuel rooms (drop maxatomic p) next).0)
            (Kept-trans first (iwrite-Kept fuel rooms (drop maxatomic p) next (first.bypass ∙ y))))
  ]
]
  where
    b : Block
    b = new_block (rooms fuel) (take maxatomic p)

    next : Queue
    next = iunlock_writer (qaddlist (b ∷ []) q)

    first : Kept q (take maxatomic p) [] next
    first =
        subst (λ z. Kept q z [] next) (new_block-contents (rooms fuel) (take maxatomic p))
          (Same-Kept (addlist-Kept (b ∷ []) q) (writer-Same _))

pub qiwrite-Kept :
    (rooms : ℕ → ℕ) (p : List ℕ) (q : Queue)
    → q.bypass ≡ false
    → Kept q (take (qiwrite rooms p q).0 p) [] (qiwrite rooms p q).1
unfolding qiwrite
qiwrite-Kept rooms p q y = iwrite-Kept (suc (length p)) rooms p q y
