-- ===== src/Qio/Lists/Pullup.antt =====
-- `pullupblock`: the first block has as many bytes as were asked for.
use drawterm.Prelude.{
  ℕ, ◌+◌, ◌-◌, ◌<◌, ◌≤◌, ◌≡◌, inl, inr, refl, sym, ap, ◌∙◌, true, false, Option, some, List, [],
  ◌∷◌, ◌++◌, append_assoc, length, length-append, length-take, take, drop, take-append-drop,
  Bool-cases, ltb, leb, ◌==◌, ==_iff, arith,
}
use drawterm.Qio.Blocks.{Block, allocb, put_bytes, blen}
use drawterm.Qio.Kept.{contents}
use drawterm.Qio.Lists.{collect, pullupblock}

-- A list of blocks with the bytes `p`, of which the first block has `n` at least.
pub data Pulled (n : ℕ) (p : List ℕ) (o : Option (List Block)) : Type 0 where
  pulled :
      (b : Block) (bs : List Block)
      → o ≡ some (b ∷ bs)
      → n ≤ blen b
      → contents (b ∷ bs) ≡ p
      → Pulled n p o

ltb→lt : (a b : ℕ) → ltb a b ≡ true → a < b
ltb→lt a b h = ground arith

ltb→le : (a b : ℕ) → ltb a b ≡ false → b ≤ a
ltb→le a b h = ground arith

collect-Pulled :
    (b : Block) (bs : List Block) (n : ℕ)
    → 0 < n
    → n ≤ length (contents bs)
    → Pulled (blen b + n) (contents (b ∷ bs)) (collect b bs n)
unfolding collect put_bytes
collect-Pulled b [] n h l = absurd (omega arith)
collect-Pulled b (c ∷ cs) n h l = elim (Bool-cases (ltb n (blen c))) [
  | inl part ↦ simp part (
      pulled _ _ refl
        (omega (
          arith,
          length-append b.bytes (take n c.bytes),
          length-take n c.bytes,
          ltb→lt n (blen c) part,
        ))
        (append_assoc b.bytes (take n c.bytes) (drop n c.bytes ++ contents cs)
          ∙ ap (λ z. b.bytes ++ z)
              (sym (append_assoc (take n c.bytes) (drop n c.bytes) (contents cs))
                ∙ ap (λ z. z ++ contents cs) (take-append-drop n c.bytes))))
  | inr all ↦ elim (Bool-cases (n - blen c == 0)) [
    | inl done ↦
        simp (all, done)
          (pulled _ _ refl
            (omega (arith, length-append b.bytes c.bytes, (==_iff (n - blen c) 0).0 done))
            (append_assoc b.bytes c.bytes (contents cs)))
    | inr more ↦
        simp (all, more)
          (go
            (collect-Pulled (put_bytes c.bytes b) cs (n - blen c) (not_done more)
              (omega (arith, length-append c.bytes (contents cs), ltb→le n (blen c) all)))
            (ltb→le n (blen c) all))
  ]
]
  where
    not_done : (n - blen c == 0) ≡ false → 0 < n - blen c
    not_done e = ground arith

    go :
        Pulled
          (blen (put_bytes c.bytes b) + (n - blen c))
          (contents (put_bytes c.bytes b ∷ cs))
          (collect (put_bytes c.bytes b) cs (n - blen c))
        → blen c ≤ n
        → Pulled
            (blen b + n)
            (contents (b ∷ c ∷ cs))
            (collect (put_bytes c.bytes b) cs (n - blen c))
    go (pulled d ds e m q) s =
        pulled d ds e (omega (arith, m, length-append b.bytes c.bytes))
          (q ∙ append_assoc b.bytes c.bytes (contents cs))

-- Where the blocks have `n` bytes in all, pullupblock returns blocks with the same bytes in the same
-- order, of which the first has `n` at least.
pub pullupblock_lem :
    (room n : ℕ) (b : Block) (bs : List Block)
    → n ≤ length (contents (b ∷ bs))
    → Pulled n (contents (b ∷ bs)) (pullupblock room n (b ∷ bs))
unfolding pullupblock allocb
pullupblock_lem room n b bs l = elim (Bool-cases (leb n (blen b))) [
  | inl enough ↦ simp enough (pulled b bs refl (leb→le n (blen b) enough) refl)
  | inr short ↦ elim (Bool-cases (ltb (blen b + b.back) n)) [
    | inl small ↦ simp (short, small) (fresh (leb→lt n (blen b) short))
    | inr fits ↦ simp (short, fits) (same_block (leb→lt n (blen b) short))
  ]
]
  where
    leb→le : (x y : ℕ) → leb x y ≡ true → x ≤ y
    leb→le x y h = ground arith

    leb→lt : (x y : ℕ) → leb x y ≡ false → y < x
    leb→lt x y h = ground arith

    fresh : blen b < n → Pulled n (contents (b ∷ bs)) (collect (allocb room n) (b ∷ bs) n)
    fresh s = elim (collect-Pulled (allocb room n) (b ∷ bs) n (omega arith) l) [
      | pulled d ds e m q ↦ pulled d ds e (omega (arith, m)) q
    ]

    same_block : blen b < n → Pulled n (contents (b ∷ bs)) (collect b bs (n - blen b))
    same_block s =
        elim (collect-Pulled b bs (n - blen b) (omega arith)
          (omega (arith, length-append b.bytes (contents bs)))) [
            | pulled d ds e m q ↦ pulled d ds e (omega (arith, m)) q
          ]
