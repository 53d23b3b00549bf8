-- ===== src/Qio/Lists/Trim.antt =====
-- `trimblock`: what is left are the bytes that were asked for.
use drawterm.Prelude.{
  drop-append_over, drop-append_le, take_nil, drop_nil, take-append_over, take-append_le, ℕ, ◌+◌,
  ◌-◌, ◌<◌, ◌≤◌, ◌≡◌, inl, inr, refl, sym, ap, ◌∙◌, true, ◌&&◌, none, some, List, [], ◌∷◌, ◌++◌,
  append-nil, length, take, drop, take-eq_self, Bool-cases, ltb, le→ltb, lt→ltb, ◌==◌, arith,
}
use drawterm.Qio.Blocks.{Block, blen, blocklen}
use drawterm.Qio.Kept.{contents, blocklen_lem}
use drawterm.Qio.Lists.{skip_bytes, keep_bytes, trimblock}

skip_bytes_lem :
    (offset : ℕ) (bs : List Block) → contents (skip_bytes offset bs) ≡ drop offset (contents bs)
unfolding skip_bytes
skip_bytes_lem offset [] = sym (drop_nil offset)
skip_bytes_lem offset (b ∷ bs) = elim (Bool-cases (ltb (blen b) offset)) [
  | inl over ↦ simp over (
      skip_bytes_lem (offset - blen b) bs
      ∙ sym (drop-append_over offset b.bytes (contents bs) (ground (arith, over))))
  | inr part ↦ simp part (sym (drop-append_le offset b.bytes (contents bs) (ground (arith, part))))
]

keep_bytes_lem : (len : ℕ) (bs : List Block) → contents (keep_bytes len bs) ≡ take len (contents bs)
unfolding keep_bytes
keep_bytes_lem len [] = sym (take_nil len)
keep_bytes_lem len (b ∷ bs) = elim (Bool-cases (ltb (blen b) len)) [
  | inl over ↦ simp over (
      ap (λ z. b.bytes ++ z) (keep_bytes_lem (len - blen b) bs)
      ∙ sym (take-append_over b.bytes (contents bs) (len - blen b))
      ∙ ap (λ k. take k (b.bytes ++ contents bs)) (rest (ground (arith, over))))
  | inr part ↦ simp part (
      append-nil (take len b.bytes)
      ∙ sym (take-append_le len b.bytes (contents bs) (ground (arith, part))))
]
  where
    rest : blen b < len → blen b + (len - blen b) ≡ len
    rest h = omega arith

-- Where the blocks have the bytes from `offset` up to `offset + len`, trimblock leaves exactly these,
-- and where they do not it returns nil; what it frees is not in the state.
pub trimblock_lem :
    (offset len : ℕ) (bs : List Block)
    → (offset + len ≤ length (contents bs)
        → (cs : List Block) × (trimblock offset len bs ≡ some cs)
          × (contents cs ≡ take len (drop offset (contents bs))))
      × (length (contents bs) < offset + len → trimblock offset len bs ≡ none)
trimblock_lem offset len bs = (inside, outside)
  where
    all : (offset == 0) && (len == blocklen bs) ≡ true → (offset ≡ 0) × (len ≡ blocklen bs)
    all e = (ground (arith, e), ground (arith, e))

    inside :
        offset + len ≤ length (contents bs)
        → (cs : List Block) × (trimblock offset len bs ≡ some cs)
          × (contents cs ≡ take len (drop offset (contents bs)))
    inside h = elim (Bool-cases ((offset == 0) && (len == blocklen bs))) [
      | inl whole ↦ (
        bs,
        unfold trimblock in rw whole refl,
        let (z, l) = all whole in
            rw z (sym (take-eq_self len (contents bs) (omega (arith, l, blocklen_lem bs)))),
      )
      | inr part ↦ (
        keep_bytes len (skip_bytes offset bs),
        unfold trimblock in
            rw (part, le→ltb (blocklen bs) (offset + len) (omega (arith, h, blocklen_lem bs))) refl,
        keep_bytes_lem len (skip_bytes offset bs) ∙ ap (take len) (skip_bytes_lem offset bs),
      )
    ]

    outside : length (contents bs) < offset + len → trimblock offset len bs ≡ none
    outside h = elim (Bool-cases ((offset == 0) && (len == blocklen bs))) [
      | inl whole ↦ let (z, l) = all whole in absurd (omega (arith, blocklen_lem bs))
      | inr part ↦
          unfold trimblock in
          rw (part, lt→ltb (blocklen bs) (offset + len) (omega (arith, h, blocklen_lem bs))) refl
    ]
