-- ===== src/Mnt/Tags.antt =====
-- `alloctag` and `freetag`: tags taken and given back.
use drawterm.Prelude.{
  ℕ, suc, ◌+◌, ◌-◌, ◌*◌, ◌/◌, ◌%◌, ◌≤◌, ◌<◌, ◌≡◌, ◌≢◌, ◌⊎◌, inl, inr, refl, true, false, none, some,
  List, [], ◌∷◌, length, All, ◌==◌, ==_iff, Bool-cases, arith,
}
use native.Mathlib.Decide.{dec_lt}
use drawterm.Mnt.{get_bit, set_bit, full, mask_bits, first_clear, alloctag, has_tag}
use drawterm.Mnt.Bits.{
  get-set_bit, get-set_bit_other, set_bit-le_full, first_clear-lt, get-first_clear, get_bit-full,
}

-- Every mask fits its 32 bits.
abbrev pub AreWords : List ℕ → Type 0
AreWords masks = All (λ v. v ≤ full mask_bits) masks

-- What `alloctag` did, if it started at the mask `i` and returned `t`.
pub record Taken (i t : ℕ) (masks ws : List ℕ) : Type 0 where
  pub from : i * 32 ≤ t
  pub within : t < (i + length masks) * 32
  pub was_free : has_tag (t - i * 32) masks ≡ false
  pub now_taken : has_tag (t - i * 32) ws ≡ true
  pub others : (u : ℕ) → u ≢ t - i * 32 → has_tag u ws ≡ has_tag u masks
  pub words : AreWords ws
  pub same_length : length ws ≡ length masks

has_tag-tail : (u v : ℕ) (vs : List ℕ) → has_tag (u + 32) (v ∷ vs) ≡ has_tag u vs
unfolding has_tag
has_tag-tail u v vs =
    let quotient : (u + 32) / 32 ≡ suc (u / 32) = omega arith in
    let rest : (u + 32) % 32 ≡ u % 32 = omega arith in rw (quotient, rest) refl

has_tag-head : (u v : ℕ) (vs : List ℕ) → u < 32 → has_tag u (v ∷ vs) ≡ get_bit v u
unfolding has_tag
has_tag-head u v vs h =
    let quotient : u / 32 ≡ 0 = omega arith in
    let rest : u % 32 ≡ u = omega arith in rw (quotient, rest) refl

take_here :
    (i v : ℕ) (vs : List ℕ)
    → AreWords (v ∷ vs)
    → v ≢ full mask_bits
    → let j = first_clear mask_bits v in Taken i (i * 32 + j) (v ∷ vs) (set_bit v j ∷ vs)
take_here i v vs ok ne = record {
  from = omega arith;
  within = omega (arith, lt);
  was_free = rw (same, has_tag-head j v vs lt) (get-first_clear 32 v ok.0 ne);
  now_taken = rw (same, has_tag-head j (set_bit v j) vs lt) (get-set_bit v j);
  others = others;
  words = (set_bit-le_full 32 v j ok.0 lt, ok.1);
  same_length = refl;
}
  where
    j : ℕ
    j = first_clear mask_bits v

    lt : j < 32
    lt = first_clear-lt 32 v ok.0 ne

    same : i * 32 + j - i * 32 ≡ j
    same = omega arith

    others : (u : ℕ) → u ≢ i * 32 + j - i * 32 → has_tag u (set_bit v j ∷ vs) ≡ has_tag u (v ∷ vs)
    others u away = elim (dec_lt u 32) [
      | yes head ↦
          rw (has_tag-head u (set_bit v j) vs head, has_tag-head u v vs head)
            (get-set_bit_other v j u (λ e. away (omega arith)))
      | no tail ↦
          let shift : u ≡ (u - 32) + 32 = omega arith in
          rw shift (rw (has_tag-tail (u - 32) (set_bit v j) vs, has_tag-tail (u - 32) v vs) refl)
    ]

take_later :
    (i t v : ℕ) (vs ws : List ℕ)
    → v ≤ full mask_bits
    → Taken (suc i) t vs ws
    → Taken i t (v ∷ vs) (v ∷ ws)
take_later i t v vs ws ok k = record {
  from = omega (arith, k.from);
  within = omega (arith, k.within);
  was_free = rw (shift, has_tag-tail u v vs) k.was_free;
  now_taken = rw (shift, has_tag-tail u v ws) k.now_taken;
  others = others;
  words = (ok, k.words);
  same_length = omega (arith, k.same_length);
}
  where
    u : ℕ
    u = t - suc i * 32

    shift : t - i * 32 ≡ u + 32
    shift = omega (arith, k.from)

    others : (w : ℕ) → w ≢ t - i * 32 → has_tag w (v ∷ ws) ≡ has_tag w (v ∷ vs)
    others w away = elim (dec_lt w 32) [
      | yes head ↦ rw (has_tag-head w v ws head, has_tag-head w v vs head) refl
      | no tail ↦
          let back : w ≡ (w - 32) + 32 = omega arith in
          rw back (
            rw (has_tag-tail (w - 32) v ws, has_tag-tail (w - 32) v vs)
              (k.others (w - 32) (λ e. away (omega (arith, shift)))))
    ]

-- Every tag of a full mask is taken.
taken_head : (u v : ℕ) (vs : List ℕ) → v ≡ full mask_bits → u < 32 → has_tag u (v ∷ vs) ≡ true
taken_head u v vs e h = rw (has_tag-head u v vs h, e) (get_bit-full 32 u h)

-- Either `alloctag` takes a tag that was free, or none is.
pub alloctag_cases :
    (i : ℕ) (masks : List ℕ)
    → AreWords masks
    → ((t : ℕ) × ((ws : List ℕ) × (alloctag i masks ≡ some (t, ws)) × Taken i t masks ws))
      ⊎ ((alloctag i masks ≡ none) × ((u : ℕ) → u < length masks * 32 → has_tag u masks ≡ true))
unfolding alloctag full
alloctag_cases i [] ok = inr (refl, λ u h. absurd (omega arith))
alloctag_cases i (v ∷ vs) ok = elim (Bool-cases (v == 0xffff_ffff)) [
  | inr b ↦ inl (
    i * 32 + first_clear mask_bits v,
    (set_bit v (first_clear mask_bits v) ∷ vs, ground arith, take_here i v vs ok (unequal v b)),
  )
  | inl b ↦
      let e = (==_iff v 0xffff_ffff).0 b in
      elim (alloctag_cases (suc i) vs ok.1) [
        | inl (t, (ws, q, k)) ↦
            inl (t, (v ∷ ws, ground (arith, e, q), take_later i t v vs ws ok.0 k))
        | inr (q, all) ↦ inr (
          ground (arith, e, q),
          λ u h. elim (dec_lt u 32) [
            | yes head ↦ taken_head u v vs e head
            | no tail ↦
                let back : u ≡ (u - 32) + 32 = omega arith in
                rw (back, has_tag-tail (u - 32) v vs) (all (u - 32) (omega arith))
          ],
        )
      ]
]
  where
    unequal : (v : ℕ) → (v == 0xffff_ffff) ≡ false → v ≢ full mask_bits
    unequal v b e = unfold full in ground (arith, e)
