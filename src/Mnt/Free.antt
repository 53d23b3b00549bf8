-- ===== src/Mnt/Free.antt =====
-- `freetag`: one bit of the masks is cleared.
use drawterm.Prelude.{
  ℕ, zero, suc, ◌-◌, ◌*◌, ◌/◌, ◌%◌, ◌≤◌, ◌<◌, ◌≡◌, ◌≢◌, inl, inr, refl, true, false, Option, none,
  some, List, [], ◌∷◌, length, ◌==◌, Bool-cases, arith,
}
use drawterm.Mnt.{get_bit, clear_bit, full, mask_bits, update, freetag, mask_at, has_tag, alloctag}
use drawterm.Mnt.Bits.{get-clear_bit, get-clear_bit_other, clear_bit-le_full}
use drawterm.Mnt.Tags.{AreWords, alloctag_cases}

length-update : (i : ℕ) (f : ℕ → ℕ) (vs : List ℕ) → length (update i f vs) ≡ length vs
length-update i f [] = refl
length-update zero f (v ∷ vs) = refl
length-update (suc i) f (v ∷ vs) = omega (arith, length-update i f vs)

mask_at-update :
    (i : ℕ) (f : ℕ → ℕ) (vs : List ℕ) → i < length vs → mask_at i (update i f vs) ≡ f (mask_at i vs)
mask_at-update i f [] h = absurd (omega arith)
mask_at-update zero f (v ∷ vs) h = refl
mask_at-update (suc i) f (v ∷ vs) h = mask_at-update i f vs (omega arith)

mask_at-update_other :
    (i k : ℕ) (f : ℕ → ℕ) (vs : List ℕ) → i ≢ k → mask_at k (update i f vs) ≡ mask_at k vs
mask_at-update_other i k f [] h = refl
mask_at-update_other zero zero f (v ∷ vs) h = absurd (h refl)
mask_at-update_other zero (suc k) f (v ∷ vs) h = refl
mask_at-update_other (suc i) zero f (v ∷ vs) h = refl
mask_at-update_other (suc i) (suc k) f (v ∷ vs) h =
    mask_at-update_other i k f vs (λ e. h (omega arith))

pub update-AreWords :
    (i : ℕ) (f : ℕ → ℕ) (vs : List ℕ)
    → ((v : ℕ) → v ≤ full mask_bits → f v ≤ full mask_bits)
    → AreWords vs
    → AreWords (update i f vs)
update-AreWords i f [] g ok = tt
update-AreWords zero f (v ∷ vs) g ok = (g v ok.0, ok.1)
update-AreWords (suc i) f (v ∷ vs) g ok = (ok.0, update-AreWords i f vs g ok.1)

pub record Freed (t : ℕ) (masks ws : List ℕ) : Type 0 where
  pub now_free : has_tag t ws ≡ false
  pub others : (u : ℕ) → u ≢ t → has_tag u ws ≡ has_tag u masks
  pub words : AreWords ws
  pub same_length : length ws ≡ length masks

-- `freetag` frees its tag, and leaves every other one.
pub freetag-Freed :
    (t : ℕ) (masks : List ℕ)
    → AreWords masks
    → t < length masks * 32
    → Freed t masks (freetag t masks)
unfolding freetag has_tag
freetag-Freed t masks ok h = record {
  now_free = rw (mask_at-update (t / 32) _ masks (omega arith)) (get-clear_bit _ (t % 32));
  others = others;
  words = update-AreWords (t / 32) _ masks (λ v le. clear_bit-le_full 32 v (t % 32) le) ok;
  same_length = length-update (t / 32) _ masks;
}
  where
    others :
        (u : ℕ)
        → u ≢ t
        → get_bit (mask_at (u / 32) (update (t / 32) (λ v. clear_bit v (t % 32)) masks)) (u % 32)
          ≡ get_bit (mask_at (u / 32) masks) (u % 32)
    others u away = elim (Bool-cases (t / 32 == u / 32)) [
      | inr far ↦
          rw (mask_at-update_other (t / 32) (u / 32) _ masks (λ e. ground (arith, far))) refl
      | inl near ↦
          let same : u / 32 ≡ t / 32 = ground (arith, near) in
          rw (same, mask_at-update (t / 32) (λ v. clear_bit v (t % 32)) masks (omega arith))
            (get-clear_bit_other _ (t % 32) (u % 32) (λ e. away (omega (arith, same))))
    ]

-- Tags that `alloctag` and `freetag` deal in, of masks that `alloctag` starts from their first.
pub record Allocated (t : ℕ) (masks ws : List ℕ) : Type 0 where
  pub within : t < length masks * 32
  pub was_free : has_tag t masks ≡ false
  pub now_taken : has_tag t ws ≡ true
  pub others : (u : ℕ) → u ≢ t → has_tag u ws ≡ has_tag u masks
  pub words : AreWords ws
  pub same_length : length ws ≡ length masks

-- What `alloctag` answers.
unfoldable pub AllocTag : List ℕ → Option (ℕ × List ℕ) → Type 0
AllocTag masks none = (u : ℕ) → u < length masks * 32 → has_tag u masks ≡ true
AllocTag masks (some (t, ws)) = Allocated t masks ws

-- `alloctag` takes a tag that was free, and leaves every other one; it panics only if every tag is
-- taken.
pub alloctag_lem : (masks : List ℕ) → AreWords masks → AllocTag masks (alloctag 0 masks)
unfolding AllocTag
alloctag_lem masks ok = elim (alloctag_cases 0 masks ok) [
  | inl (t, (ws, e, k)) ↦
      let same : t - 0 * 32 ≡ t = omega arith in
      rw e (record {
        within = omega (arith, k.within);
        was_free = rw same at k.was_free;
        now_taken = rw same at k.now_taken;
        others = λ u away. k.others u (λ q. away (omega arith));
        words = k.words;
        same_length = k.same_length;
      })
  | inr (e, all) ↦ rw e all
]

-- A tag that is given back can be taken again: `freetag` undoes `alloctag` on every tag.
pub freetag-alloctag :
    (masks : List ℕ)
    → AreWords masks
    → (t : ℕ) (ws : List ℕ) → alloctag 0 masks ≡ some (t, ws)
    → (u : ℕ) → has_tag u (freetag t ws) ≡ has_tag u masks
freetag-alloctag masks ok t ws e u =
    let k : Allocated t masks ws = unfold AllocTag in rw e at (alloctag_lem masks ok) in
    let f = freetag-Freed t ws k.words (omega (arith, k.within, k.same_length)) in
    elim (Bool-cases (u == t)) [
      | inl same ↦ let q : u ≡ t = ground (arith, same) in rw (q, f.now_free, k.was_free) refl
      | inr other ↦
          let away : u ≢ t = λ q. ground (arith, other) in
          rw (f.others u away, k.others u away) refl
    ]
