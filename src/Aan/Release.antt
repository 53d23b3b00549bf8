-- ===== src/Aan/Release.antt =====
-- `aanreader`: the messages that an acknowledgement frees.
use drawterm.Prelude.{
  ℕ, zero, suc, ◌+◌, ◌^◌, ◌<◌, ◌≤◌, ◌≡◌, false, some, List, [], ◌∷◌, length, drop, ltb, ◌==◌, u32,
  subst, arith,
}
use drawterm.Aan.{Buf, release, is_ahead}
use drawterm.Aan.Flow.{Data, Numbered}

u32-suc : (n : ℕ) → u32 (u32 n + 1) ≡ u32 (suc n)
u32-suc n = omega arith

-- The numbers of a window shorter than the counter are told apart.
pub u32-inj : (a b : ℕ) → a ≤ b → b < a + 2 ^ 32 → u32 a ≡ u32 b → a ≡ b
u32-inj a b l m e = omega arith

-- What `release` leaves, when it frees `k + 1` messages of those that are kept.
pub release-Numbered :
    (k i : ℕ) (bs : List Buf) (ds : Data)
    → Numbered i bs ds
    → suc k ≤ length bs
    → suc k < 2 ^ 32
    → (cs : List Buf) × (release (u32 (i + suc k)) (u32 i) bs ≡ some (u32 (i + suc k), cs))
      × Numbered (i + suc k) cs (drop (suc k) ds)
unfolding release
release-Numbered k i [] ds n l m = absurd (omega arith)
release-Numbered k i (b ∷ bs) [] n l m = absurd n
release-Numbered zero i (b ∷ bs) (d ∷ ds) (c, ns) l m =
    (bs, ground (arith, c.number), subst (λ j. Numbered j bs ds) (omega arith) ns)
release-Numbered (suc k) i (b ∷ bs) (d ∷ ds) (c, ns) l m =
    let (cs, e, rest) = release-Numbered k (suc i) bs ds ns (omega arith) (omega arith) in
    (
      cs,
      step cs (subst (λ j. release (u32 j) (u32 (suc i)) bs ≡ some (u32 j, cs)) (omega arith) e),
      subst (λ j. Numbered j cs (drop (suc k) ds)) (omega arith) rest,
    )
  where
    differ : (u32 (suc i) == u32 (i + suc (suc k))) ≡ false
    differ = ground arith

    step :
        (cs : List Buf)
        → release (u32 (i + suc (suc k))) (u32 (suc i)) bs ≡ some (u32 (i + suc (suc k)), cs)
        → release (u32 (i + suc (suc k))) (u32 i) (b ∷ bs) ≡ some (u32 (i + suc (suc k)), cs)
    step cs e = rw (c.number, u32-suc i, differ, e) (ground arith)

pub is_ahead_iff :
    (x last : ℕ) → last ≤ x → x < last + 2 ^ 31 → is_ahead (u32 x) (u32 last) ≡ ltb last x
unfolding is_ahead
is_ahead_iff x last l m = ground arith
