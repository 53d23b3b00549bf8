-- ===== src/Mnt/Calls.antt =====
-- Every sequence of calls of `mntralloc` and `mntfree`, from `mntreset` on.
use drawterm.Prelude.{
  ℕ, zero, suc, ◌+◌, ◌-◌, ◌<◌, ◌≡◌, ◌≢◌, inl, inr, refl, Option, some, List, [], ◌∷◌, ◌==◌,
  Bool-cases, arith,
}
use drawterm.Mnt.{
  nmask, full, get_bit, zeros, has_tag, Mntalloc, mntreset, reuse_rpc, mntralloc, update,
}
use drawterm.Mnt.Tags.{AreWords}
use drawterm.Mnt.Free.{update-AreWords}
use drawterm.Mnt.Pool.{Home, absent, used, move, Call, alloc, free, Reach, here, next, Sound}
use drawterm.Mnt.Distinct.{mntfree-Sound, alloc_rpc-Sound, reuse-Sound}

reuse_rpc-Sound :
    (p : Mntalloc) (place : ℕ → Home) (new : Option ℕ) (rs : List ℕ) (r : ℕ) (p' : Mntalloc)
    → Sound p place
    → p.rpcfree ≡ rs
    → ((q : ℕ) → new ≡ some q → place q ≡ absent)
    → reuse_rpc new rs p ≡ some (r, p')
    → Sound p' (move place r used)
unfolding reuse_rpc
reuse_rpc-Sound p place new [] r p' s l away e = alloc_rpc-Sound p place new r p' s away e
reuse_rpc-Sound p place new (q ∷ rs) r p' s l away e =
    let taken = record p { rpcfree = rs; nrpcfree = p.nrpcfree - 1; nrpcused = p.nrpcused + 1 } in
    let same : q ≡ r = ground (arith, e) in
    let state : taken ≡ p' = ground (arith, e) in rw (same, state) at (reuse-Sound p place q rs s l)

mntralloc-Sound :
    (p : Mntalloc) (place : ℕ → Home) (new : Option ℕ) (r : ℕ) (p' : Mntalloc)
    → Sound p place
    → ((q : ℕ) → new ≡ some q → place q ≡ absent)
    → mntralloc new p ≡ some (r, p')
    → Sound p' (move place r used)
unfolding mntralloc
mntralloc-Sound p place new r p' s away e = elim (Bool-cases (p.nrpcfree == 0)) [
  | inl z ↦ alloc_rpc-Sound p place new r p' s away (rw z at e)
  | inr z ↦ reuse_rpc-Sound p place new p.rpcfree r p' s refl away (rw z at e)
]

Call-Sound :
    (p p' : Mntalloc) (place place' : ℕ → Home)
    → Call p place p' place'
    → Sound p place
    → Sound p' place'
Call-Sound p _ place _ (alloc new r p' away e) s = mntralloc-Sound p place new r p' s away e
Call-Sound p _ place _ (free r e) s = mntfree-Sound p place r s e

zeros-AreWords : (n : ℕ) → AreWords (zeros n)
zeros-AreWords zero = tt
zeros-AreWords (suc n) = (omega arith, zeros-AreWords n)

mntreset-Sound : Sound mntreset (λ r. absent)
unfolding mntreset has_tag get_bit
mntreset-Sound = record {
  words =
      update-AreWords 2047 (λ v. 0x8000_0000) (update 0 (λ v. 1) (zeros nmask))
        (λ v h. unfold full in omega arith)
        (update-AreWords 0 (λ v. 1) (zeros nmask) (λ v h. unfold full in omega arith)
          (zeros-AreWords nmask));
  masks = refl;
  zero_taken = refl;
  notag_taken = refl;
  proper = λ r h. absurd (h refl);
  taken = λ r h. absurd (h refl);
  different = λ r q h. absurd (h refl);
  on_list = tt;
  once = tt;
}

Reach-Sound : (p : Mntalloc) (place : ℕ → Home) → Reach p place → Sound p place
Reach-Sound p place here = mntreset-Sound
Reach-Sound p place (next r s) = Call-Sound _ p _ place s (Reach-Sound _ _ r)

-- After any sequence of calls, two different requests that callers have carry different tags, and
-- neither tag is 0 or NOTAG.
pub Reach-tags :
    (p : Mntalloc) (place : ℕ → Home)
    → Reach p place
    → (r q : ℕ) → place r ≡ used
    → place q ≡ used
    → r ≢ q
    → (p.tag r ≢ p.tag q) × (p.tag r ≢ 0) × (p.tag r < 0xffff)
Reach-tags p place reach r q hr hq away =
    let s = Reach-Sound p place reach in
    let there : place r ≢ absent = λ z. ground (arith, z, hr) in
    let (low, high) = s.proper r there in
    (λ e. away (s.different r q there (λ z. ground (arith, z, hq)) e), low, high)
