-- ===== src/Fd/Close.antt =====
-- `_sysclose` and `_fdclose`: what they close, and what they leave.
use drawterm.Prelude.{
  ℕ, ◌≤◌, ◌<◌, ◌≡◌, inl, inr, false, none, some, length, arith, Option-cases, Bool-cases,
}
use native.Mathlib.Decide.{dec_lt}
use drawterm.Fd.{
  ℤ, pos, negsuc, Result, ok, error, State, entry, cclose, fdtochan, remove_entry, keeps_open,
  fdclose, close_found, sysclose,
}
use drawterm.Fd.Table.{count-put}
use drawterm.Fd.Operations.{remove_entry-WellFormed}
use drawterm.Fd.References.{Held, plus, cclose-Held}
use drawterm.Fd.Dup.{Looked, fdtochan-Held}

remove_entry-Held :
    (ext : ℕ → ℕ) (fd c : ℕ) (s : State)
    → Held ext s
    → fd ≤ s.fgrp.maxfd
    → entry s.fgrp.fd fd ≡ some c
    → Held (plus ext (some c)) (record s { fgrp = remove_entry fd s.fgrp })
remove_entry-Held ext fd c s h le e =
    let inside : fd < length s.fgrp.fd = omega (arith, h.formed.entries, h.formed.covered) in
    record {
      formed = remove_entry-WellFormed fd s.fgrp h.formed le;
      balance = λ d.
          unfold remove_entry in
          ground (arith, h.balance d, e, count-put d fd none s.fgrp.fd inside);
      live = h.live;
      calm = h.calm;
    }

-- Whether `_fdclose` closes the descriptor or leaves it, the counts of the channels stay right, and
-- the table stays well formed.
pub fdclose-Held :
    (ext : ℕ → ℕ) (fd flag : ℕ) (s : State) → Held ext s → Held ext (fdclose fd flag s)
fdclose-Held ext fd flag s h = elim (dec_lt s.fgrp.maxfd fd) [
  | yes above ↦ let same : fdclose fd flag s ≡ s = unfold fdclose in ground arith in rw same h
  | no covered ↦ elim (Option-cases (entry s.fgrp.fd fd)) [
    | inl e ↦ let same : fdclose fd flag s ≡ s = unfold fdclose in ground (arith, e) in rw same h
    | inr (c, e) ↦ elim (Bool-cases (keeps_open fd c flag s)) [
      | inl k ↦
          let same : fdclose fd flag s ≡ s = unfold fdclose in ground (arith, e, k) in rw same h
      | inr k ↦
          let closed : fdclose fd flag s ≡ cclose c (record s { fgrp = remove_entry fd s.fgrp }) =
            unfold fdclose in ground (arith, e, k) in
          rw closed (cclose-Held ext c _ (remove_entry-Held ext fd c s h (omega arith) e))
    ]
  ]
]

close_found-Held : (ext : ℕ → ℕ) (fd : ℤ) (s : State) → Held ext s → Held ext (close_found fd s)
unfolding close_found
close_found-Held ext (negsuc n) s h = h
close_found-Held ext (pos fd) s h = fdclose-Held ext fd 0 s h

-- Whether `_sysclose` finds an open descriptor or fails, the counts of the channels stay right, and
-- the table stays well formed.
pub sysclose-Held : (ext : ℕ → ℕ) (fd : ℤ) (s : State) → Held ext s → Held ext (sysclose fd s).1
unfolding sysclose
sysclose-Held ext fd s h =
    go (fdtochan fd (negsuc 0) false false s) (fdtochan-Held ext fd (negsuc 0) false false s h)
  where
    go :
        (r : Result ℕ × State)
        → Looked ext false r
        → Held ext
            (elim r.0 as (λ _. Result ℕ × State) [
              | ok c ↦ (ok 0, close_found fd r.1)
              | error e ↦ (error e, r.1)
            ]).1
    go (ok c, s') k = close_found-Held ext fd s' k
    go (error e, s') k = k
