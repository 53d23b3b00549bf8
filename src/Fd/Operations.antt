-- ===== src/Fd/Operations.antt =====
-- The operations on the table of a process group keep it well formed.
use drawterm.Prelude.{
  ℕ, suc, ◌≤◌, ◌<◌, ◌≡◌, ◌≢◌, ◌⊎◌, inl, inr, refl, Bool, false, none, some, ◌==◌, if◌then◌else◌,
  arith,
}
use native.Mathlib.Decide.{dec_lt}
use drawterm.Fd.{
  Entries, Fgrp, fd_limit, unlockfgrp, entry, put, cover, set_entry, newfd, newfd2, exec_flag,
  lower, remove_entry,
}
use drawterm.Fd.Table.{length-put, entry-put_other, lower-le, lower_above}
use drawterm.Fd.Invariant.{
  WellFormed, Free, findfreefd_cases, cover-WellFormed, unlockfgrp-WellFormed, set_entry-WellFormed,
}

grown_cover : (f f' : Fgrp) (start fd : ℕ) → Free f start fd f' → WellFormed (cover fd f')
grown_cover f f' start fd l = cover-WellFormed fd f' l.grown.formed l.grown.room

-- Either `newfd` gives out a free descriptor, or every descriptor is open and the table cannot grow.
pub newfd_cases :
    (memory : Bool) (c mode : ℕ) (f : Fgrp)
    → WellFormed f
    → ((fd : ℕ) × ((f' : Fgrp) × (newfd memory c mode f
            ≡ (some fd, unlockfgrp (set_entry fd (some c) (exec_flag mode) (cover fd f'))))
          × Free f 0 fd f'))
      ⊎ ((newfd memory c mode f ≡ (none, unlockfgrp f))
          × ((i : ℕ) → i < f.nfd → entry f.fd i ≢ none)
          × ((fd_limit ≤ f.nfd) ⊎ (memory ≡ false)))
unfolding newfd
newfd_cases memory c mode f w = elim (findfreefd_cases memory f 0 w (omega arith)) [
  | inl (fd, (f', e, l)) ↦ inl (fd, (f', rw (e, newfd) refl, l))
  | inr (e, full, why) ↦ inr (rw (e, newfd) refl, λ i lt. full i (omega arith) lt, why)
]

pub newfd-WellFormed :
    (memory : Bool) (c mode : ℕ) (f : Fgrp) → WellFormed f → WellFormed (newfd memory c mode f).1
newfd-WellFormed memory c mode f w = elim (newfd_cases memory c mode f w) [
  | inl (fd, (f', e, l)) ↦ rw e (
      unlockfgrp-WellFormed _ (
        set_entry-WellFormed fd (some c) (exec_flag mode) _ (grown_cover f f' 0 fd l)
          (ground arith)))
  | inr (e, full, why) ↦ rw e (unlockfgrp-WellFormed f w)
]

-- `newfd2` keeps the table well formed, also if it finds one descriptor and no second.
pub newfd2-WellFormed :
    (memory : Bool) (c0 c1 : ℕ) (f : Fgrp) → WellFormed f → WellFormed (newfd2 memory c0 c1 f).1
unfolding newfd2
newfd2-WellFormed memory c0 c1 f w = elim (findfreefd_cases memory f 0 w (omega arith)) [
  | inr (e, full, why) ↦ rw (e, newfd2) (unlockfgrp-WellFormed f w)
  | inl (fd0, (f0, e, l)) ↦
      elim (findfreefd_cases memory f0 (suc fd0) l.grown.formed (omega (arith, l.grown.room))) [
        | inr (e', full, why) ↦ rw (e, e', newfd2) (unlockfgrp-WellFormed f0 l.grown.formed)
        | inl (fd1, (f1, e', l')) ↦
            let first =
              set_entry-WellFormed fd0 (some c0) 0 _ (grown_cover f0 f1 (suc fd0) fd1 l')
                (ground (arith, l'.from)) in
            rw (e, e', newfd2)
              (unlockfgrp-WellFormed _
                (set_entry-WellFormed fd1 (some c1) 0 _ first (ground arith)))
      ]
]

pub remove_entry-WellFormed :
    (fd : ℕ) (f : Fgrp) → WellFormed f → fd ≤ f.maxfd → WellFormed (remove_entry fd f)
unfolding remove_entry
remove_entry-WellFormed fd f w h = record {
  entries = omega (arith, w.entries, length-put fd none f.fd);
  flags = w.flags;
  covered = ground (arith, w.covered, lower-le (put fd none f.fd) fd);
  above = go;
}
  where
    xs : Entries
    xs = put fd none f.fd

    beyond : (i : ℕ) → f.maxfd < i → entry xs i ≡ none
    beyond i lt =
        let away : fd ≢ i = λ e. absurd (omega arith) in
        rw (entry-put_other fd i none f.fd away) (w.above i lt)

    go : (i : ℕ) → (if fd == f.maxfd then lower xs fd else f.maxfd) < i → entry xs i ≡ none
    go i lt = elim (dec_lt f.maxfd i) [
      | yes far ↦ beyond i far
      | no near ↦ ground (arith, lower_above xs fd i)
    ]
