-- ===== src/Fd/Dup.antt =====
-- `fdtochan` and `_sysdup`: no reference is lost or made up on any branch.
use native.Mathlib.Decide.{dec_le}
use drawterm.Fd.Table.{hit-le_count}
use drawterm.Prelude.{
  ◌≤◌, ℕ, ◌≡◌, ◌⊎◌, inl, inr, refl, Bool, true, false, Option, none, some, if◌then◌else◌, arith,
}
use drawterm.Fd.{
  ℤ, pos, negsuc, Err, Result, ok, error, Fgrp, State, entry, unlockfgrp, cover, set_entry, newfd,
  exec_flag, incref, cclose_entry, refuse, check_mode, check_chan, lookup_fd, fdtochan,
}
use drawterm.Fd.Invariant.{Grown, Free, cover-WellFormed, unlockfgrp-WellFormed}
use drawterm.Fd.Operations.{newfd_cases}
use drawterm.Fd.References.{
  Held, plus, incref-Held, cclose-Held, cclose_entry-Held, same_entries-Held, set_entry-Held,
}

-- What a call leaves: on success the caller has one reference more, if it asked for it.
abbrev pub Looked : (ℕ → ℕ) → Bool → Result ℕ × State → Type 0
Looked ext iref (ok c, s) = Held (if iref then plus ext (some c) else ext) s
Looked ext iref (error e, s) = Held ext s

refuse-Looked :
    (ext : ℕ → ℕ) (c : ℕ) (iref : Bool) (s : State)
    → Held (if iref then plus ext (some c) else ext) s
    → Looked ext iref (refuse c iref s)
unfolding refuse
refuse-Looked ext c true s h = cclose-Held ext c s h
refuse-Looked ext c false s h = h

check_chan_cases :
    (c : ℕ) (mode : ℤ) (chkmnt iref : Bool) (s : State)
    → (check_chan c mode chkmnt iref s ≡ (ok c, s))
      ⊎ (check_chan c mode chkmnt iref s ≡ refuse c iref s)
unfolding check_chan check_mode
check_chan_cases c (negsuc m) chkmnt iref s = ground arith
check_chan_cases c (pos m) chkmnt iref s = ground arith

check_chan-Looked :
    (ext : ℕ → ℕ) (c : ℕ) (mode : ℤ) (chkmnt iref : Bool) (s : State)
    → Held (if iref then plus ext (some c) else ext) s
    → Looked ext iref (check_chan c mode chkmnt iref s)
check_chan-Looked ext c mode chkmnt iref s h = elim (check_chan_cases c mode chkmnt iref s) [
  | inl e ↦ rw e h
  | inr e ↦ rw e (refuse-Looked ext c iref s h)
]

-- A channel that a descriptor stands for has a reference.
lookup-used :
    (ext : ℕ → ℕ) (fd : ℤ) (c : ℕ) (s : State)
    → Held ext s
    → lookup_fd fd s.fgrp ≡ some c
    → 1 ≤ (s.chan c).ref
unfolding lookup_fd
lookup-used ext (negsuc n) c s h e = absurd (cc)
lookup-used ext (pos fd) c s h e = elim (dec_le s.fgrp.nfd fd) [
  | yes out ↦ absurd (ground (arith, e))
  | no inside ↦
      let there : entry s.fgrp.fd fd ≡ some c = ground (arith, e) in
      ground (arith, h.balance c, there, hit-le_count c fd s.fgrp.fd)
]

-- Whatever `fdtochan` tests and answers, the counts of the channels stay right: a caller that asked
-- for a reference and gets a channel has one more, and one that gets an error has none.
pub fdtochan-Held :
    (ext : ℕ → ℕ) (fd mode : ℤ) (chkmnt iref : Bool) (s : State)
    → Held ext s
    → Looked ext iref (fdtochan fd mode chkmnt iref s)
unfolding fdtochan
fdtochan-Held ext fd mode chkmnt iref s h = go (lookup_fd fd s.fgrp) refl iref
  where
    go :
        (o : Option ℕ)
        → lookup_fd fd s.fgrp ≡ o
        → (iref : Bool)
        → Looked ext iref (elim o [
          | none ↦ (error Err.ebadfd, s)
          | some c ↦ check_chan c mode chkmnt iref (if iref then incref c s else s)
        ])
    go none found iref = h
    go (some c) found true =
        check_chan-Looked ext c mode chkmnt true _
          (incref-Held ext c s h (lookup-used ext fd c s h found))
    go (some c) found false = check_chan-Looked ext c mode chkmnt false s h

-- The table is covered up to a descriptor, and then has its entry written.
install-Held :
    (ext : ℕ → ℕ) (o : Option ℕ) (fd flag : ℕ) (f : Fgrp) (s : State)
    → Held (plus ext o) s
    → Grown s.fgrp fd f
    → Held
        (plus ext (entry f.fd fd))
        (record s { fgrp = unlockfgrp (set_entry fd o flag (cover fd f)) })
unfolding unlockfgrp
install-Held ext o fd flag f s h g =
    let covered =
      same_entries-Held _ s (cover fd f) h (cover-WellFormed fd f g.formed g.room) g.same_count in
    let written =
      set_entry-Held ext fd o flag (record s { fgrp = cover fd f }) covered (ground arith) in
    record {
      formed = unlockfgrp-WellFormed _ written.formed;
      balance = written.balance;
      live = written.live;
      calm = written.calm;
    }

unlock-Held :
    (ext : ℕ → ℕ) (s : State) → Held ext s → Held ext (record s { fgrp = unlockfgrp s.fgrp })
unfolding unlockfgrp
unlock-Held ext s h =
    same_entries-Held ext s (unlockfgrp s.fgrp) h (unlockfgrp-WellFormed _ h.formed) (λ c. refl)

-- `newfd` takes over the reference of its caller, or leaves it.
pub newfd-Held :
    (memory : Bool) (ext : ℕ → ℕ) (c mode : ℕ) (s : State)
    → Held (plus ext (some c)) s
    → let (fd, f) = newfd memory c mode s.fgrp in
      Held (elim fd [ none ↦ plus ext (some c) | some n ↦ ext ]) (record s { fgrp = f })
unfolding cclose_entry
newfd-Held memory ext c mode s h = elim (newfd_cases memory c mode s.fgrp h.formed) [
  | inl (fd, (f, e, l)) ↦ rw e (moved fd f l)
  | inr (e, out, why) ↦ rw e (unlock-Held _ s h)
]
  where
    moved :
        (fd : ℕ) (f : Fgrp)
        → Free s.fgrp 0 fd f
        → Held ext
            (record s { fgrp = unlockfgrp (set_entry fd (some c) (exec_flag mode) (cover fd f)) })
    moved fd f l =
        let m = install-Held ext (some c) fd (exec_flag mode) f s h l.grown in
        let free : entry f.fd fd ≡ none = ground (arith, l.grown.kept fd, l.nil) in
        cclose_entry-Held ext none _ (rw free at m)
