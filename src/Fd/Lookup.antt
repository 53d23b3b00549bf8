-- ===== src/Fd/Lookup.antt =====
-- Which channel a descriptor stands for, before and after a call.
use drawterm.Prelude.{
  ℕ, ◌+◌, ◌-◌, ◌==◌, ◌≤◌, ◌<◌, ◌≡◌, ◌≢◌, ◌⊎◌, inl, inr, refl, Bool, true, false, Option, none, some,
  length, if◌then◌else◌, arith, Option-cases, ◌∙◌, ap,
}
use native.Mathlib.Decide.{dec_lt}
use drawterm.Fd.{
  fd_limit, ℤ, pos, negsuc, Err, Result, ok, error, Fgrp, State, entry, unlockfgrp, cover, set_ref,
  chanfree, set_entry, newfd, exec_flag, incref, cclose, cclose_entry, check_mode, check_chan,
  lookup_fd, fdtochan, dup_to, dup_chan, sysdup, remove_entry, keeps_open, fdclose, close_found,
  sysclose,
}
use drawterm.Fd.Table.{hit-le_count, length-put, entry-put, entry-put_other, entry_outside}
use drawterm.Fd.Invariant.{WellFormed, Grown, growfd_cases}
use drawterm.Fd.Operations.{newfd_cases}
use drawterm.Fd.References.{Held, cclose_steps}

-- With no mode and no test for a mount, `fdtochan` finds the channel that the table has.
pub fdtochan_found :
    (fd : ℤ) (iref : Bool) (s : State) (c : ℕ)
    → lookup_fd fd s.fgrp ≡ some c
    → fdtochan fd (negsuc 0) false iref s ≡ (ok c, if iref then incref c s else s)
unfolding fdtochan check_chan check_mode
fdtochan_found fd iref s c e = ground (arith, e)

pub lookup-entry : (fd : ℕ) (f : Fgrp) → length f.fd ≡ f.nfd → lookup_fd (pos fd) f ≡ entry f.fd fd
unfolding lookup_fd
lookup-entry fd f e = elim (dec_lt fd f.nfd) [
  | yes inside ↦ ground arith
  | no outside ↦ ground (arith, entry_outside f.fd fd (omega (arith, e)))
]

-- The table has `c` at `fd`, and at every other descriptor what it had.
pub record Put (fd c : ℕ) (f f' : Fgrp) : Type 0 where
  pub found : lookup_fd (pos fd) f' ≡ some c
  pub others : (i : ℕ) → fd ≢ i → lookup_fd (pos i) f' ≡ lookup_fd (pos i) f

install-Put :
    (fd c flag : ℕ) (f g : Fgrp)
    → WellFormed f
    → Grown f fd g
    → Put fd c f (unlockfgrp (set_entry fd (some c) flag (cover fd g)))
install-Put fd c flag f g w grown = record {
  found = rw (lookup-entry fd f' whole) (unfold unlockfgrp in entry-put fd (some c) g.fd inside);
  others = λ i away.
      rw (lookup-entry i f' whole, lookup-entry i f w.entries)
        (unfold unlockfgrp in entry-put_other fd i (some c) g.fd away ∙ grown.kept i);
}
  where
    f' : Fgrp
    f' = unlockfgrp (set_entry fd (some c) flag (cover fd g))

    inside : fd < length g.fd
    inside = omega (arith, grown.formed.entries, grown.room)

    whole : length f'.fd ≡ f'.nfd
    whole = unfold unlockfgrp in omega (arith, grown.formed.entries, length-put fd (some c) g.fd)

-- What `newfd` answers: the lowest descriptor that is free, or nothing, when every one is open and
-- the table has reached its limit or there is no memory.
pub NewFd : Fgrp → ℕ → Bool → Option ℕ × Fgrp → Type 0
NewFd f c memory (none, f') =
    ((i : ℕ) → i < f.nfd → lookup_fd (pos i) f ≢ none) × ((fd_limit ≤ f.nfd) ⊎ (memory ≡ false))
NewFd f c memory (some fd, f') =
    (lookup_fd (pos fd) f ≡ none) × ((i : ℕ) → i < fd → lookup_fd (pos i) f ≢ none) × Put fd c f f'

-- In a well-formed table, `newfd` gives out the lowest descriptor that is free, puts the channel
-- there and leaves every other descriptor; it fails only if all of them are open and the table
-- cannot grow, for its limit or for memory.
pub newfd_lem :
    (memory : Bool) (c mode : ℕ) (f : Fgrp)
    → WellFormed f
    → NewFd f c memory (newfd memory c mode f)
unfolding NewFd
newfd_lem memory c mode f w = elim (newfd_cases memory c mode f w) [
  | inl (fd, (f', e, l)) ↦ rw e (
    rw (lookup-entry fd f w.entries) l.nil,
    λ i lt. rw (lookup-entry i f w.entries) (l.taken i (omega arith) lt),
    install-Put fd c (exec_flag mode) f f' w l.grown,
  )
  | inr (e, full, why) ↦ rw e (λ i lt. rw (lookup-entry i f w.entries) (full i lt), why)
]

-- `_sysclose` of an open descriptor: it is free afterwards, every other one is as it was, and the
-- channel has one reference less.
pub record Closed (fd c : ℕ) (s s' : State) : Type 0 where
  pub gone : lookup_fd (pos fd) s'.fgrp ≡ none
  pub others : (i : ℕ) → fd ≢ i → lookup_fd (pos i) s'.fgrp ≡ lookup_fd (pos i) s.fgrp
  pub released : (s'.chan c).ref + 1 ≡ (s.chan c).ref

cclose-fgrp : (c : ℕ) (s : State) → (cclose c s).fgrp ≡ s.fgrp
unfolding cclose chanfree
cclose-fgrp c s = ground arith

cclose_entry-fgrp : (o : Option ℕ) (s : State) → (cclose_entry o s).fgrp ≡ s.fgrp
unfolding cclose_entry
cclose_entry-fgrp none s = refl
cclose_entry-fgrp (some c) s = cclose-fgrp c s

remove_entry-Closed :
    (ext : ℕ → ℕ) (fd c : ℕ) (s : State)
    → Held ext s
    → lookup_fd (pos fd) s.fgrp ≡ some c
    → Closed fd c s (cclose c (record s { fgrp = remove_entry fd s.fgrp }))
remove_entry-Closed ext fd c s h e = record {
  gone =
      rw (cclose-fgrp c _, lookup-entry fd f whole)
        (unfold remove_entry in entry-put fd none s.fgrp.fd inside);
  others = λ i away.
      rw (cclose-fgrp c _, lookup-entry i f whole, lookup-entry i s.fgrp w.entries)
        (unfold remove_entry in entry-put_other fd i none s.fgrp.fd away);
  released =
      rw (cclose_steps c (record s { fgrp = f }) used (h.live c used)) (released_ref s c used);
}
  where
    w : WellFormed s.fgrp
    w = h.formed

    there : entry s.fgrp.fd fd ≡ some c
    there = rw (lookup-entry fd s.fgrp w.entries) at e

    inside : fd < length s.fgrp.fd
    inside = elim (dec_lt fd (length s.fgrp.fd)) [
      | yes i ↦ i
      | no o ↦ absurd (ground (arith, there, entry_outside s.fgrp.fd fd))
    ]

    f : Fgrp
    f = remove_entry fd s.fgrp

    used : 1 ≤ (s.chan c).ref
    used = ground (arith, h.balance c, there, hit-le_count c fd s.fgrp.fd)

    released_ref :
        (s : State) (c : ℕ)
        → 1 ≤ (s.chan c).ref
        → let s' = set_ref c ((s.chan c).ref - 1) (record s { fgrp = f }) in
          ((if (s.chan c).ref == 1 then chanfree c s' else s').chan c).ref + 1 ≡ (s.chan c).ref
    released_ref s c used = unfold chanfree in ground (arith, used)

    whole : length f.fd ≡ f.nfd
    whole = unfold remove_entry in omega (arith, w.entries, length-put fd none s.fgrp.fd)

-- `_sysclose` of an open descriptor answers 0, frees the descriptor, leaves every other one and takes
-- one reference off the channel; of any other descriptor it fails with `Ebadfd` and changes nothing.
pub sysclose_lem :
    (ext : ℕ → ℕ) (fd : ℕ) (s : State)
    → Held ext s
    → ((lookup_fd (pos fd) s.fgrp ≡ none) × (sysclose (pos fd) s ≡ (error Err.ebadfd, s)))
      ⊎ ((c : ℕ) × ((lookup_fd (pos fd) s.fgrp ≡ some c)
            × ((sysclose (pos fd) s).0 ≡ ok 0)
            × Closed fd c s (sysclose (pos fd) s).1))
unfolding sysclose close_found
sysclose_lem ext fd s h = elim (Option-cases (lookup_fd (pos fd) s.fgrp)) [
  | inl e ↦ inl (e, unfold fdtochan in ground (arith, e))
  | inr (c, e) ↦
      let there : entry s.fgrp.fd fd ≡ some c = rw (lookup-entry fd s.fgrp h.formed.entries) at e in
      let step : sysclose (pos fd) s ≡ (ok 0, fdclose fd 0 s) =
        ground (arith, fdtochan_found (pos fd) false s c e) in
      inr
        (c, (e, ap (λ r. r.0) step, rw (step, closed c there) (remove_entry-Closed ext fd c s h e)))
]
  where
    closed :
        (c : ℕ)
        → entry s.fgrp.fd fd ≡ some c
        → fdclose fd 0 s ≡ cclose c (record s { fgrp = remove_entry fd s.fgrp })
    closed c e = elim (dec_lt s.fgrp.maxfd fd) [
      | yes above ↦ absurd (ground (arith, e, h.formed.above fd above))
      | no covered ↦ unfold fdclose keeps_open in ground (arith, e)
    ]

-- What `_sysdup` of an open descriptor onto a given one answers.
pub DupTo : Fgrp → ℕ → ℕ → Result ℤ → Fgrp → Type 0
DupTo f c n (ok fd) f' = (fd ≡ pos n) × Put n c f f'
DupTo f c n (error e) f' =
    (e ≡ Err.ebadfd) × (f.nfd ≤ n) × ((i : ℕ) → lookup_fd (pos i) f' ≡ lookup_fd (pos i) f)

-- `_sysdup` of an open descriptor onto the descriptor `n` answers `n`, which then stands for the same
-- channel, and leaves every other descriptor; or it fails with `Ebadfd`, which happens only behind
-- the end of the table, and leaves all of them.
pub sysdup_lem :
    (memory : Bool) (ext : ℕ → ℕ) (fd0 : ℤ) (n c : ℕ) (s : State)
    → Held ext s
    → lookup_fd fd0 s.fgrp ≡ some c
    → let (r, s') = sysdup memory fd0 (pos n) s in DupTo s.fgrp c n r s'.fgrp
unfolding sysdup dup_chan dup_to DupTo incref lookup_fd
sysdup_lem memory ext fd0 n c s h e = rw steps (elim (growfd_cases memory s.fgrp n h.formed) [
  | inl (f, g, grown) ↦
      rw (g, dup_to, cclose_entry-fgrp (entry f.fd n) _)
        (refl, install-Put n c 0 s.fgrp f h.formed grown)
  | inr (g, out, why) ↦ rw (g, dup_to, cclose-fgrp c _) (refl, out, λ i. unfold unlockfgrp in refl)
])
  where
    steps : sysdup memory fd0 (pos n) s ≡ dup_to memory c (pos n) (incref c s)
    steps = ground (arith, fdtochan_found fd0 true s c e)
