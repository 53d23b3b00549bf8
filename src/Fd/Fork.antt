-- ===== src/Fd/Fork.antt =====
-- `dupfgrp`: the copy of a table stands for the same channels, with references of its own.
use drawterm.Prelude.{
  ℕ, zero, suc, ◌+◌, ◌-◌, ◌<◌, ◌≡◌, inl, inr, refl, Bool, true, false, Option, none, some, List, [],
  ◌∷◌, length, arith, Option-cases, ◌++◌, drop, length-append, ◌%◌, ◌∙◌, sym,
}
use native.Mathlib.Decide.{dec_lt}
use drawterm.Fd.{
  incref, pos, Entries, Fgrp, State, entry, incref, lookup_fd, quantized, copy_entries, dupfgrp,
  filled, delta_fd,
}
use drawterm.Fd.Table.{
  count, entry_outside, entry-append_filled, length-filled, count-append_filled,
}
use drawterm.Fd.Invariant.{WellFormed}
use drawterm.Fd.Lookup.{lookup-entry}

entry-tail : (i : ℕ) (xs : Entries) → entry (drop 1 xs) i ≡ entry xs (suc i)
entry-tail i [] = refl
entry-tail i (x ∷ xs) = refl

-- The copy of the first `n` entries.
record Copied (n : ℕ) (xs : Entries) (s : State) (ys : Entries) (gs : List ℕ) (s' : State)
    : Type 0 where
  size : length ys ≡ n
  flags : length gs ≡ n
  same : (i : ℕ) → i < n → entry ys i ≡ entry xs i
  table : s'.fgrp ≡ s.fgrp
  calm : s'.panicked ≡ s.panicked
  counted : (c : ℕ) → (s'.chan c).ref ≡ (s.chan c).ref + count c ys

abbrev AfterCopy : ℕ → Entries → (Entries × List ℕ) × State → State → Type 0
AfterCopy n xs r s = Copied n xs s r.0.0 r.0.1 r.1

copy_entries-Copied :
    (n : ℕ) (xs : Entries) (flags : List ℕ) (s : State)
    → AfterCopy n xs (copy_entries n xs flags s) s
unfolding copy_entries incref
copy_entries-Copied zero xs flags s = record {
  size = refl;
  flags = refl;
  same = λ i h. absurd (omega arith);
  table = refl;
  calm = refl;
  counted = λ c. omega arith;
}
copy_entries-Copied (suc n) xs flags s =
    let ih = copy_entries-Copied n (drop 1 xs) (drop 1 flags) s in
    elim (Option-cases (entry xs 0)) [
      | inl e ↦
          rw (e, copy_entries)
            (record {
              size = omega (arith, ih.size);
              flags = omega (arith, ih.flags);
              same = first _ none e ih.same;
              table = ih.table;
              calm = ih.calm;
              counted = λ c. omega (arith, ih.counted c);
            })
      | inr (c, e) ↦
          rw (e, copy_entries)
            (record {
              size = omega (arith, ih.size);
              flags = omega (arith, ih.flags);
              same = first _ (some c) e ih.same;
              table = ih.table;
              calm = ih.calm;
              counted = λ d. ground (arith, ih.counted d, ih.counted c);
            })
    ]
  where
    first :
        (ys : Entries) (o : Option ℕ)
        → entry xs 0 ≡ o
        → ((i : ℕ) → i < n → entry ys i ≡ entry (drop 1 xs) i)
        → (i : ℕ) → i < suc n
        → entry (o ∷ ys) i ≡ entry xs i
    first ys o e h zero lt = sym e
    first ys o e h (suc i) lt = h i (omega arith) ∙ entry-tail i xs

quantized-le : (m : ℕ) → m < quantized m
unfolding quantized
quantized-le m = ground arith

-- The copy of a table that `dupfgrp` makes: well formed, cut to a multiple of 20, with the same
-- channel at every descriptor; the table of the caller is as it was, and each channel has as many
-- references more as the copy has entries for it.
pub record Forked (s : State) (f : Fgrp) (s' : State) : Type 0 where
  pub formed : WellFormed f
  pub quantum : f.nfd % delta_fd ≡ 0
  pub same : (i : ℕ) → lookup_fd (pos i) f ≡ lookup_fd (pos i) s.fgrp
  pub kept : s'.fgrp ≡ s.fgrp
  pub calm : s'.panicked ≡ s.panicked
  pub counted : (c : ℕ) → (s'.chan c).ref ≡ (s.chan c).ref + count c f.fd

quantized-quantum : (m : ℕ) → quantized m % delta_fd ≡ 0
unfolding quantized
quantized-quantum m = ground arith

-- What `dupfgrp` leaves: a copy, or nothing changed, if there is no memory.
pub Fork : Bool → State → Option Fgrp × State → Type 0
Fork memory s (none, s') = (memory ≡ false) × (s' ≡ s)
Fork memory s (some f, s') = (memory ≡ true) × Forked s f s'

copy_of : Fgrp → Entries → List ℕ → Fgrp
copy_of f ys gs =
    let rest = quantized f.maxfd - (f.maxfd + 1) in
    record {
      fd = ys ++ filled rest none;
      flag = gs ++ filled rest 0;
      nfd = quantized f.maxfd;
      maxfd = f.maxfd;
      exceed = 0;
    }

copy_of-Forked :
    (s : State) (ys : Entries) (gs : List ℕ) (s' : State)
    → WellFormed s.fgrp
    → Copied (s.fgrp.maxfd + 1) s.fgrp.fd s ys gs s'
    → Forked s (copy_of s.fgrp ys gs) s'
unfolding copy_of
copy_of-Forked s ys gs s' w k = record {
  formed = record {
    entries = entries;
    flags = omega (
      arith,
      k.flags,
      quantized-le m,
      length-append gs (filled rest 0),
      length-filled {A = ℕ} rest 0,
    );
    covered = quantized-le m;
    above = λ i lt. entry-append_filled ys rest i ∙ entry_outside ys i (omega (arith, k.size));
  };
  quantum = quantized-quantum m;
  same = λ i.
      rw (lookup-entry i (copy_of s.fgrp ys gs) entries, lookup-entry i s.fgrp w.entries)
        (entry-append_filled ys rest i ∙ below i);
  kept = k.table;
  calm = k.calm;
  counted = λ c. omega (arith, k.counted c, count-append_filled c rest ys);
}
  where
    m : ℕ
    m = s.fgrp.maxfd

    rest : ℕ
    rest = quantized m - (m + 1)

    entries : length (ys ++ filled rest none) ≡ quantized m
    entries = omega (
      arith,
      k.size,
      quantized-le m,
      length-append ys (filled rest none),
      length-filled {A = Option ℕ} rest none,
    )

    below : (i : ℕ) → entry ys i ≡ entry s.fgrp.fd i
    below i = elim (dec_lt i (m + 1)) [
      | yes lt ↦ k.same i lt
      | no out ↦ entry_outside ys i (omega (arith, k.size)) ∙ sym (w.above i (omega arith))
    ]

-- `dupfgrp` of a well-formed table makes a copy that stands for the same channels and holds a
-- reference for each of its entries, or, without memory, changes nothing.
pub dupfgrp_lem : (memory : Bool) (s : State) → WellFormed s.fgrp → Fork memory s (dupfgrp memory s)
unfolding dupfgrp Fork copy_of
dupfgrp_lem false s w = (refl, refl)
dupfgrp_lem true s w = (
  refl,
  copy_of-Forked s _ _ _ w (copy_entries-Copied (s.fgrp.maxfd + 1) s.fgrp.fd s.fgrp.flag s),
)
