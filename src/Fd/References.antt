-- ===== src/Fd/References.antt =====
-- The references that a table and its callers hold on the channels.
use drawterm.Prelude.{
  inl, inr, Bool-cases, ◌==◌, if◌then◌else◌, ℕ, ◌+◌, ◌-◌, ◌≤◌, ◌≡◌, false, Option, none, some,
  arith,
}
use drawterm.Fd.{
  Fgrp, State, entry, set_entry, incref, cclose, cclose_entry, set_ref, is_freed, chanfree,
}
use drawterm.Fd.Table.{hit, count, count-put}
use drawterm.Fd.Invariant.{WellFormed, set_entry-WellFormed}

-- The count of each channel is the number of its entries in the table and of the references
-- outside, `ext`; a channel with references is not free, and no close has panicked.
pub record Held (ext : ℕ → ℕ) (s : State) : Type 0 where
  pub formed : WellFormed s.fgrp
  pub balance : (c : ℕ) → (s.chan c).ref ≡ count c s.fgrp.fd + ext c
  pub live : (c : ℕ) → 1 ≤ (s.chan c).ref → is_freed (s.chan c).flag ≡ false
  pub calm : s.panicked ≡ false

-- One reference more, if there is a channel.
abbrev pub plus : (ℕ → ℕ) → Option ℕ → ℕ → ℕ
plus ext o c = ext c + hit c o

pub incref-Held :
    (ext : ℕ → ℕ) (c : ℕ) (s : State)
    → Held ext s
    → 1 ≤ (s.chan c).ref
    → Held (plus ext (some c)) (incref c s)
unfolding incref
incref-Held ext c s h used = record {
  formed = h.formed;
  balance = λ d. ground (arith, h.balance d, h.balance c);
  live = λ d some_left. ground (arith, h.live d, used);
  calm = h.calm;
}

pub cclose_steps :
    (c : ℕ) (s : State)
    → 1 ≤ (s.chan c).ref
    → is_freed (s.chan c).flag ≡ false
    → let s' = set_ref c ((s.chan c).ref - 1) s in
      cclose c s ≡ (if (s.chan c).ref == 1 then chanfree c s' else s')
unfolding cclose
cclose_steps c s used live = ground (arith, used, live)

pub cclose-Held :
    (ext : ℕ → ℕ) (c : ℕ) (s : State) → Held (plus ext (some c)) s → Held ext (cclose c s)
cclose-Held ext c s h =
    let used : 1 ≤ (s.chan c).ref = ground (arith, h.balance c) in
    rw (cclose_steps c s used (h.live c used)) (elim (Bool-cases ((s.chan c).ref == 1)) [
      | inl last ↦ rw (last) (
          unfold chanfree in
          record {
            formed = h.formed;
            balance = λ d. ground (arith, h.balance d, h.balance c);
            live = λ d left. ground (arith, h.live d, last);
            calm = h.calm;
          })
      | inr more ↦ rw (more) record {
        formed = h.formed;
        balance = λ d. ground (arith, h.balance d, h.balance c);
        live = λ d left. ground (arith, h.live d, used);
        calm = h.calm;
      }
    ])

pub cclose_entry-Held :
    (ext : ℕ → ℕ) (o : Option ℕ) (s : State) → Held (plus ext o) s → Held ext (cclose_entry o s)
unfolding cclose_entry
cclose_entry-Held ext none s h = record {
  formed = h.formed;
  balance = λ c. omega (arith, h.balance c);
  live = h.live;
  calm = h.calm;
}
cclose_entry-Held ext (some c) s h = cclose-Held ext c s h

-- The table is replaced by one with the same entries.
pub same_entries-Held :
    (ext : ℕ → ℕ) (s : State) (f : Fgrp)
    → Held ext s
    → WellFormed f
    → ((c : ℕ) → count c f.fd ≡ count c s.fgrp.fd)
    → Held ext (record s { fgrp = f })
same_entries-Held ext s f h w e = record {
  formed = w;
  balance = λ c. omega (arith, h.balance c, e c);
  live = h.live;
  calm = h.calm;
}

-- An entry is overwritten: the reference moves in, and that of the old entry is left outside.
pub set_entry-Held :
    (ext : ℕ → ℕ) (fd : ℕ) (o : Option ℕ) (flag : ℕ) (s : State)
    → Held (plus ext o) s
    → fd ≤ s.fgrp.maxfd
    → Held (plus ext (entry s.fgrp.fd fd)) (record s { fgrp = set_entry fd o flag s.fgrp })
set_entry-Held ext fd o flag s h le = record {
  formed = set_entry-WellFormed fd o flag s.fgrp h.formed le;
  balance = λ c. omega (
    arith,
    h.balance c,
    count-put c fd o s.fgrp.fd (omega (arith, h.formed.entries, h.formed.covered)),
  );
  live = h.live;
  calm = h.calm;
}
