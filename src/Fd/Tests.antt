-- ===== src/Fd/Tests.antt =====
-- Runs of the calls on a small table, and the witnesses.
use drawterm.Prelude.{
  ℕ, zero, suc, ◌<◌, ◌≡◌, ◌⊎◌, refl, true, false, none, some, ◌∷◌, ◌==◌, if◌then◌else◌, arith,
}
use drawterm.Fd.{
  findfreefd, first_free, is_freed, cclose, chanfree, pos, Err, ok, error, Fgrp, State, entry,
  lookup_fd, newfd, sysdup, sysclose, dupfgrp, filled,
}
use drawterm.Fd.Invariant.{WellFormed}
use drawterm.Fd.References.{Held}
use drawterm.Fd.Lookup.{NewFd, newfd_lem, Closed, sysclose_lem, DupTo, sysdup_lem}
use drawterm.Fd.Fork.{Fork, dupfgrp_lem}

-- The descriptors 0 and 2 stand for the channel 7, and 1 is free.
abbrev table : Fgrp
table = record {
  fd = some 7 ∷ none ∷ some 7 ∷ filled 17 none;
  flag = filled 20 0;
  nfd = 20;
  maxfd = 2;
  exceed = 0;
}

-- The channel 7 has a reference outside the table too, and 8 has one.
abbrev start : State
start = record {
  fgrp = table;
  chan = λ c. record { ref = if c == 7 then 3 else if c == 8 then 1 else 0; mode = 2; flag = 0 };
  panicked = false;
}

abbrev outside : ℕ → ℕ
outside c = if c == 7 then 1 else if c == 8 then 1 else 0

table-WellFormed : WellFormed table
table-WellFormed = record {
  entries = refl;
  flags = refl;
  covered = omega arith;
  above = λ i h. go i h;
}
  where
    nothing : (n i : ℕ) → entry (filled n none) i ≡ none
    nothing zero i = refl
    nothing (suc n) zero = refl
    nothing (suc n) (suc i) = nothing n i

    go : (i : ℕ) → 2 < i → entry (some 7 ∷ none ∷ some 7 ∷ filled 17 none) i ≡ none
    go zero h = absurd (omega arith)
    go (suc zero) h = absurd (omega arith)
    go (suc (suc zero)) h = absurd (omega arith)
    go (suc (suc (suc i))) h = nothing 17 i

start-Held : Held outside start
start-Held = record {
  formed = table-WellFormed;
  balance = λ c. ground arith;
  live = λ c used. unfold is_freed in refl;
  calm = refl;
}

-- The last reference goes: the channel is freed, and a further close panics.
closed_twice : (cclose 8 start).panicked ≡ false
unfolding cclose chanfree is_freed
closed_twice = refl

closed_again : (cclose 8 (cclose 8 start)).panicked ≡ true
unfolding cclose chanfree is_freed
closed_again = refl

newfd_run : (newfd true 8 0 table).0 ≡ some 1
unfolding newfd findfreefd first_free
newfd_run = refl

newfd_lem_example : NewFd table 8 true (newfd true 8 0 table)
newfd_lem_example = newfd_lem true 8 0 table table-WellFormed

sysdup_lem_example : let (r, s') = sysdup true (pos 0) (pos 2) start in DupTo table 7 2 r s'.fgrp
sysdup_lem_example = sysdup_lem true outside (pos 0) 2 7 start start-Held (unfold lookup_fd in refl)

sysclose_lem_example :
    ((lookup_fd (pos 2) table ≡ none) × (sysclose (pos 2) start ≡ (error Err.ebadfd, start)))
    ⊎ ((c : ℕ) × ((lookup_fd (pos 2) table ≡ some c)
          × ((sysclose (pos 2) start).0 ≡ ok 0)
          × Closed 2 c start (sysclose (pos 2) start).1))
sysclose_lem_example = sysclose_lem outside 2 start start-Held

dupfgrp_lem_example : Fork true start (dupfgrp true start)
dupfgrp_lem_example = dupfgrp_lem true start table-WellFormed
