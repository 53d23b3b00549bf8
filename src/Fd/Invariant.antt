-- ===== src/Fd/Invariant.antt =====
-- The table of a process group stays well formed.
use drawterm.Prelude.{
  ℕ, ◌+◌, ◌-◌, ◌≤◌, ◌<◌, ◌≡◌, ◌≢◌, ◌⊎◌, inl, inr, refl, Bool, false, Option, none, some, ◌++◌,
  length, length-append, length-drop, drop, arith, Bool-cases,
}
use native.Mathlib.Decide.{dec_lt}
use drawterm.Fd.{
  Fgrp, delta_fd, fd_limit, entry, filled, unlockfgrp, raise_maxfd, growfd, first_free, findfreefd,
  cover, set_entry,
}
use drawterm.Fd.Table.{
  count, count-append_filled, length-put, length-filled, entry-put_other, entry-append_filled,
  Lowest, first_free-Lowest, entry-drop,
}

-- Both arrays have `nfd` entries, and every open descriptor is at most `maxfd`, which is inside.
pub record WellFormed (f : Fgrp) : Type 0 where
  pub entries : length f.fd ≡ f.nfd
  pub flags : length f.flag ≡ f.nfd
  pub covered : f.maxfd < f.nfd
  pub above : (i : ℕ) → f.maxfd < i → entry f.fd i ≡ none

-- What a table that has been grown for `fd` keeps.
pub record Grown (f : Fgrp) (fd : ℕ) (f' : Fgrp) : Type 0 where
  pub formed : WellFormed f'
  pub room : fd < f'.nfd
  pub kept : (i : ℕ) → entry f'.fd i ≡ entry f.fd i
  pub higher : f.maxfd ≤ f'.maxfd
  pub same_count : (c : ℕ) → count c f'.fd ≡ count c f.fd

grown_table : Fgrp → ℕ → Fgrp
unfolding raise_maxfd
grown_table f fd = raise_maxfd fd (record f {
  fd = f.fd ++ filled delta_fd none;
  flag = f.flag ++ filled delta_fd 0;
  nfd = f.nfd + delta_fd;
})

grown_table-Grown :
    (f : Fgrp) (fd : ℕ)
    → WellFormed f
    → f.nfd ≤ fd
    → fd < f.nfd + delta_fd
    → Grown f fd (grown_table f fd)
unfolding grown_table raise_maxfd
grown_table-Grown f fd w low high = record {
  formed = record {
    entries = ground (
      arith,
      w.covered,
      w.entries,
      length-append f.fd (filled delta_fd none),
      length-filled {A = Option ℕ} delta_fd none,
    );
    flags = ground (
      arith,
      w.covered,
      w.flags,
      length-append f.flag (filled delta_fd 0),
      length-filled {A = ℕ} delta_fd 0,
    );
    covered = ground (arith, w.covered);
    above = λ i h. ground (arith, w.covered, entry-append_filled f.fd delta_fd i, w.above i);
  };
  room = ground arith;
  kept = λ i. ground (arith, entry-append_filled f.fd delta_fd i);
  higher = ground (arith, w.covered);
  same_count = λ c. ground (arith, count-append_filled c delta_fd f.fd);
}

-- `growfd` fails exactly for a descriptor that is far out, or when the limit or the memory is
-- reached.
pub growfd_cases :
    (memory : Bool) (f : Fgrp) (fd : ℕ)
    → WellFormed f
    → ((f' : Fgrp) × (growfd memory f fd ≡ some f') × Grown f fd f')
      ⊎ ((growfd memory f fd ≡ none)
          × (f.nfd ≤ fd)
          × ((f.nfd + delta_fd ≤ fd) ⊎ ((fd_limit ≤ f.nfd) ⊎ (memory ≡ false))))
unfolding growfd grown_table
growfd_cases memory f fd w = elim (dec_lt fd f.nfd) [
  | yes inside ↦ inl (
    f,
    ground arith,
    record {
      formed = w;
      room = inside;
      kept = λ i. refl;
      higher = omega arith;
      same_count = λ c. refl;
    },
  )
  | no outside ↦ elim (dec_lt fd (f.nfd + delta_fd)) [
    | no far ↦ inr (ground arith, omega arith, inl (omega arith))
    | yes near ↦ elim (dec_lt f.nfd fd_limit) [
      | no many ↦ inr (ground arith, omega arith, inr (inl (omega arith)))
      | yes few ↦ elim (Bool-cases memory) [
        | inr out ↦ inr (ground arith, omega arith, inr (inr out))
        | inl has ↦
            inl (grown_table f fd, ground arith, grown_table-Grown f fd w (omega arith) near)
      ]
    ]
  ]
]

pub cover-WellFormed : (fd : ℕ) (f : Fgrp) → WellFormed f → fd < f.nfd → WellFormed (cover fd f)
cover-WellFormed fd f w h = record {
  entries = w.entries;
  flags = w.flags;
  covered = ground (arith, w.covered);
  above = λ i lt. w.above i (ground arith);
}

pub unlockfgrp-WellFormed : (f : Fgrp) → WellFormed f → WellFormed (unlockfgrp f)
unfolding unlockfgrp
unlockfgrp-WellFormed f w = record {
  entries = w.entries;
  flags = w.flags;
  covered = w.covered;
  above = w.above;
}

pub set_entry-WellFormed :
    (fd : ℕ) (c : Option ℕ) (flag : ℕ) (f : Fgrp)
    → WellFormed f
    → fd ≤ f.maxfd
    → WellFormed (set_entry fd c flag f)
set_entry-WellFormed fd c flag f w h = record {
  entries = omega (arith, w.entries, length-put fd c f.fd);
  flags = omega (arith, w.flags, length-put fd flag f.flag);
  covered = w.covered;
  above = λ i lt.
      let away : fd ≢ i = λ e. absurd (omega arith) in
      rw (entry-put_other fd i c f.fd away) (w.above i lt);
}

-- A free descriptor, and the table with room for it.
pub record Free (f : Fgrp) (start fd : ℕ) (f' : Fgrp) : Type 0 where
  pub grown : Grown f fd f'
  pub from : start ≤ fd
  pub within : fd ≤ f.nfd
  pub nil : entry f.fd fd ≡ none
  pub taken : (i : ℕ) → start ≤ i → i < fd → entry f.fd i ≢ none

pub findfreefd_cases :
    (memory : Bool) (f : Fgrp) (start : ℕ)
    → WellFormed f
    → start ≤ f.nfd
    → ((fd : ℕ) × ((f' : Fgrp) × (findfreefd memory f start ≡ some (fd, f')) × Free f start fd f'))
      ⊎ ((findfreefd memory f start ≡ none)
          × ((i : ℕ) → start ≤ i → i < f.nfd → entry f.fd i ≢ none)
          × ((fd_limit ≤ f.nfd) ⊎ (memory ≡ false)))
unfolding findfreefd
findfreefd_cases memory f start w h = elim (growfd_cases memory f fd w) [
  | inl (f', e, g) ↦ inl (fd, (f', found f' e g, free f' g))
  | inr (e, out, why) ↦ inr (
    ground arith,
    λ i from lt. taken i from (omega arith),
    elim why [
      | inl far ↦ absurd (omega (arith, low.inside, length-drop start f.fd, w.entries))
      | inr why' ↦ why'
    ],
  )
]
  where
    fd : ℕ
    fd = first_free (drop start f.fd) start

    low : Lowest (drop start f.fd) start fd
    low = first_free-Lowest (drop start f.fd) start

    taken : (i : ℕ) → start ≤ i → i < fd → entry f.fd i ≢ none
    taken i from lt e =
        let same : start + (i - start) ≡ i = omega arith in
        low.taken (i - start) (omega arith) (ground (arith, entry-drop start (i - start) f.fd))

    nil : entry f.fd fd ≡ none
    nil =
        let same : start + (fd - start) ≡ fd = omega (arith, low.from) in
        ground (arith, low.nil, entry-drop start (fd - start) f.fd)

    free : (f' : Fgrp) → Grown f fd f' → Free f start fd f'
    free f' g = record {
      grown = g;
      from = low.from;
      within = omega (arith, low.inside, length-drop start f.fd, w.entries);
      nil = nil;
      taken = taken;
    }

    found :
        (f' : Fgrp)
        → growfd memory f fd ≡ some f'
        → Grown f fd f'
        → findfreefd memory f start ≡ some (fd, f')
    found f' e g = elim (dec_lt fd f.nfd) [
      | yes inside ↦ unfold growfd in ground (arith, e)
      | no outside ↦ ground (arith, e)
    ]
