-- ===== src/Fd.antt =====
-- kern/sysfile.c and kern/pgrp.c: the table of open files of a process group, and the references
-- that it holds on channels.
pub mod Table
pub mod Invariant
pub mod Operations
pub mod References
pub mod Dup
pub mod Close
pub mod Fork
pub mod Lookup
mod Tests
use Prim.Native.Nat.{bit_and, bit_or}
use drawterm.Prelude.{
  ℕ, zero, suc, ◌+◌, ◌-◌, ◌*◌, ◌/◌, ◌%◌, Bool, true, false, not, ◌&&◌, ◌||◌, Option, none, some,
  List, [], ◌∷◌, ◌++◌, drop, ltb, leb, ◌==◌, if◌then◌else◌,
}

-- A C `int`, by the library's names: `negsuc n` is -1 - n.
pub data ℤ : Type 0 where
  pos negsuc : ℕ → ℤ

-- `Ebadfd`, `Ebadusefd`, `Enofd` and `Enomem`.
pub data Err : Type 0 where
  ebadfd ebadusefd enofd enomem : Err

-- `error(e)` leaves the call by the error label.
pub data Result (A : Type 0) : Type 0 where
  ok : A → Result A
  error : Err → Result A

-- A channel is its number; an entry of the table is a channel or nil.
abbrev pub Entries : Type 0
Entries = List (Option ℕ)

pub record Fgrp : Type 0 where
  pub fd : Entries
  pub flag : List ℕ
  pub nfd : ℕ
  pub maxfd : ℕ
  pub exceed : ℕ

-- What the calls read of a channel, and its reference count.
pub record Chan : Type 0 where
  pub ref : ℕ
  pub mode : ℕ
  pub flag : ℕ

-- `panicked` is set where the code calls `panic`.
pub record State : Type 0 where
  pub fgrp : Fgrp
  pub chan : ℕ → Chan
  pub panicked : Bool

abbrev pub delta_fd : ℕ
delta_fd = 20

abbrev pub fd_limit : ℕ
fd_limit = 5000

abbrev pub ordwr : ℕ
ordwr = 2

abbrev pub otrunc : ℕ
otrunc = 16

abbrev pub ocexec : ℕ
ocexec = 32

abbrev pub cmsg : ℕ
cmsg = 2

abbrev pub cfree : ℕ
cfree = 16

abbrev pub ccexec : ℕ
ccexec = 8

-- `f->fd[fd]`, nil behind the end; every read of the code is behind a test of `fd`.
abbrev pub entry : Entries → ℕ → Option ℕ
entry [] i = none
entry (x ∷ xs) zero = x
entry (x ∷ xs) (suc i) = entry xs i

abbrev pub flag_at : List ℕ → ℕ → ℕ
flag_at [] i = 0
flag_at (x ∷ xs) zero = x
flag_at (x ∷ xs) (suc i) = flag_at xs i

abbrev pub put {ℓ} : {A : Type ℓ} → ℕ → A → List A → List A
put i v [] = []
put zero v (x ∷ xs) = v ∷ xs
put (suc i) v (x ∷ xs) = x ∷ put i v xs

-- `malloc` clears the memory.
abbrev pub filled {ℓ} : {A : Type ℓ} → ℕ → A → List A
filled zero v = []
filled (suc n) v = v ∷ filled n v

unfoldable pub unlockfgrp : Fgrp → Fgrp
unlockfgrp f = record f { exceed = 0 }

-- `if(fd > f->maxfd) ...` of `growfd`.
unfoldable pub raise_maxfd : ℕ → Fgrp → Fgrp
raise_maxfd fd f =
    if ltb f.maxfd fd
    then record f {
      exceed = if ltb (f.maxfd / 100) (fd / 100) then fd / 100 * 100 else f.exceed;
      maxfd = fd;
    }
    else f

-- `none` is -1. The Boolean says whether `malloc` has memory.
unfoldable pub growfd : Bool → Fgrp → ℕ → Option Fgrp
growfd memory f fd =
    if ltb fd f.nfd
    then some f
    else if leb (f.nfd + delta_fd) fd
    then none
    else if leb fd_limit f.nfd
    then none
    else if memory
    then some (
        raise_maxfd fd (record f {
          fd = f.fd ++ filled delta_fd none;
          flag = f.flag ++ filled delta_fd 0;
          nfd = f.nfd + delta_fd;
        }))
    else none

-- The loop of `findfreefd`, over the entries from `fd` on.
unfoldable pub first_free : Entries → ℕ → ℕ
first_free [] fd = fd
first_free (none ∷ xs) fd = fd
first_free (some c ∷ xs) fd = first_free xs (suc fd)

unfoldable pub findfreefd : Bool → Fgrp → ℕ → Option (ℕ × Fgrp)
findfreefd memory f start =
    let fd = first_free (drop start f.fd) start in
    if leb f.nfd fd
    then (elim (growfd memory f fd) [ none ↦ none | some f' ↦ some (fd, f') ])
    else some (fd, f)

-- `if(fd > f->maxfd) f->maxfd = fd;`
abbrev pub cover : ℕ → Fgrp → Fgrp
cover fd f = record f { maxfd = if ltb f.maxfd fd then fd else f.maxfd }

-- `f->fd[fd] = c; f->flag[fd] = flag;`
abbrev pub set_entry : ℕ → Option ℕ → ℕ → Fgrp → Fgrp
set_entry fd c flag f = record f { fd = put fd c f.fd; flag = put fd flag f.flag }

unfoldable pub exec_flag : ℕ → ℕ
exec_flag mode = if bit_and mode ocexec == 0 then 0 else ccexec

-- The descriptor, or `none` for -1.
unfoldable pub newfd : Bool → ℕ → ℕ → Fgrp → Option ℕ × Fgrp
newfd memory c mode f = elim (findfreefd memory f 0) [
  | none ↦ (none, unlockfgrp f)
  | some (fd, f') ↦ (some fd, unlockfgrp (set_entry fd (some c) (exec_flag mode) (cover fd f')))
]

-- The second search leaves the table as the first one grew it, if it fails.
unfoldable pub newfd2 : Bool → ℕ → ℕ → Fgrp → Option (ℕ × ℕ) × Fgrp
newfd2 memory c0 c1 f = elim (findfreefd memory f 0) [
  | none ↦ (none, unlockfgrp f)
  | some (fd0, f0) ↦ elim (findfreefd memory f0 (suc fd0)) [
    | none ↦ (none, unlockfgrp f0)
    | some (fd1, f1) ↦ (
      some (fd0, fd1),
      unlockfgrp (set_entry fd1 (some c1) 0 (set_entry fd0 (some c0) 0 (cover fd1 f1))),
    )
  ]
]

abbrev pub set_ref : ℕ → ℕ → State → State
set_ref c n s = record s { chan = λ d. if d == c then record (s.chan d) { ref = n } else s.chan d }

unfoldable pub incref : ℕ → State → State
incref c s = set_ref c ((s.chan c).ref + 1) s

-- `chanfree`: what it frees is not in the state.
unfoldable pub chanfree : ℕ → State → State
chanfree c s = record s {
  chan = λ d. if d == c then record (s.chan d) { flag = cfree } else s.chan d;
}

unfoldable pub is_freed : ℕ → Bool
is_freed flag = not (bit_and flag cfree == 0)

-- The close of the device, when the last reference goes, is not in the state.
unfoldable pub cclose : ℕ → State → State
cclose c s =
    if ltb (s.chan c).ref 1 || is_freed (s.chan c).flag
    then record s { panicked = true }
    else (let s' = set_ref c ((s.chan c).ref - 1) s in
        if (s.chan c).ref == 1 then chanfree c s' else s')

unfoldable pub cclose_entry : Option ℕ → State → State
cclose_entry none s = s
cclose_entry (some c) s = cclose c s

-- `if(iref) cclose(c); error(Ebadusefd);`
unfoldable pub refuse : ℕ → Bool → State → Result ℕ × State
refuse c iref s = (error ebadusefd, if iref then cclose c s else s)

-- The tests of `fdtochan` on the mode. `mode & ~OTRUNC` is `mode` less that bit.
unfoldable pub check_mode : ℕ → ℤ → Bool → State → Result ℕ × State
check_mode c (negsuc m) iref s = (ok c, s)
check_mode c (pos m) iref s =
    let mode = (s.chan c).mode in
    if mode == ordwr
    then (ok c, s)
    else if not (bit_and m otrunc == 0) && mode == 0
    then refuse c iref s
    else if m - bit_and m otrunc == mode
    then (ok c, s)
    else refuse c iref s

unfoldable pub check_chan : ℕ → ℤ → Bool → Bool → State → Result ℕ × State
check_chan c mode chkmnt iref s =
    if chkmnt && not (bit_and (s.chan c).flag cmsg == 0)
    then refuse c iref s
    else check_mode c mode iref s

-- `fd<0 || f->nfd<=fd || (c = f->fd[fd])==nil`
unfoldable pub lookup_fd : ℤ → Fgrp → Option ℕ
lookup_fd (negsuc n) f = none
lookup_fd (pos fd) f = if leb f.nfd fd then none else entry f.fd fd

unfoldable pub fdtochan : ℤ → ℤ → Bool → Bool → State → Result ℕ × State
fdtochan fd mode chkmnt iref s = elim (lookup_fd fd s.fgrp) [
  | none ↦ (error ebadfd, s)
  | some c ↦ check_chan c mode chkmnt iref (if iref then incref c s else s)
]

-- The branch of `_sysdup` that is told where to put the channel.
unfoldable pub dup_to : Bool → ℕ → ℤ → State → Result ℤ × State
dup_to memory c (negsuc n) s = (error ebadfd, cclose c (record s { fgrp = unlockfgrp s.fgrp }))
dup_to memory c (pos fd) s = elim (growfd memory s.fgrp fd) [
  | none ↦ (error ebadfd, cclose c (record s { fgrp = unlockfgrp s.fgrp }))
  | some f ↦ (
    ok (pos fd),
    cclose_entry (entry f.fd fd)
        (record s { fgrp = unlockfgrp (set_entry fd (some c) 0 (cover fd f)) }),
  )
]

-- The branch that takes the lowest free descriptor.
unfoldable pub dup_new : Bool → ℕ → State → Result ℤ × State
dup_new memory c s =
    let (fd, f) = newfd memory c 0 s.fgrp in
    let s' = record s { fgrp = f } in
    elim fd [ none ↦ (error enofd, cclose c s') | some n ↦ (ok (pos n), s') ]

-- `if(fd != -1) ... else ...`
unfoldable pub dup_chan : Bool → ℕ → ℤ → State → Result ℤ × State
dup_chan memory c (negsuc zero) s = dup_new memory c s
dup_chan memory c fd1 s = dup_to memory c fd1 s

unfoldable pub sysdup : Bool → ℤ → ℤ → State → Result ℤ × State
sysdup memory fd0 fd1 s =
    let (r, s') = fdtochan fd0 (negsuc 0) false true s in
    elim r [ ok c ↦ dup_chan memory c fd1 s' | error e ↦ (error e, s') ]

-- `while(fd > 0 && f->fd[fd] == nil) f->maxfd = --fd;`
unfoldable pub lower : Entries → ℕ → ℕ
lower xs zero = zero
lower xs (suc fd) =
    let rest = lower xs fd in elim (entry xs (suc fd)) [ none ↦ rest | some c ↦ suc fd ]

-- The table without the entry.
unfoldable pub remove_entry : ℕ → Fgrp → Fgrp
remove_entry fd f =
    let xs = put fd none f.fd in
    record f { fd = xs; maxfd = if fd == f.maxfd then lower xs fd else f.maxfd }

-- `flag != 0 && ((f->flag[fd]|c->flag)&flag) == 0`
unfoldable pub keeps_open : ℕ → ℕ → ℕ → State → Bool
keeps_open fd c flag s =
    not (flag == 0) && bit_and (bit_or (flag_at s.fgrp.flag fd) (s.chan c).flag) flag == 0

unfoldable pub fdclose : ℕ → ℕ → State → State
fdclose fd flag s = elim (if leb fd s.fgrp.maxfd then entry s.fgrp.fd fd else none) [
  | none ↦ s
  | some c ↦
      if keeps_open fd c flag s then s else cclose c (record s { fgrp = remove_entry fd s.fgrp })
]

-- `fdtochan` has thrown a negative descriptor out.
unfoldable pub close_found : ℤ → State → State
close_found (negsuc n) s = s
close_found (pos fd) s = fdclose fd 0 s

unfoldable pub sysclose : ℤ → State → Result ℕ × State
sysclose fd s =
    let (r, s') = fdtochan fd (negsuc 0) false false s in
    elim r [ ok c ↦ (ok 0, close_found fd s') | error e ↦ (error e, s') ]

-- `f->maxfd+1`, rounded up to a multiple of `DELTAFD`.
unfoldable pub quantized : ℕ → ℕ
quantized maxfd =
    let n = maxfd + 1 in if n % delta_fd == 0 then n else n + (delta_fd - n % delta_fd)

-- The loop of `dupfgrp`, over the first `n` entries of both arrays: the entries, their flags, and
-- the channels with their references.
unfoldable pub copy_entries : ℕ → Entries → List ℕ → State → (Entries × List ℕ) × State
copy_entries zero xs flags s = (([], []), s)
copy_entries (suc n) xs flags s =
    let ((ys, gs), s') = copy_entries n (drop 1 xs) (drop 1 flags) s in
    elim (entry xs 0) [
      | none ↦ ((none ∷ ys, 0 ∷ gs), s')
      | some c ↦ ((some c ∷ ys, flag_at flags 0 ∷ gs), incref c s')
    ]

-- `dupfgrp` of no table: an empty one, or `none` for `error(Enomem)`.
unfoldable pub dupfgrp_nil : Bool → Option Fgrp
dupfgrp_nil memory =
    if memory
    then some (record {
      fd = filled delta_fd none;
      flag = filled delta_fd 0;
      nfd = delta_fd;
      maxfd = 0;
      exceed = 0;
    })
    else none

-- `dupfgrp` of a table: a copy, or `none` for `error(Enomem)`.
unfoldable pub dupfgrp : Bool → State → Option Fgrp × State
dupfgrp memory s =
    let f = s.fgrp in
    let n = quantized f.maxfd in
    let ((ys, gs), s') = copy_entries (f.maxfd + 1) f.fd f.flag s in
    if memory
    then (
      some (record {
        fd = ys ++ filled (n - (f.maxfd + 1)) none;
        flag = gs ++ filled (n - (f.maxfd + 1)) 0;
        nfd = n;
        maxfd = f.maxfd;
        exceed = 0;
      }),
      s',
    )
    else (none, s)
