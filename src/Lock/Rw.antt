-- ===== src/Lock/Rw.antt =====
-- kern/rwlock.c: readers and writers, step by step, over abstract queueing locks. Each step is what
-- one process does between two points where others may run: a call of `qlock`, `canqlock` or
-- `qunlock`, or a section under `lk`.
pub mod Count
pub mod Inv
pub mod Take
pub mod Leave
pub mod Mutex
use drawterm.Prelude.{
  ℕ, ◌+◌, ◌-◌, ◌<◌, ◌≡◌, Bool, true, false, Option, none, some, List, [], ◌==◌, if◌then◌else◌,
}
use drawterm.Lock.Abstract.{Lock, acquire, try_acquire, release}

-- Where a process is. `rlock`: waiting for `x`, holding it, counted (`x` not yet released);
-- `reading` is between `rlock` and `runlock`. `wlock`: waiting for `x`, holding it, waiting for
-- `k`; `writing` is between `wlock` and `wunlock`, and `leaving` has released `k` alone.
pub data Place : Type 0 where
  outside : Place
  read_waits has_read counted reading : Place
  write_waits has_write waits_k writing leaving : Place

-- Where a sleeping process goes on when it is woken with the lock that it waits for.
abbrev pub resume : Place → Place
resume read_waits = has_read
resume write_waits = has_write
resume waits_k = writing
resume p = p

pub record RwLock : Type 0 where
  pub readers : ℕ
  pub x : Lock
  pub k : Lock
  pub place : ℕ → Place

abbrev pub move : (ℕ → Place) → ℕ → Place → ℕ → Place
move place i p j = if j == i then p else place j

-- `procwakeup`
abbrev pub wake : (ℕ → Place) → Option ℕ → ℕ → Place
wake place none = place
wake place (some p) = move place p (resume (place p))

-- `qlock(&l->x)`, called from the start of `rlock` or `wlock`.
unfoldable pub take_x : RwLock → ℕ → Place → Place → RwLock
take_x s i got waits =
    let (done, x) = acquire i s.x in
    record s { x = x; place = move s.place i (if done then got else waits) }

-- `lock(&l->lk); l->readers++; canqlock(&l->k); unlock(&l->lk);`
unfoldable pub count_reader : RwLock → ℕ → RwLock
count_reader s i =
    let (done, k) = try_acquire i s.k in
    record s { readers = s.readers + 1; k = k; place = move s.place i counted }

-- `qunlock(&l->x)`
unfoldable pub leave_x : RwLock → ℕ → Place → RwLock
leave_x s i after =
    let (woken, x) = release s.x in record s { x = x; place = move (wake s.place woken) i after }

-- `qunlock(&l->k)`
unfoldable pub leave_k : RwLock → ℕ → Place → RwLock
leave_k s i after =
    let (woken, k) = release s.k in record s { k = k; place = move (wake s.place woken) i after }

-- `runlock`: `--l->readers == 0` is a test for the last one, and a reader is counted.
unfoldable pub uncount_reader : RwLock → ℕ → RwLock
uncount_reader s i =
    let s' = record s { readers = s.readers - 1 } in
    if s.readers == 1 then leave_k s' i outside else record s' { place = move s.place i outside }

-- `qlock(&l->k)` of `wlock`.
unfoldable pub take_k : RwLock → ℕ → RwLock
take_k s i =
    let (done, k) = acquire i s.k in
    record s { k = k; place = move s.place i (if done then writing else waits_k) }

-- One step of process `i`, of the `n` that there are.
pub data Step (n : ℕ) (s : RwLock) : RwLock → Type 0 where
  rlock : (i : ℕ) → i < n → s.place i ≡ outside → Step n s (take_x s i has_read read_waits)
  rlock_count : (i : ℕ) → i < n → s.place i ≡ has_read → Step n s (count_reader s i)
  rlock_leave : (i : ℕ) → i < n → s.place i ≡ counted → Step n s (leave_x s i reading)
  runlock : (i : ℕ) → i < n → s.place i ≡ reading → Step n s (uncount_reader s i)
  wlock : (i : ℕ) → i < n → s.place i ≡ outside → Step n s (take_x s i has_write write_waits)
  wlock_k : (i : ℕ) → i < n → s.place i ≡ has_write → Step n s (take_k s i)
  wunlock : (i : ℕ) → i < n → s.place i ≡ writing → Step n s (leave_k s i leaving)
  wunlock_x : (i : ℕ) → i < n → s.place i ≡ leaving → Step n s (leave_x s i outside)

abbrev pub free : Lock
free = record { hold = none; waiting = [] }

abbrev pub start : RwLock
start = record { readers = 0; x = free; k = free; place = λ i. outside }

pub data Reach (n : ℕ) : RwLock → Type 0 where
  here : Reach n start
  next : {s t : RwLock} → Reach n s → Step n s t → Reach n t
