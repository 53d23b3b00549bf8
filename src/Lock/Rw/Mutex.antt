-- ===== src/Lock/Rw/Mutex.antt =====
-- Readers and writers never meet.
use drawterm.Prelude.{ℕ, ◌<◌, ◌≡◌, ◌≢◌, inl, inr, refl, arith}
use drawterm.Lock.Rw.{
  outside, read_waits, has_read, reading, write_waits, has_write, writing, RwLock, Step, rlock,
  rlock_count, rlock_leave, runlock, wlock, wlock_k, wunlock, wunlock_x, Reach, here, next, start,
}
use drawterm.Lock.Rw.Count.{count, reads-le-count, count_start}
use drawterm.Lock.Rw.Inv.{Inv}
use drawterm.Lock.Rw.Take.{take_x-Inv, writer_alone, count_reader-Inv, take_k-Inv}
use drawterm.Lock.Rw.Leave.{leave_x_at, wunlock-Inv, runlock-Inv}

Step-Inv : (n : ℕ) {s t : RwLock} → Step n s t → Inv n s → Inv n t
Step-Inv n (rlock i h at) v = take_x-Inv n _ i has_read read_waits v h at (inl refl) (inl refl)
Step-Inv n (rlock_count i h at) v = count_reader-Inv n _ i v h at
Step-Inv n {s} (rlock_leave i h at) v =
    leave_x_at n s i reading s.x.waiting v h (inl (at, refl)) refl
Step-Inv n (runlock i h at) v = runlock-Inv n _ i v h at
Step-Inv n (wlock i h at) v = take_x-Inv n _ i has_write write_waits v h at (inr refl) (inr refl)
Step-Inv n (wlock_k i h at) v = take_k-Inv n _ i v h at
Step-Inv n (wunlock i h at) v = wunlock-Inv n _ i v h at
Step-Inv n {s} (wunlock_x i h at) v = leave_x_at n s i outside s.x.waiting v h (inr (at, refl)) refl

start-Inv : (n : ℕ) → Inv n start
start-Inv n = record {
  holder = λ i e. cc;
  queue_x = tt;
  distinct_x = tt;
  queue_k = tt;
  distinct_k = tt;
  total = omega (arith, count_start n);
  guarded = λ e. refl;
  writer = λ i e. cc;
}

pub Reach-Inv : (n : ℕ) {s : RwLock} → Reach n s → Inv n s
Reach-Inv n here = start-Inv n
Reach-Inv n (next r st) = Step-Inv n st (Reach-Inv n r)

-- In every state that any interleaving of `rlock`, `runlock`, `wlock` and `wunlock` by `n` processes
-- reaches, `readers` is the number of the processes that are counted as readers; and while one of
-- them is writing no other is writing or reading.
pub Reach_mutex :
    (n : ℕ) (s : RwLock)
    → Reach n s
    → (s.readers ≡ count n s.place)
      × ((i j : ℕ)
          → j < n
          → i ≢ j
          → s.place i ≡ writing
          → (s.place j ≢ writing) × (s.place j ≢ reading))
Reach_mutex n s r =
    let v = Reach-Inv n r in
    (
      v.total,
      λ i j hj apart w. (
        λ e. apart (writer_alone n s i j v (rw w refl) e),
        λ e. ground (arith, v.total, v.writer i w, reads-le-count n s.place j hj),
      ),
    )
