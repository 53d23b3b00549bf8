-- ===== src/Lock/Tests.antt =====
-- Runs of the locks, and their theorems at concrete states.
use drawterm.Prelude.{ℕ, ◌<◌, ◌≡◌, ◌≢◌, refl, none, some, [], ◌∷◌, arith}
use drawterm.Lock.{Links, QLock, dequeue, fix_last, qlock, qunlock}
use drawterm.Lock.Abstract.{Lock, acquire, release}
use drawterm.Lock.Refine.{Represents, qlock_refines, qunlock_refines}
use drawterm.Lock.Rw.{
  RwLock, writing, reading, take_x, take_k, has_write, write_waits, has_read, read_waits, Reach,
  here, next, start, rlock, wlock, wlock_k,
}
use drawterm.Lock.Rw.Count.{count}
use drawterm.Lock.Rw.Mutex.{Reach_mutex}

abbrev no_links : Links
no_links p = none

-- Process 1 has the lock, and 2 waits.
abbrev linked : QLock
linked = record { hold = some 1; first = some 2; last = some 2 }

abbrev held : Lock
held = record { hold = some 1; waiting = 2 ∷ [] }

linked-Represents : Represents linked no_links held
linked-Represents = record {
  hold = refl;
  waiters = record { chain = (refl, refl); last = refl; distinct = (tt, tt) };
}

hand_over : qunlock linked no_links ≡ (some 2, record { hold = some 2; first = none; last = none })
unfolding qunlock dequeue fix_last
hand_over = refl

qlock_refines_example :
    let (done, q, links) = qlock 3 linked no_links in
    (done ≡ (acquire 3 held).0) × Represents q links (acquire 3 held).1
qlock_refines_example =
    qlock_refines 3 linked no_links held (λ e. omega arith, tt) linked-Represents

qunlock_refines_example :
    let (woken, q) = qunlock linked no_links in
    (woken ≡ (release held).0) × Represents q no_links (release held).1
qunlock_refines_example = qunlock_refines linked no_links held linked-Represents

-- Process 0 becomes a writer; then 1 asks to read, and waits.
abbrev one_writer : RwLock
one_writer = take_x (take_k (take_x start 0 has_write write_waits) 0) 1 has_read read_waits

one_writer-Reach : Reach 2 one_writer
unfolding take_x take_k acquire
one_writer-Reach =
    next (next (next here (wlock 0 (omega arith) refl)) (wlock_k 0 (omega arith) refl))
      (rlock 1 (omega arith) refl)

Reach_mutex_example :
    (one_writer.readers ≡ count 2 one_writer.place)
    × ((i j : ℕ)
        → j < 2
        → i ≢ j
        → one_writer.place i ≡ writing
        → (one_writer.place j ≢ writing) × (one_writer.place j ≢ reading))
Reach_mutex_example = Reach_mutex 2 one_writer one_writer-Reach
