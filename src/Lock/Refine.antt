-- ===== src/Lock/Refine.antt =====
-- The operations of kern/qlock.c, on linked waiters, are those of the abstract lock.
use drawterm.Prelude.{ℕ, ◌≡◌, ◌≢◌, refl, List, [], ◌∷◌, All, arith}
use drawterm.Lock.{Links, QLock, qlock, canqlock, qunlock}
use drawterm.Lock.Queue.{Holds, queue-Holds, dequeue_nil, dequeue-Holds}
use drawterm.Lock.Abstract.{Lock, acquire, try_acquire, release}

-- A linked lock stands for an abstract one.
pub record Represents (q : QLock) (next : Links) (l : Lock) : Type 0 where
  pub hold : q.hold ≡ l.hold
  pub waiters : Holds q next l.waiting

-- `qlock`, called by a process that is not in the queue, answers as `acquire` does and leaves a lock
-- that stands for what `acquire` leaves: the lock is taken at once if it is free, and else the
-- caller is the last of the waiters.
pub qlock_refines :
    (up : ℕ) (q : QLock) (next : Links) (l : Lock)
    → All (λ y. up ≢ y) l.waiting
    → Represents q next l
    → let (done, q', next') = qlock up q next in
      (done ≡ (acquire up l).0) × Represents q' next' (acquire up l).1
unfolding qlock acquire
qlock_refines up q next l fresh r =
    ground (arith, r.hold, r.waiters, queue-Holds up q next l.waiting fresh r.waiters)

pub canqlock_refines :
    (up : ℕ) (q : QLock) (next : Links) (l : Lock)
    → Represents q next l
    → let (done, q') = canqlock up q in
      (done ≡ (try_acquire up l).0) × Represents q' next (try_acquire up l).1
unfolding canqlock try_acquire
canqlock_refines up q next l r = ground (arith, r.hold, r.waiters)

qunlock_waiting :
    (q : QLock) (next : Links) (l : Lock) (ws : List ℕ)
    → l.waiting ≡ ws
    → Holds q next ws
    → let (woken, q') = qunlock q next in (woken ≡ (release l).0) × Represents q' next (release l).1
unfolding qunlock release
qunlock_waiting q next l [] e h = ground (arith, e, dequeue_nil q next h, h)
qunlock_waiting q next l (x ∷ xs) e h = ground (arith, e, dequeue-Holds q next x xs h)

-- `qunlock` wakes the longest waiter and makes it the holder, or frees the lock if nobody waits.
pub qunlock_refines :
    (q : QLock) (next : Links) (l : Lock)
    → Represents q next l
    → let (woken, q') = qunlock q next in (woken ≡ (release l).0) × Represents q' next (release l).1
qunlock_refines q next l r = qunlock_waiting q next l l.waiting refl r.waiters
