-- ===== src/Lock/Rw/Take.antt =====
-- Getting `x`, counting a reader and getting `k` keep the invariant.
use drawterm.Prelude.{
  ℕ, ◌<◌, ◌≡◌, ◌⊎◌, inl, inr, refl, true, none, some, [], ◌∷◌, ◌++◌, arith, Option-cases,
}
use drawterm.Lock.Abstract.{acquire, try_acquire}
use drawterm.Lock.Queue.{Distinct-append}
use drawterm.Lock.Rw.{
  Place, outside, read_waits, has_read, counted, write_waits, has_write, waits_k, writing, RwLock,
  move, take_x, count_reader, take_k,
}
use drawterm.Lock.Rw.Count.{count-move}
use drawterm.Lock.Rw.Inv.{holds_x, at_x, at_k, Inv, Waiters-fresh, Waiters-move, Waiters-append}

-- `x` is free: the caller gets it.
take_free :
    (n : ℕ) (s : RwLock) (i : ℕ) (got : Place)
    → Inv n s
    → i < n
    → s.place i ≡ outside
    → s.x.hold ≡ none
    → (got ≡ has_read) ⊎ (got ≡ has_write)
    → Inv n (record s { x = record s.x { hold = some i }; place = move s.place i got })
take_free n s i got v h at free g =
    let fresh_x = Waiters-fresh n at_x s.place s.x.waiting i (rw at refl) v.queue_x in
    let fresh_k = Waiters-fresh n at_k s.place s.k.waiting i (rw at refl) v.queue_k in
    record {
      holder = λ j e. ground (arith, v.holder j);
      queue_x = Waiters-move n at_x s.place s.x.waiting i got fresh_x v.queue_x;
      distinct_x = v.distinct_x;
      queue_k = Waiters-move n at_k s.place s.k.waiting i got fresh_k v.queue_k;
      distinct_k = v.distinct_k;
      total = ground (arith, v.total, count-move n s.place i got h);
      guarded = v.guarded;
      writer = λ j e. ground (arith, v.writer j);
    }

take_busy :
    (n : ℕ) (s : RwLock) (i : ℕ) (waits : Place)
    → Inv n s
    → i < n
    → s.place i ≡ outside
    → (waits ≡ read_waits) ⊎ (waits ≡ write_waits)
    → Inv n (record s {
      x = record s.x { waiting = s.x.waiting ++ (i ∷ []) };
      place = move s.place i waits;
    })
take_busy n s i waits v h at g =
    let fresh_x = Waiters-fresh n at_x s.place s.x.waiting i (rw at refl) v.queue_x in
    let fresh_k = Waiters-fresh n at_k s.place s.k.waiting i (rw at refl) v.queue_k in
    record {
      holder = λ j e. ground (arith, v.holder j);
      queue_x =
          Waiters-append n at_x (move s.place i waits) s.x.waiting i h (ground arith)
            (Waiters-move n at_x s.place s.x.waiting i waits fresh_x v.queue_x);
      distinct_x = Distinct-append s.x.waiting i fresh_x v.distinct_x;
      queue_k = Waiters-move n at_k s.place s.k.waiting i waits fresh_k v.queue_k;
      distinct_k = v.distinct_k;
      total = ground (arith, v.total, count-move n s.place i waits h);
      guarded = v.guarded;
      writer = λ j e. ground (arith, v.writer j);
    }

pub take_x-Inv :
    (n : ℕ) (s : RwLock) (i : ℕ) (got waits : Place)
    → Inv n s
    → i < n
    → s.place i ≡ outside
    → (got ≡ has_read) ⊎ (got ≡ has_write)
    → (waits ≡ read_waits) ⊎ (waits ≡ write_waits)
    → Inv n (take_x s i got waits)
unfolding take_x acquire
take_x-Inv n s i got waits v h at g w = elim (Option-cases s.x.hold) [
  | inl free ↦ rw (free, take_x, acquire) (take_free n s i got v h at free g)
  | inr (p, busy) ↦ rw (busy, take_x, acquire) (take_busy n s i waits v h at w)
]

-- A writer cannot stand beside a process that holds `x`.
pub writer_alone :
    (n : ℕ) (s : RwLock) (i j : ℕ)
    → Inv n s
    → holds_x (s.place i) ≡ true
    → s.place j ≡ writing
    → i ≡ j
writer_alone n s i j v h e = ground (arith, v.holder i, v.holder j)

pub count_reader-Inv :
    (n : ℕ) (s : RwLock) (i : ℕ) → Inv n s → i < n → s.place i ≡ has_read → Inv n (count_reader s i)
unfolding count_reader try_acquire
count_reader-Inv n s i v h at =
    let fresh_x = Waiters-fresh n at_x s.place s.x.waiting i (rw at refl) v.queue_x in
    let fresh_k = Waiters-fresh n at_k s.place s.k.waiting i (rw at refl) v.queue_k in
    record {
      holder = λ j e. ground (arith, v.holder j, v.holder i);
      queue_x = ground (arith, Waiters-move n at_x s.place s.x.waiting i counted fresh_x v.queue_x);
      distinct_x = ground (arith, v.distinct_x);
      queue_k = ground (arith, Waiters-move n at_k s.place s.k.waiting i counted fresh_k v.queue_k);
      distinct_k = ground (arith, v.distinct_k);
      total = ground (arith, v.total, count-move n s.place i counted h);
      guarded = λ e. ground arith;
      writer = λ j e. ground (arith, writer_alone n s i j v);
    }

pub take_k-Inv :
    (n : ℕ) (s : RwLock) (i : ℕ) → Inv n s → i < n → s.place i ≡ has_write → Inv n (take_k s i)
unfolding take_k acquire
take_k-Inv n s i v h at =
    let fresh_x = Waiters-fresh n at_x s.place s.x.waiting i (rw at refl) v.queue_x in
    let fresh_k = Waiters-fresh n at_k s.place s.k.waiting i (rw at refl) v.queue_k in
    elim (Option-cases s.k.hold) [
      | inl free ↦
          rw (free, take_k, acquire)
            (record {
              holder = λ j e. ground (arith, v.holder j, v.holder i);
              queue_x = Waiters-move n at_x s.place s.x.waiting i writing fresh_x v.queue_x;
              distinct_x = v.distinct_x;
              queue_k = Waiters-move n at_k s.place s.k.waiting i writing fresh_k v.queue_k;
              distinct_k = v.distinct_k;
              total = ground (arith, v.total, count-move n s.place i writing h);
              guarded = λ e. cc;
              writer = λ j e. ground (arith, v.guarded free, writer_alone n s i j v);
            })
      | inr (p, busy) ↦
          rw (busy, take_k, acquire)
            (record {
              holder = λ j e. ground (arith, v.holder j, v.holder i);
              queue_x = Waiters-move n at_x s.place s.x.waiting i waits_k fresh_x v.queue_x;
              distinct_x = v.distinct_x;
              queue_k =
                  Waiters-append n at_k (move s.place i waits_k) s.k.waiting i h (ground arith)
                    (Waiters-move n at_k s.place s.k.waiting i waits_k fresh_k v.queue_k);
              distinct_k = Distinct-append s.k.waiting i fresh_k v.distinct_k;
              total = ground (arith, v.total, count-move n s.place i waits_k h);
              guarded = λ e. cc;
              writer = λ j e. ground (arith, writer_alone n s i j v);
            })
    ]
