-- ===== src/Lock/Rw/Leave.antt =====
-- Giving `x` and `k` back keeps the invariant, whoever is woken.
use drawterm.Prelude.{
  ℕ, ◌-◌, ◌<◌, ◌≡◌, ◌⊎◌, inl, inr, refl, true, false, none, some, List, [], ◌∷◌, ◌==◌, arith,
  Bool-cases,
}
use drawterm.Lock.Abstract.{release}
use drawterm.Lock.Queue.{Distinct}
use drawterm.Lock.Rw.{
  Place, outside, counted, reading, writing, leaving, resume, RwLock, move, leave_x, leave_k,
  uncount_reader,
}
use drawterm.Lock.Rw.Count.{count-move}
use drawterm.Lock.Rw.Inv.{at_x, at_k, Waiters, Inv, Waiters-fresh, Waiters-move}
use drawterm.Lock.Rw.Take.{writer_alone}

-- Who gives `x` back, and where it goes on.
abbrev pub Leaves : Place → Place → Type 0
Leaves p after = ((p ≡ counted) × (after ≡ reading)) ⊎ ((p ≡ leaving) × (after ≡ outside))

leave_x_alone :
    (n : ℕ) (s : RwLock) (i : ℕ) (after : Place)
    → Inv n s
    → i < n
    → Leaves (s.place i) after
    → s.x.waiting ≡ []
    → Inv n (record s { x = record s.x { hold = none }; place = move s.place i after })
leave_x_alone n s i after v h g e =
    let fresh_k = Waiters-fresh n at_k s.place s.k.waiting i (ground arith) v.queue_k in
    record {
      holder = λ j f. ground (arith, v.holder j, v.holder i);
      queue_x = rw e tt;
      distinct_x = v.distinct_x;
      queue_k = Waiters-move n at_k s.place s.k.waiting i after fresh_k v.queue_k;
      distinct_k = v.distinct_k;
      total = ground (arith, v.total, count-move n s.place i after h);
      guarded = v.guarded;
      writer = λ j f. ground (arith, v.writer j);
    }

leave_x_handed :
    (n : ℕ) (s : RwLock) (i : ℕ) (after : Place) (p : ℕ) (rest : List ℕ)
    → Inv n s
    → i < n
    → Leaves (s.place i) after
    → Waiters n at_x s.place (p ∷ rest)
    → Distinct (p ∷ rest)
    → Inv n (record s {
      x = record { hold = some p; waiting = rest };
      place = move (move s.place p (resume (s.place p))) i after;
    })
leave_x_handed n s i after p rest v h g w d =
    let place : ℕ → Place = move s.place p (resume (s.place p)) in
    let wp : at_x (s.place p) ≡ true = w.0.1 in
    let i_rest = Waiters-fresh n at_x s.place rest i (ground arith) w.1 in
    let i_k = Waiters-fresh n at_k s.place s.k.waiting i (ground arith) v.queue_k in
    let p_k = Waiters-fresh n at_k s.place s.k.waiting p (ground arith) v.queue_k in
    let apart : (i == p) ≡ false = ground arith in
    record {
      holder = λ j f. ground (arith, v.holder j, v.holder i);
      queue_x =
          Waiters-move n at_x place rest i after i_rest
            (Waiters-move n at_x s.place rest p (resume (s.place p)) d.0 w.1);
      distinct_x = d.1;
      queue_k =
          Waiters-move n at_k place s.k.waiting i after i_k
            (Waiters-move n at_k s.place s.k.waiting p (resume (s.place p)) p_k v.queue_k);
      distinct_k = v.distinct_k;
      total = ground (
        arith,
        v.total,
        count-move n s.place p (resume (s.place p)) w.0.0,
        count-move n place i after h,
      );
      guarded = v.guarded;
      writer = λ j f. ground (arith, v.writer j);
    }

pub leave_x_at :
    (n : ℕ) (s : RwLock) (i : ℕ) (after : Place) (ws : List ℕ)
    → Inv n s
    → i < n
    → Leaves (s.place i) after
    → s.x.waiting ≡ ws
    → Inv n (leave_x s i after)
unfolding leave_x release
leave_x_at n s i after [] v h g e = rw (e, leave_x, release) (leave_x_alone n s i after v h g e)
leave_x_at n s i after (p ∷ rest) v h g e =
    rw (e, leave_x, release)
      (leave_x_handed n s i after p rest v h g (rw e at v.queue_x) (rw e at v.distinct_x))

-- Nobody waits for `k` while a writer has it.
no-Waiters :
    (n : ℕ) (s : RwLock) (i : ℕ) (ws : List ℕ)
    → Inv n s
    → s.place i ≡ writing
    → Waiters n at_k s.place ws
    → ws ≡ []
no-Waiters n s i [] v at w = refl
no-Waiters n s i (p ∷ rest) v at w = ground (arith, w.0, v.holder p, v.holder i)

pub wunlock-Inv :
    (n : ℕ) (s : RwLock) (i : ℕ)
    → Inv n s
    → i < n
    → s.place i ≡ writing
    → Inv n (leave_k s i leaving)
unfolding leave_k release
wunlock-Inv n s i v h at =
    let none_waits = no-Waiters n s i s.k.waiting v at v.queue_k in
    let fresh_x = Waiters-fresh n at_x s.place s.x.waiting i (rw at refl) v.queue_x in
    rw (none_waits, leave_k, release)
      (record {
        holder = λ j f. ground (arith, v.holder j, v.holder i);
        queue_x = Waiters-move n at_x s.place s.x.waiting i leaving fresh_x v.queue_x;
        distinct_x = v.distinct_x;
        queue_k = rw none_waits tt;
        distinct_k = v.distinct_k;
        total = ground (arith, v.total, count-move n s.place i leaving h);
        guarded = λ f. ground (arith, v.writer i at);
        writer = λ j f. ground (arith, writer_alone n s i j v);
      })

-- The last reader gives `k` to nobody, or to the writer that waits for it.
last_alone :
    (n : ℕ) (s : RwLock) (i : ℕ)
    → Inv n s
    → i < n
    → s.place i ≡ reading
    → s.readers ≡ 1
    → s.k.waiting ≡ []
    → Inv n (record s {
      readers = s.readers - 1;
      k = record s.k { hold = none };
      place = move s.place i outside;
    })
last_alone n s i v h at one e =
    let fresh_x = Waiters-fresh n at_x s.place s.x.waiting i (rw at refl) v.queue_x in
    record {
      holder = λ j f. ground (arith, v.holder j);
      queue_x = Waiters-move n at_x s.place s.x.waiting i outside fresh_x v.queue_x;
      distinct_x = v.distinct_x;
      queue_k = rw e tt;
      distinct_k = v.distinct_k;
      total = ground (arith, v.total, count-move n s.place i outside h);
      guarded = λ f. omega arith;
      writer = λ j f. ground (arith, v.writer j);
    }

last_handed :
    (n : ℕ) (s : RwLock) (i p : ℕ) (rest : List ℕ)
    → Inv n s
    → i < n
    → s.place i ≡ reading
    → s.readers ≡ 1
    → Waiters n at_k s.place (p ∷ rest)
    → Distinct (p ∷ rest)
    → Inv n (record s {
      readers = s.readers - 1;
      k = record { hold = some p; waiting = rest };
      place = move (move s.place p (resume (s.place p))) i outside;
    })
last_handed n s i p rest v h at one w d =
    let place : ℕ → Place = move s.place p (resume (s.place p)) in
    let wp : at_k (s.place p) ≡ true = w.0.1 in
    let i_rest = Waiters-fresh n at_k s.place rest i (rw at refl) w.1 in
    let i_x = Waiters-fresh n at_x s.place s.x.waiting i (rw at refl) v.queue_x in
    let p_x = Waiters-fresh n at_x s.place s.x.waiting p (ground arith) v.queue_x in
    let apart : (i == p) ≡ false = ground arith in
    record {
      holder = λ j f. ground (arith, v.holder j, v.holder p);
      queue_x =
          Waiters-move n at_x place s.x.waiting i outside i_x
            (Waiters-move n at_x s.place s.x.waiting p (resume (s.place p)) p_x v.queue_x);
      distinct_x = v.distinct_x;
      queue_k =
          Waiters-move n at_k place rest i outside i_rest
            (Waiters-move n at_k s.place rest p (resume (s.place p)) d.0 w.1);
      distinct_k = d.1;
      total = ground (
        arith,
        v.total,
        count-move n s.place p (resume (s.place p)) w.0.0,
        count-move n place i outside h,
      );
      guarded = λ f. omega arith;
      writer = λ j f. ground (arith, v.writer j);
    }

last_at :
    (n : ℕ) (s : RwLock) (i : ℕ) (ws : List ℕ)
    → Inv n s
    → i < n
    → s.place i ≡ reading
    → s.readers ≡ 1
    → s.k.waiting ≡ ws
    → Inv n (leave_k (record s { readers = s.readers - 1 }) i outside)
unfolding leave_k release
last_at n s i [] v h at one e = rw (e, leave_k, release) (last_alone n s i v h at one e)
last_at n s i (p ∷ rest) v h at one e =
    rw (e, leave_k, release)
      (last_handed n s i p rest v h at one (rw e at v.queue_k) (rw e at v.distinct_k))

more_readers :
    (n : ℕ) (s : RwLock) (i : ℕ)
    → Inv n s
    → i < n
    → s.place i ≡ reading
    → Inv n (record s { readers = s.readers - 1; place = move s.place i outside })
more_readers n s i v h at =
    let fresh_x = Waiters-fresh n at_x s.place s.x.waiting i (rw at refl) v.queue_x in
    let fresh_k = Waiters-fresh n at_k s.place s.k.waiting i (rw at refl) v.queue_k in
    record {
      holder = λ j f. ground (arith, v.holder j);
      queue_x = Waiters-move n at_x s.place s.x.waiting i outside fresh_x v.queue_x;
      distinct_x = v.distinct_x;
      queue_k = Waiters-move n at_k s.place s.k.waiting i outside fresh_k v.queue_k;
      distinct_k = v.distinct_k;
      total = ground (arith, v.total, count-move n s.place i outside h);
      guarded = λ f. ground (arith, v.guarded f);
      writer = λ j f. ground (arith, v.writer j);
    }

pub runlock-Inv :
    (n : ℕ) (s : RwLock) (i : ℕ)
    → Inv n s
    → i < n
    → s.place i ≡ reading
    → Inv n (uncount_reader s i)
unfolding uncount_reader
runlock-Inv n s i v h at = elim (Bool-cases (s.readers == 1)) [
  | inl last ↦ rw last (last_at n s i s.k.waiting v h at (ground arith) refl)
  | inr others ↦ rw others (more_readers n s i v h at)
]
