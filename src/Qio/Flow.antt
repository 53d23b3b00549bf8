-- ===== src/Qio/Flow.antt =====
-- `qflow`: a writer that waits until the queue has drained.
use drawterm.Prelude.{
  ℕ, zero, suc, ◌^◌, ◌<◌, ◌≤◌, ◌≡◌, inl, inr, refl, ap, sym, ◌∙◌, Bool, true, false, Option, none,
  some, List, [], ◌++◌, append_assoc, append-nil, Bool-cases, arith, if◌then◌else◌,
}
use drawterm.Qio.{Queue, sub32, wakes_writer, signal, is_above, iunlock_consumer}
use drawterm.Qio.Write.{unblocked, qflow, flow_control, qflush}
use drawterm.Qio.Kept.{contents, consumer-Same}

-- A queue that takes in all that is written to it.
pub record IsOpen (q : Queue) : Type 0 where
  pub bypass : q.bypass ≡ false
  pub closed : q.closed ≡ false
  pub noblock : q.noblock ≡ false

-- From `q` to `r` bytes went out in front, and the queue is still one that takes in what is written.
pub record Drained (q r : Queue) : Type 0 where
  pub still_open : IsOpen q → IsOpen r
  pub msg : r.msg ≡ q.msg
  pub wp : r.wp ≡ q.wp
  pub taken : List ℕ
  pub order : taken ++ contents r.blocks ≡ contents q.blocks

-- What the other processes do while a writer sleeps: they only take bytes out, in front, and where the
-- writer has to wait they bring the queue nearer to its position.
pub record Drains (others : Queue → Queue) : Type 0 where
  pub drained : (q : Queue) → Drained q (others q)
  pub nearer : (q : Queue) → unblocked q.wp q ≡ false → sub32 q.wp (others q).rp < sub32 q.wp q.rp

pub Drained-refl : (q : Queue) → Drained q q
Drained-refl q = record { still_open = λ o. o; msg = refl; wp = refl; taken = []; order = refl }

Drained-trans : {q r s : Queue} → Drained q r → Drained r s → Drained q s
Drained-trans {q} {r} {s} d e = record {
  still_open = λ o. e.still_open (d.still_open o);
  msg = e.msg ∙ d.msg;
  wp = e.wp ∙ d.wp;
  taken = d.taken ++ e.taken;
  order =
      append_assoc d.taken e.taken (contents s.blocks) ∙ ap (λ z. d.taken ++ z) e.order ∙ d.order;
}

-- The wait is over, with the queue `r`.
abbrev pub Over : Queue → Option Queue → Type 0
Over q o = (r : Queue) × ((o ≡ some r) × Drained q r)

qflow_near :
    (rounds : ℕ) (others : Queue → Queue) (p : ℕ) (q : Queue)
    → Drains others
    → p ≡ q.wp
    → sub32 q.wp q.rp < rounds
    → Over q (qflow rounds others p q)
unfolding qflow
qflow_near zero others p q d at near = absurd (omega arith)
qflow_near (suc rounds) others p q d at near = elim (Bool-cases (unblocked p q)) [
  | inl free ↦ (q, (rw (qflow, free) refl, Drained-refl q))
  | inr blocked ↦
      let one = d.drained q in
      let less = d.nearer q (rw at at blocked) in
      let (r, (found, rest)) =
        qflow_near rounds others p (others q) d (at ∙ sym one.wp)
          (rw one.wp (omega (arith, less, near))) in
      (r, (rw (qflow, blocked) found, Drained-trans one rest))
]

blocked-near : (p : ℕ) (q : Queue) → unblocked p q ≡ false → sub32 p q.rp < 2 ^ 31
unfolding unblocked
blocked-near p q e = ground (arith, e)

unblocked-qflow :
    (rounds : ℕ) (others : Queue → Queue) (p : ℕ) (q : Queue)
    → unblocked p q ≡ true
    → qflow rounds others p q ≡ some q
unfolding qflow
unblocked-qflow zero others p q e = rw (qflow, e) refl
unblocked-qflow (suc rounds) others p q e = rw (qflow, e) refl

-- With 2 ^ 31 sleeps at most, a writer at the end of the queue gets through.
qflow_lem :
    (rounds : ℕ) (others : Queue → Queue) (p : ℕ) (q : Queue)
    → Drains others
    → 2 ^ 31 ≤ rounds
    → p ≡ q.wp
    → Over q (qflow rounds others p q)
qflow_lem rounds others p q d enough at = elim (Bool-cases (unblocked p q)) [
  | inl free ↦ (q, (unblocked-qflow rounds others p q free, Drained-refl q))
  | inr blocked ↦
      let near : sub32 q.wp q.rp < 2 ^ 31 = rw at at (blocked-near p q blocked) in
      qflow_near rounds others p q d at (omega (arith, near, enough))
]

pub flow_control_lem :
    (rounds : ℕ) (others : Queue → Queue) (full : Bool) (p : ℕ) (q : Queue)
    → Drains others
    → 2 ^ 31 ≤ rounds
    → p ≡ q.wp
    → Over q (flow_control rounds others (if full then some p else none) q)
unfolding flow_control
flow_control_lem rounds others true p q d enough at = qflow_lem rounds others p q d enough at
flow_control_lem rounds others false p q d enough at = (q, (refl, Drained-refl q))

consumer-IsOpen : (q : Queue) → IsOpen q → IsOpen (iunlock_consumer q)
unfolding iunlock_consumer
consumer-IsOpen q o = go q.flow (is_above q)
  where
    go :
        (full above : Bool)
        → IsOpen (signal full wakes_writer (if above then q else record q { flow = false }))
    go true true = record { bypass = o.bypass; closed = o.closed; noblock = o.noblock }
    go true false = record { bypass = o.bypass; closed = o.closed; noblock = o.noblock }
    go false true = o
    go false false = record { bypass = o.bypass; closed = o.closed; noblock = o.noblock }

blocked-far : (p : ℕ) (q : Queue) → unblocked p q ≡ false → 0 < sub32 p q.rp
unfolding unblocked
blocked-far p q e = ground (arith, e)

sub32_self : (a : ℕ) → sub32 a a ≡ 0
sub32_self a = omega arith

abbrev flushed : Queue → Queue
flushed q = record q { blocks = []; rp = q.wp; dlen = 0 }

qflush-Drained : (q : Queue) → Drained q (qflush q)
unfolding qflush
qflush-Drained q =
    let same = consumer-Same (flushed q) in
    record {
      still_open = λ o.
          consumer-IsOpen (flushed q)
            record { bypass = o.bypass; closed = o.closed; noblock = o.noblock };
      msg = same.msg;
      wp = same.wp;
      taken = contents q.blocks;
      order =
          ap (λ bs. contents q.blocks ++ contents bs) same.blocks ∙ append-nil (contents q.blocks);
    }

qflush-nearer : (q : Queue) → unblocked q.wp q ≡ false → sub32 q.wp (qflush q).rp < sub32 q.wp q.rp
unfolding qflush
qflush-nearer q blocked =
    rw ((consumer-Same (flushed q)).rp, sub32_self q.wp) (blocked-far q.wp q blocked)

-- A process that flushes the queue drains it.
pub qflush-Drains : Drains qflush
qflush-Drains = record { drained = qflush-Drained; nearer = qflush-nearer }
