-- ===== src/Qio/Wakeup.antt =====
-- A reader that sleeps at an empty queue is woken by what ends its wait.
use drawterm.Prelude.{
  ℕ, ◌≡◌, ◌⊎◌, inl, inr, refl, ◌∙◌, Bool, true, false, ◌&&◌, ◌||◌, List, [], ◌∷◌, length, take,
  drop, leb, Bool-cases,
}
use drawterm.Qio.Blocks.{Block, new_block}
use drawterm.Qio.{
  Signal, wakes_writer, Queue, maxatomic, is_above, signal, iunlock_consumer, iunlock_producer,
  iunlock_writer, qget, drop_empty, consume, qconsume, qaddlist, qpass, qpassnolim, qproduce,
}
use drawterm.Qio.Read.{sleeps, qwait, qbread, qread}
use drawterm.Qio.Write.{
  qbwrite, iwrite_blocks, qiwrite, discard, qdiscard, qflush, qclose, qhangup, qreopen, qsetlimit,
  qnoblock,
}
use drawterm.Qio.Kept.{writer-Same, qremove-none}
use drawterm.Qio.Eof.{qread_empty}
use drawterm.Qio.Calls.{
  Call, gets, consumes, passes, passes_all, produces, reads_block, reads, writes_block, writes_now,
  discards, flushes, closes, hangs_up, reopens, sets_limit, sets_noblock, call,
}
use drawterm.Qio.Signals.{
  Woken, producer-Woken, writer-Woken, added-Woken, Woken-Adds, qaddlist_bypass, iwrite-Adds,
  closed_Woken,
}

-- Nothing can be read, the queue is open, and its flag asks the next producer to wake the reader.
pub record Waits (q : Queue) : Type 0 where
  pub starve : q.starve ≡ true
  pub empty : q.blocks ≡ []
  pub open_queue : q.closed ≡ false

signal-Waits : (called : Bool) (s : Signal) (q : Queue) → Waits q → Waits (signal called s q)
signal-Waits true s q w = record { starve = w.starve; empty = w.empty; open_queue = w.open_queue }
signal-Waits false s q w = w

consumer-Waits : (q : Queue) → Waits q → Waits (iunlock_consumer q)
unfolding iunlock_consumer
consumer-Waits q w = signal-Waits q.flow wakes_writer _ (elim (Bool-cases (is_above q)) [
  | inl e ↦ simp e w
  | inr e ↦ simp e record { starve = w.starve; empty = w.empty; open_queue = w.open_queue }
])

qpass-wakes :
    (bs : List Block) (q : Queue) → Waits q → Woken q (qpass bs q).1 ⊎ Waits (qpass bs q).1
unfolding qpass
qpass-wakes bs q w = elim (Bool-cases q.flow) [
  | inl f ↦ simp (w.open_queue, f) (inr w)
  | inr f ↦ simp (w.open_queue, f) (inl (added-Woken bs q iunlock_producer producer-Woken w.starve))
]

qbwrite-wakes :
    (bs : List Block) (q : Queue)
    → Waits q
    → q.bypass ≡ false
    → Woken q (qbwrite bs q).1 ⊎ Waits (qbwrite bs q).1
unfolding qbwrite
qbwrite-wakes bs q w y = elim (Bool-cases (q.flow && q.noblock)) [
  | inl f ↦ simp (y, w.open_queue, f) (inr w)
  | inr f ↦ simp (y, w.open_queue, f) (inl (added-Woken bs q iunlock_writer writer-Woken w.starve))
]

qiwrite-wakes :
    (rooms : ℕ → ℕ) (p : List ℕ) (q : Queue)
    → Waits q
    → q.bypass ≡ false
    → Woken q (qiwrite rooms p q).1 ⊎ Waits (qiwrite rooms p q).1
unfolding qiwrite iwrite_blocks
qiwrite-wakes rooms p q w y = elim (Bool-cases q.flow) [
  | inl full ↦ simp (y, full) (inr w)
  | inr room ↦ elim (Bool-cases (leb (length p) maxatomic || q.msg)) [
    | inl last ↦ simp (y, room, w.open_queue, last) (inl first)
    | inr more ↦
        simp (y, room, w.open_queue, more)
          (inl (
            Woken-Adds q next _ first (
              iwrite-Adds (length p) rooms (drop maxatomic p) next
                ((writer-Same (qaddlist (b ∷ []) q)).bypass ∙ qaddlist_bypass (b ∷ []) q ∙ y))))
  ]
]
  where
    b : Block
    b = new_block (rooms (length p)) (take maxatomic p)

    next : Queue
    next = iunlock_writer (qaddlist (b ∷ []) q)

    first : Woken q next
    first = added-Woken (b ∷ []) q iunlock_writer writer-Woken w.starve

qget-Waits : (q : Queue) → Waits q → Waits (qget q).1
unfolding qget
qget-Waits q w =
    rw (qget, qremove-none q w.empty)
      record { starve = refl; empty = w.empty; open_queue = w.open_queue }

qconsume-Waits : (len : ℕ) (q : Queue) → Waits q → Waits (qconsume len q).1
unfolding qconsume drop_empty consume
qconsume-Waits len q w =
    simp w.empty
      (consumer-Waits _ record { starve = refl; empty = refl; open_queue = w.open_queue })

qwait_sleeps : (q : Queue) → Waits q → qwait q ≡ (sleeps, record q { starve = true })
unfolding qwait
qwait_sleeps q w = rw (w.empty, w.open_queue) refl

qwait-Waits : (q : Queue) → Waits q → Waits (qwait q).1
qwait-Waits q w =
    rw (qwait_sleeps q w) record { starve = refl; empty = w.empty; open_queue = w.open_queue }

qbread-Waits : (room len : ℕ) (q : Queue) → Waits q → Waits (qbread room len q).1
unfolding qbread
qbread-Waits room len q w = rw (qbread, qremove-none q w.empty) (qwait-Waits q w)

qread-Waits : (room len : ℕ) (q : Queue) → Waits q → Waits (qread room len q).1
qread-Waits room len q w = rw (qread_empty room len q w.empty) (qwait-Waits q w)

qdiscard-Waits : (len : ℕ) (q : Queue) → Waits q → Waits (qdiscard len q).1
unfolding qdiscard discard
qdiscard-Waits len q w =
    simp w.empty
      (consumer-Waits _ record { starve = w.starve; empty = refl; open_queue = w.open_queue })

-- While a reader sleeps at a queue that is empty and open, with the flag Qstarve that it has set,
-- every call either wakes it or leaves the queue empty and open, with the flag set: what gives it
-- something to read, or closes the queue, is not missed.
pub call_wakes :
    (c : Call) (q : Queue)
    → Waits q
    → q.bypass ≡ false
    → Woken q (call c q).queue ⊎ Waits (call c q).queue
unfolding call qproduce qhangup qreopen qsetlimit qnoblock qpassnolim qflush qclose
call_wakes gets q w y = inr (qget-Waits q w)
call_wakes (consumes len) q w y = inr (qconsume-Waits len q w)
call_wakes (passes bs) q w y = qpass-wakes bs q w
call_wakes (passes_all bs) q w y =
    simp w.open_queue (inl (added-Woken bs q iunlock_producer producer-Woken w.starve))
call_wakes (produces room p) q w y = qpass-wakes (new_block room p ∷ []) q w
call_wakes (reads_block room len) q w y = inr (qbread-Waits room len q w)
call_wakes (reads room len) q w y = inr (qread-Waits room len q w)
call_wakes (writes_block bs) q w y = qbwrite-wakes bs q w y
call_wakes (writes_now rooms p) q w y = qiwrite-wakes rooms p q w y
call_wakes (discards len) q w y = inr (qdiscard-Waits len q w)
call_wakes flushes q w y =
    inr (consumer-Waits _ record { starve = w.starve; empty = refl; open_queue = w.open_queue })
call_wakes closes q w y = inl (closed_Woken q _ refl)
call_wakes (hangs_up m) q w y = inl (closed_Woken q _ refl)
call_wakes reopens q w y = inr record { starve = refl; empty = w.empty; open_queue = refl }
call_wakes (sets_limit n) q w y =
    inr (consumer-Waits _ record { starve = w.starve; empty = w.empty; open_queue = w.open_queue })
call_wakes (sets_noblock b) q w y =
    inr (consumer-Waits _ record { starve = w.starve; empty = w.empty; open_queue = w.open_queue })
