-- ===== src/Qio/Calls.antt =====
-- Any sequence of calls on a queue.
use drawterm.Prelude.{ℕ, ◌≡◌, refl, ◌∙◌, Bool, false, not, ◌||◌, Option, List, [], ◌∷◌, ◌++◌, take}
use drawterm.Qio.Blocks.{Block}
use drawterm.Qio.{Err, Queue, qget, qconsume, qpass, qpassnolim, qproduce}
use drawterm.Qio.Read.{qbread, qread}
use drawterm.Qio.Write.{
  qbwrite, qiwrite, qdiscard, qflush, qclose, qhangup, qreopen, qsetlimit, qnoblock, qopen,
}
use drawterm.Qio.Kept.{contents, Kept, Kept-refl, Kept-trans, Same-Kept, consumer-Same}
use drawterm.Qio.Consume.{
  bytes_of, or_none, qget-Kept, qconsume-Kept, qdiscard-Kept, qflush-Kept, qclose-Kept,
}
use drawterm.Qio.Produce.{
  when, queues, qpass-Kept, qpassnolim-Kept, qproduce-Kept, qbwrite-Kept, qiwrite-Kept,
}
use drawterm.Qio.Reading.{block_of, data_of, qbread-Kept, qread-Kept}

-- A call of an operation, with the places of the blocks that malloc returns.
pub data Call : Type 0 where
  gets : Call
  consumes : ℕ → Call
  passes : List Block → Call
  passes_all : List Block → Call
  produces : ℕ → List ℕ → Call
  reads_block : ℕ → ℕ → Call
  reads : ℕ → ℕ → Call
  writes_block : List Block → Call
  writes_now : (ℕ → ℕ) → List ℕ → Call
  discards : ℕ → Call
  flushes : Call
  closes : Call
  hangs_up : Option Err → Call
  reopens : Call
  sets_limit : ℕ → Call
  sets_noblock : Bool → Call

-- The bytes that came in, those that went out (to the caller or thrown away), and the queue.
pub record Moved : Type 0 where
  pub put : List ℕ
  pub taken : List ℕ
  pub queue : Queue

unfoldable pub call : Call → Queue → Moved
call gets q = record { put = []; taken = bytes_of (qget q).0; queue = (qget q).1 }
call (consumes len) q = record {
  put = [];
  taken = or_none (qconsume len q).0;
  queue = (qconsume len q).1;
}
call (passes bs) q = record {
  put = when (not (q.closed || q.flow)) (contents bs);
  taken = [];
  queue = (qpass bs q).1;
}
call (passes_all bs) q = record {
  put = when (not q.closed) (contents bs);
  taken = [];
  queue = (qpassnolim bs q).1;
}
call (produces room p) q = record {
  put = when (not (q.closed || q.flow)) p;
  taken = [];
  queue = (qproduce room p q).1;
}
call (reads_block room len) q = record {
  put = [];
  taken = block_of (qbread room len q).0;
  queue = (qbread room len q).1;
}
call (reads room len) q = record {
  put = [];
  taken = data_of (qread room len q).0;
  queue = (qread room len q).1;
}
call (writes_block bs) q = record {
  put = when (queues q) (contents bs);
  taken = [];
  queue = (qbwrite bs q).1;
}
call (writes_now rooms p) q = record {
  put = take (qiwrite rooms p q).0 p;
  taken = [];
  queue = (qiwrite rooms p q).1;
}
call (discards len) q = record {
  put = [];
  taken = take (qdiscard len q).0 (contents q.blocks);
  queue = (qdiscard len q).1;
}
call flushes q = record { put = []; taken = contents q.blocks; queue = qflush q }
call closes q = record { put = []; taken = contents q.blocks; queue = qclose q }
call (hangs_up m) q = record { put = []; taken = []; queue = qhangup m q }
call reopens q = record { put = []; taken = []; queue = qreopen q }
call (sets_limit n) q = record { put = []; taken = []; queue = qsetlimit n q }
call (sets_noblock b) q = record { put = []; taken = []; queue = qnoblock b q }

unfoldable pub calls : List Call → Queue → Moved
calls [] q = record { put = []; taken = []; queue = q }
calls (c ∷ cs) q =
    let m = call c q in
    let n = calls cs m.queue in
    record { put = m.put ++ n.put; taken = m.taken ++ n.taken; queue = n.queue }

abbrev Keeps : Queue → Moved → Type 0
Keeps q m = Kept q m.put m.taken m.queue

pub call-Kept : (c : Call) (q : Queue) → q.bypass ≡ false → Keeps q (call c q)
unfolding call qhangup qreopen qsetlimit qnoblock
call-Kept gets q y = qget-Kept q
call-Kept (consumes len) q y = qconsume-Kept len q
call-Kept (passes bs) q y = qpass-Kept bs q
call-Kept (passes_all bs) q y = qpassnolim-Kept bs q
call-Kept (produces room p) q y = qproduce-Kept room p q
call-Kept (reads_block room len) q y = qbread-Kept room len q
call-Kept (reads room len) q y = qread-Kept room len q
call-Kept (writes_block bs) q y = qbwrite-Kept bs q
call-Kept (writes_now rooms p) q y = qiwrite-Kept rooms p q y
call-Kept (discards len) q y = qdiscard-Kept len q
call-Kept flushes q y = qflush-Kept q
call-Kept closes q y = qclose-Kept q
call-Kept (hangs_up m) q y =
    Same-Kept (Kept-refl q)
      record { blocks = refl; dlen = refl; rp = refl; wp = refl; msg = refl; bypass = refl }
call-Kept reopens q y =
    Same-Kept (Kept-refl q)
      record { blocks = refl; dlen = refl; rp = refl; wp = refl; msg = refl; bypass = refl }
call-Kept (sets_limit n) q y =
    Same-Kept
      (Same-Kept (Kept-refl q)
        record { blocks = refl; dlen = refl; rp = refl; wp = refl; msg = refl; bypass = refl })
      (consumer-Same (record q { limit = n }))
call-Kept (sets_noblock b) q y =
    Same-Kept
      (Same-Kept (Kept-refl q)
        record { blocks = refl; dlen = refl; rp = refl; wp = refl; msg = refl; bypass = refl })
      (consumer-Same (record q { noblock = b }))

calls-Kept : (cs : List Call) (q : Queue) → q.bypass ≡ false → Keeps q (calls cs q)
unfolding calls
calls-Kept [] q y = Kept-refl q
calls-Kept (c ∷ cs) q y =
    let k = call-Kept c q y in Kept-trans k (calls-Kept cs (call c q).queue (k.bypass ∙ y))

-- A queue that is not opened for messages is a stream: after any sequence of calls of its
-- operations, from `qopen` on, the bytes that went out, read or thrown away, and those that are queued
-- are, in order, exactly those that came in.
pub calls_stream :
    (limit : ℕ) (coalesce kick has_kick : Bool) (cs : List Call)
    → let m = calls cs (qopen limit false coalesce kick has_kick) in
      m.taken ++ contents m.queue.blocks ≡ m.put
unfolding qopen
calls_stream limit coalesce kick has_kick cs =
    (calls-Kept cs (qopen limit false coalesce kick has_kick) refl).stream refl
