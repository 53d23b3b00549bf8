-- ===== src/Qio/Write.antt =====
-- kern/qio.c: the writes of a process, and what opens, closes and empties a queue.
use drawterm.Prelude.{
  ℕ, zero, suc, ◌+◌, ◌-◌, ◌^◌, Bool, true, false, ◌&&◌, ◌||◌, not, Option, none, some, List, [],
  ◌∷◌, ◌++◌, length, take, drop, leb, ◌==◌, min, if◌then◌else◌, u32,
}
use drawterm.Qio.Blocks.{Block, new_block, blen, balloc, blocklen}
use drawterm.Qio.{
  Err, no_err, ehungup, wakes_reader, wakes_writer, bypasses, Queue, sub32, maxatomic,
  iunlock_consumer, iunlock_writer, qaddlist,
}

-- What `qbwrite` returns: the error text, or the length and, for a writer that is to wait until the
-- queue has drained, its position.
pub data Written : Type 0 where
  fails : Err → Written
  wrote : ℕ → Option ℕ → Written

unfoldable pub qbwrite : List Block → Queue → Written × Queue
qbwrite b q =
    if q.bypass
    then (wrote (blocklen b) none, record q { signals = q.signals ++ (bypasses b ∷ []) })
    else if q.closed
    then (fails q.err, q)
    else if q.flow && q.noblock
    then (wrote (blocklen b) none, q)
    else (let r = qaddlist b q in
        let w = iunlock_writer r in (wrote (blocklen b) (if w.flow then some r.wp else none), w))

-- The condition that ends the wait of `qflow`.
unfoldable pub unblocked : ℕ → Queue → Bool
unblocked p q = let d = sub32 p q.rp in q.noblock || (leb (2 ^ 31) d || leb d q.limit) || q.closed

-- `others` is what the other processes make of the queue while the writer sleeps once. `none` is a
-- writer that still waits after `rounds` sleeps.
unfoldable pub qflow : ℕ → (Queue → Queue) → ℕ → Queue → Option Queue
qflow zero others p q = if unblocked p q then some q else none
qflow (suc rounds) others p q = elim (unblocked p q) [
  | true ↦ some q
  | false ↦ qflow rounds others p (others q)
]

-- The call of `qflow` at the end of `qbwrite`.
unfoldable pub flow_control : ℕ → (Queue → Queue) → Option ℕ → Queue → Option Queue
flow_control rounds others none q = some q
flow_control rounds others (some p) q = qflow rounds others p q

-- How a write ends: it returns, with the error text or without, or it still waits.
pub data Ended : Type 0 where
  returned : ℕ → Ended
  raised : Err → Ended
  waits : Ended

-- The end of a round of `qwrite`, behind the wait: `rest` is the rounds that follow.
unfoldable pub go_on :
    (List ℕ → Queue → Ended × Queue) → ℕ → List ℕ → ℕ → Queue → Option Queue → Ended × Queue
go_on rest len p n q none = (waits, q)
go_on rest len p n q (some r) =
    if leb (length p) n || r.msg then (returned len, r) else rest (drop n p) r

module _ (rounds : ℕ) (others : Queue → Queue) where
  unfoldable pub end_round :
      (List ℕ → Queue → Ended × Queue) → ℕ → List ℕ → Written × Queue → Ended × Queue
  end_round rest len p (fails e, q) = (raised e, q)
  end_round rest len p (wrote n x, q) = go_on rest len p n q (flow_control rounds others x q)

  -- The loop of `qwrite`, for a write of `len` bytes; `rooms` is malloc's choice for each block, and
  -- the bound on the rounds is the number of bytes and one. Other processes come between the blocks
  -- only where the writer waits.
  unfoldable pub write_blocks : ℕ → (ℕ → ℕ) → ℕ → List ℕ → Queue → Ended × Queue
  write_blocks zero rooms len p q = (waits, q)
  write_blocks (suc fuel) rooms len p q =
      end_round (write_blocks fuel rooms len) len p
        (qbwrite (new_block (rooms fuel) (take maxatomic p) ∷ []) q)

  unfoldable pub qwrite : (ℕ → ℕ) → List ℕ → Queue → Ended × Queue
  qwrite rooms p q = write_blocks (suc (length p)) rooms (length p) p q

-- The loop of `qiwrite`, and the count of the bytes.
unfoldable pub iwrite_blocks : ℕ → (ℕ → ℕ) → List ℕ → Queue → ℕ × Queue
iwrite_blocks zero rooms p q = (0, q)
iwrite_blocks (suc fuel) rooms p q =
    let b = new_block (rooms fuel) (take maxatomic p) in
    let next =
      if q.bypass
      then record q { signals = q.signals ++ (bypasses (b ∷ []) ∷ []) }
      else iunlock_writer (qaddlist (b ∷ []) q) in
    let (n, q') = iwrite_blocks fuel rooms (drop maxatomic p) next in
    if not q.bypass && (q.flow || q.closed)
    then (0, q)
    else if leb (length p) maxatomic || q.msg
    then (min (length p) maxatomic, next)
    else (maxatomic + n, q')

unfoldable pub qiwrite : (ℕ → ℕ) → List ℕ → Queue → ℕ × Queue
qiwrite rooms p q = iwrite_blocks (suc (length p)) rooms p q

-- The loop of `qdiscard`: `len` bytes are left to throw away.
unfoldable pub discard : ℕ → List Block → Queue → ℕ × Queue
discard len [] q = (0, record q { blocks = [] })
discard len (b ∷ bs) q =
    let gone = record q { blocks = bs; rp = u32 (q.rp + balloc b); dlen = sub32 q.dlen (blen b) } in
    let (n, r) = discard (len - blen b) bs gone in
    if len == 0
    then (0, record q { blocks = b ∷ bs })
    else if leb (blen b) len
    then (blen b + n, r)
    else (
      len,
      record q {
        blocks = record b { front = b.front + len; bytes = drop len b.bytes } ∷ bs;
        dlen = sub32 q.dlen len;
      },
    )

unfoldable pub qdiscard : ℕ → Queue → ℕ × Queue
qdiscard len q = let (n, r) = discard len q.blocks q in (n, iunlock_consumer r)

unfoldable pub qflush : Queue → Queue
qflush q = iunlock_consumer (record q { blocks = []; rp = q.wp; dlen = 0 })

unfoldable pub qclose : Queue → Queue
qclose q = record q {
  closed = true;
  flow = false;
  starve = false;
  err = ehungup;
  blocks = [];
  rp = q.wp;
  dlen = 0;
  noblock = false;
  signals = q.signals ++ (wakes_reader ∷ wakes_writer ∷ []);
}

-- A message that is nil or empty is `none`, and one that is `Ehungup` itself is `some ehungup`.
unfoldable pub qhangup : Option Err → Queue → Queue
qhangup m q = record q {
  closed = true;
  err = elim m [ none ↦ ehungup | some e ↦ e ];
  signals = q.signals ++ (wakes_reader ∷ wakes_writer ∷ []);
}

unfoldable pub qreopen : Queue → Queue
qreopen q = record q { closed = false; starve = true; eof = 0; limit = q.inilim }

unfoldable pub qsetlimit : ℕ → Queue → Queue
qsetlimit limit q = iunlock_consumer (record q { limit = limit })

unfoldable pub qnoblock : Bool → Queue → Queue
qnoblock onoff q = iunlock_consumer (record q { noblock = onoff })

unfoldable pub qlen : Queue → ℕ
qlen q = q.dlen

unfoldable pub qfull : Queue → Bool
qfull q = q.flow

unfoldable pub qisclosed : Queue → Bool
qisclosed q = q.closed

-- `msg`, `coalesce` and `kick` are the bits of the argument `msg` of the code.
unfoldable pub qopen : ℕ → Bool → Bool → Bool → Bool → Queue
qopen limit msg coalesce kick has_kick = record {
  starve = true;
  msg = msg;
  closed = false;
  flow = false;
  coalesce = coalesce;
  kick = kick;
  dlen = 0;
  rp = 0;
  wp = 0;
  limit = limit;
  inilim = limit;
  noblock = false;
  eof = 0;
  blocks = [];
  has_kick = has_kick;
  bypass = false;
  err = no_err;
  signals = [];
}

unfoldable pub qbypass : Queue
qbypass = record {
  starve = false;
  msg = false;
  closed = false;
  flow = false;
  coalesce = false;
  kick = false;
  dlen = 0;
  rp = 0;
  wp = 0;
  limit = 0;
  inilim = 0;
  noblock = false;
  eof = 0;
  blocks = [];
  has_kick = false;
  bypass = true;
  err = no_err;
  signals = [];
}

unfoldable pub qfree : Queue → Queue
qfree q = qclose q
