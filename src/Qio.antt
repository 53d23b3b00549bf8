-- ===== src/Qio.antt =====
-- kern/qio.c: queues of blocks between readers and writers, with flow control.
pub mod Blocks
pub mod Read
pub mod Write
pub mod Kept
pub mod Consume
pub mod Produce
pub mod Gather
pub mod Reading
pub mod Calls
pub mod Direct
pub mod Eof
pub mod Flow
pub mod Whole
pub mod Lists
pub mod Signals
pub mod Wakeup
mod Tests
use drawterm.Prelude.{
  ℕ, zero, suc, ◌+◌, ◌-◌, ◌^◌, ◌%◌, ◌≤◌, Bool, true, false, ◌&&◌, ◌||◌, not, Option, none, some,
  List, [], ◌∷◌, ◌++◌, length, take, drop, ltb, leb, ◌==◌, min, if◌then◌else◌, u32,
}
use drawterm.Qio.Blocks.{
  Block, allocb, put_bytes, new_block, blen, balloc, blocklen, readblist, splitblock,
}

-- `*q->err`: none, Ehungup or another text.
pub data Err : Type 0 where
  no_err : Err
  ehungup : Err
  other_err : List ℕ → Err

-- What an operation does to others: `wakeup` of the readers and of the writers, and `kick`.
pub data Signal : Type 0 where
  wakes_reader : Signal
  wakes_writer : Signal
  kicks : Signal
  bypasses : List Block → Signal

-- The bits of `state` have a field each. `signals` is what was called.
pub record Queue : Type 0 where
  pub starve : Bool
  pub msg : Bool
  pub closed : Bool
  pub flow : Bool
  pub coalesce : Bool
  pub kick : Bool
  pub dlen : ℕ
  pub rp : ℕ
  pub wp : ℕ
  pub limit : ℕ
  pub inilim : ℕ
  pub noblock : Bool
  pub eof : ℕ
  pub blocks : List Block
  pub has_kick : Bool
  pub bypass : Bool
  pub err : Err
  pub signals : List Signal

unfoldable pub maxatomic : ℕ
maxatomic = 65536

-- `a - b` of 32 bits.
abbrev pub sub32 : ℕ → ℕ → ℕ
sub32 a b = u32 (a + (2 ^ 32 - u32 b))

-- `(int)(q->wp - q->rp) > q->limit`.
unfoldable pub is_above : Queue → Bool
is_above q = let d = sub32 q.wp q.rp in ltb d (2 ^ 31) && ltb q.limit d

abbrev pub dequeue : Block → List Block → Queue → Queue
dequeue b bs q = record q { blocks = bs; dlen = sub32 q.dlen (blen b); rp = u32 (q.rp + balloc b) }

unfoldable pub qremove : Queue → Option (Block × Queue)
qremove q = elim q.blocks [ [] ↦ none | b ∷ bs ↦ some (b, dequeue b bs q) ]

unfoldable pub qputback : Queue → Block → Queue
qputback q b = record q {
  blocks = b ∷ q.blocks;
  dlen = u32 (q.dlen + blen b);
  rp = sub32 q.rp (balloc b);
}

abbrev pub signal : Bool → Signal → Queue → Queue
signal called s q = if called then record q { signals = q.signals ++ (s ∷ []) } else q

unfoldable pub iunlock_consumer : Queue → Queue
iunlock_consumer q =
    signal q.flow wakes_writer (if is_above q then q else record q { flow = false })

unfoldable pub iunlock_reader : Queue → Queue
iunlock_reader q = signal (q.has_kick && q.flow) kicks (iunlock_consumer q)

unfoldable pub iunlock_producer : Queue → Queue
iunlock_producer q =
    signal q.starve wakes_reader (record q { flow = q.flow || is_above q; starve = false })

unfoldable pub iunlock_writer : Queue → Queue
iunlock_writer q = signal (q.has_kick && (q.starve || q.kick)) kicks (iunlock_producer q)

unfoldable pub qget : Queue → Option Block × Queue
qget q = elim (qremove q) [
  | none ↦ (none, record q { starve = true })
  | some (b, q') ↦ (some b, iunlock_consumer q')
]

-- The loop of `qconsume` over empty blocks.
unfoldable pub drop_empty : List Block → ℕ → List Block × ℕ
drop_empty [] rp = ([], rp)
drop_empty (b ∷ bs) rp =
    let rest = drop_empty bs (u32 (rp + balloc b)) in if blen b == 0 then rest else (b ∷ bs, rp)

-- `qconsume` behind that loop.
unfoldable pub consume : ℕ → Queue → List Block × ℕ → Option (List ℕ) × Queue
consume len q ([], rp) = (none, iunlock_consumer (record q { blocks = []; rp = rp; starve = true }))
consume len q (b ∷ bs, rp) =
    let k = min len (blen b) in
    let left = record b { front = b.front + k; bytes = drop k b.bytes } in
    let q' = record q { blocks = left ∷ bs; rp = rp; dlen = sub32 q.dlen k } in
    (
      some (take k b.bytes),
      iunlock_consumer (
          if q.msg || k == blen b
          then record q' {
            blocks = bs;
            rp = u32 (rp + balloc left);
            dlen = sub32 (sub32 q.dlen k) (blen left);
          }
          else q'),
    )

-- -1 is `none`.
unfoldable pub qconsume : ℕ → Queue → Option (List ℕ) × Queue
qconsume len q = consume len q (drop_empty q.blocks q.rp)

unfoldable pub add_alloc : ℕ → List Block → ℕ
add_alloc wp [] = wp
add_alloc wp (b ∷ bs) = add_alloc (u32 (wp + balloc b)) bs

-- For a list that is not empty.
unfoldable pub qaddlist : List Block → Queue → Queue
qaddlist bs q = record q {
  blocks = q.blocks ++ bs;
  wp = add_alloc q.wp bs;
  dlen = u32 (q.dlen + blocklen bs);
}

-- The result is -1 where the queue is full and 0 where it is closed.
pub data Passed : Type 0 where
  refused : Passed
  passed : ℕ → Passed

unfoldable pub qpassnolim : List Block → Queue → Passed × Queue
qpassnolim bs q =
    if q.closed then (passed 0, q) else (passed (blocklen bs), iunlock_producer (qaddlist bs q))

unfoldable pub qpass : List Block → Queue → Passed × Queue
qpass bs q =
    if q.closed
    then (passed 0, q)
    else if q.flow
    then (refused, q)
    else (passed (blocklen bs), iunlock_producer (qaddlist bs q))

-- `room` is the place in front of the data, in the block that malloc returns.
unfoldable pub qproduce : ℕ → List ℕ → Queue → Passed × Queue
qproduce room p q = qpass (new_block room p ∷ []) q

unfoldable pub qcopy : ℕ → ℕ → ℕ → Queue → Block
qcopy room len offset q = put_bytes (readblist q.blocks len offset) (allocb room len)
