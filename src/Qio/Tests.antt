-- ===== src/Qio/Tests.antt =====
-- Queues at concrete inputs, and the witnesses.
use drawterm.Prelude.{
  ◌^◌, ◌+◌, ◌≡◌, ◌≤◌, ◌<◌, take, drop, some, refl, true, false, none, List, [], ◌∷◌, ◌++◌, length,
  u32, arith,
}
use drawterm.Qio.Blocks.{Block, allocb, put_bytes, new_block, blocklen, readblist, splitblock}
use drawterm.Qio.{
  ehungup, Queue, is_above, qremove, qputback, iunlock_consumer, iunlock_reader, iunlock_producer,
  iunlock_writer, add_alloc, qaddlist, qpass, qproduce,
}
use drawterm.Qio.Read.{
  is_other, eof, error, qcanread, skip_empty, gather, split_last, put_split, put_rest, first_block,
  read_blocks, finish_read, read_from, qread,
}
use drawterm.Qio.Flow.{qflush-Drains}
use drawterm.Qio.Write.{qflush, qwrite, discard, qdiscard, qhangup, qopen, qlen}
use drawterm.Qio.Kept.{contents, total}
use drawterm.Qio.Calls.{Call, reads, produces, discards, Moved, call, calls, calls_stream}
use drawterm.Qio.Direct.{Operation, locked, removes, puts_back, operate_all, operate_all-Counted}
use drawterm.Qio.Eof.{results, qread_eof}
use drawterm.Qio.Whole.{Wrote, qwrite_lem}
use drawterm.Qio.Lists.{pullupblock, trimblock}
use drawterm.Prelude.{◌⊎◌}
use drawterm.Qio.Signals.{Woken}
use drawterm.Qio.Wakeup.{Waits, call_wakes}
use drawterm.Qio.Lists.Pullup.{Pulled, pullupblock_lem}
use drawterm.Qio.Lists.Trim.{trimblock_lem}

-- Two writes, a read of three bytes that ends in the second block, and a byte thrown away.
abbrev some_calls : List Call
some_calls =
    produces 64 (1 ∷ 2 ∷ []) ∷ produces 64 (3 ∷ 4 ∷ 5 ∷ 6 ∷ []) ∷ reads 64 3 ∷ discards 1 ∷ []

abbrev moved : Moved
moved = calls some_calls (qopen 100 false true false false)

moved_lem :
    (moved.taken ≡ 1 ∷ 2 ∷ 3 ∷ 4 ∷ [])
    × (contents moved.queue.blocks ≡ 5 ∷ 6 ∷ [])
    × (moved.put ≡ 1 ∷ 2 ∷ 3 ∷ 4 ∷ 5 ∷ 6 ∷ [])
unfolding allocb put_bytes new_block blocklen readblist splitblock is_above qremove qputback
    iunlock_consumer iunlock_reader iunlock_producer iunlock_writer add_alloc qaddlist qpass
    qproduce qcanread skip_empty gather split_last put_split put_rest first_block read_blocks
    finish_read read_from qread discard qdiscard qopen call calls
moved_lem = (refl, refl, refl)

-- The first block is taken out and put back.
abbrev some_operations : List Operation
some_operations =
    locked (produces 64 (1 ∷ 2 ∷ [])) ∷ removes ∷ puts_back (new_block 64 (7 ∷ [])) ∷ []

operate_all-Counted_example :
    (qlen (operate_all some_operations (qopen 100 true true false false))
      ≡ u32 (
          length (contents (operate_all some_operations (qopen 100 true true false false)).blocks)))
    × ((operate_all some_operations (qopen 100 true true false false)).wp
        ≡ u32 (
            (operate_all some_operations (qopen 100 true true false false)).rp
            + total (operate_all some_operations (qopen 100 true true false false)).blocks))
operate_all-Counted_example = operate_all-Counted 100 true true false false some_operations

calls_stream_example : moved.taken ++ contents moved.queue.blocks ≡ moved.put
calls_stream_example = calls_stream 100 true false false some_calls

abbrev hung : Queue
hung = qhangup none (qopen 100 false false false false)

qread_eof_example : results 5 64 10 hung ≡ eof ∷ eof ∷ eof ∷ error ehungup ∷ error ehungup ∷ []
unfolding qopen qhangup is_other
qread_eof_example = qread_eof 64 10 3 2 hung refl refl (omega arith)

-- Its writers wait when it has more than four bytes of room in use.
abbrev idle : Queue
idle = qopen 4 false false false false

-- The block of a write takes more than the limit, so that the writer waits, until another process has thrown
-- them away.
qwrite_lem_example :
    Wrote 5 []
      (1 ∷ 2 ∷ 3 ∷ 4 ∷ 5 ∷ [])
      (qwrite (2 ^ 31) qflush (λ _. 64) (1 ∷ 2 ∷ 3 ∷ 4 ∷ 5 ∷ []) idle)
unfolding qopen
qwrite_lem_example =
    qwrite_lem (2 ^ 31) qflush (λ _. 64) (1 ∷ 2 ∷ 3 ∷ 4 ∷ 5 ∷ []) idle qflush-Drains (omega arith)
      record { bypass = refl; closed = refl; noblock = refl }

abbrev pieces : List Block
pieces = new_block 64 (1 ∷ 2 ∷ []) ∷ new_block 64 (3 ∷ []) ∷ new_block 64 (4 ∷ 5 ∷ 6 ∷ []) ∷ []

pullupblock_lem_example : Pulled 4 (contents pieces) (pullupblock 64 4 pieces)
unfolding allocb put_bytes new_block
pullupblock_lem_example =
    pullupblock_lem 64 4 (new_block 64 (1 ∷ 2 ∷ []))
      (new_block 64 (3 ∷ []) ∷ new_block 64 (4 ∷ 5 ∷ 6 ∷ []) ∷ []) (omega arith)

trimblock_lem_example :
    (1 + 3 ≤ length (contents pieces)
      → (cs : List Block) × (trimblock 1 3 pieces ≡ some cs)
        × (contents cs ≡ take 3 (drop 1 (contents pieces))))
    × (length (contents pieces) < 1 + 3 → trimblock 1 3 pieces ≡ none)
trimblock_lem_example = trimblock_lem 1 3 pieces

-- The queue at which a reader has begun to wait.
waiting : Waits idle
unfolding qopen
waiting = record { starve = refl; empty = refl; open_queue = refl }

call_wakes_example :
    Woken idle (call (produces 64 (7 ∷ [])) idle).queue
    ⊎ Waits (call (produces 64 (7 ∷ [])) idle).queue
unfolding qopen
call_wakes_example = call_wakes (produces 64 (7 ∷ [])) idle waiting refl
