-- ===== src/Qio/Lists.antt =====
-- kern/qio.c: the operations on lists of blocks that no queue holds.
pub mod Pullup
pub mod Trim
use drawterm.Prelude.{
  ℕ, zero, suc, ◌+◌, ◌-◌, ◌*◌, Bool, true, false, ◌&&◌, Option, none, some, List, [], ◌∷◌, ◌++◌,
  length, take, drop, ltb, leb, ◌==◌, min, if◌then◌else◌,
}
use drawterm.Qio.Blocks.{Block, allocb, put_bytes, new_block, blen, balloc, blocklen, round, tlrspc}
use drawterm.Qio.{Queue}

-- `b->rp += n`.
abbrev pub cut_front : ℕ → Block → Block
cut_front n b = record b { front = b.front + n; bytes = drop n b.bytes }

-- `b->wp = b->rp + n`, for a block that has `n` bytes.
abbrev pub cut_back : ℕ → Block → Block
cut_back n b = record b { bytes = take n b.bytes; back = b.back + (blen b - n) }

-- The loop of `pullupblock`; nil is `none`.
unfoldable pub collect : Block → List Block → ℕ → Option (List Block)
collect b [] n = none
collect b (c ∷ cs) n =
    let more = collect (put_bytes c.bytes b) cs (n - blen c) in
    if ltb n (blen c)
    then some (put_bytes (take n c.bytes) b ∷ cut_front n c ∷ cs)
    else if n - blen c == 0
    then some (put_bytes c.bytes b ∷ cs)
    else more

-- For a list that is not empty.
unfoldable pub pullupblock : ℕ → ℕ → List Block → Option (List Block)
pullupblock room n [] = none
pullupblock room n (b ∷ bs) =
    if leb n (blen b)
    then some (b ∷ bs)
    else if ltb (blen b + b.back) n
    then collect (allocb room n) (b ∷ bs) n
    else collect b bs (n - blen b)

unfoldable pub concatblock : ℕ → List Block → Option (List Block)
concatblock room [] = none
concatblock room (b ∷ []) = some (b ∷ [])
concatblock room (b ∷ c ∷ bs) = pullupblock room (blocklen (b ∷ c ∷ bs)) (b ∷ c ∷ bs)

-- The two loops of `trimblock`.
unfoldable pub skip_bytes : ℕ → List Block → List Block
skip_bytes offset [] = []
skip_bytes offset (b ∷ bs) =
    let rest = skip_bytes (offset - blen b) bs in
    if ltb (blen b) offset then rest else cut_front offset b ∷ bs

unfoldable pub keep_bytes : ℕ → List Block → List Block
keep_bytes len [] = []
keep_bytes len (b ∷ bs) =
    let rest = keep_bytes (len - blen b) bs in
    if ltb (blen b) len then b ∷ rest else cut_back len b ∷ []

unfoldable pub trimblock : ℕ → ℕ → List Block → Option (List Block)
trimblock offset len bs =
    if (offset == 0) && (len == blocklen bs)
    then some bs
    else if ltb (blocklen bs) (offset + len)
    then none
    else some (keep_bytes len (skip_bytes offset bs))

-- `padblock` with a size of 0 or more; `pad` is what the memory in front of the data holds.
unfoldable pub pad_front : ℕ → List ℕ → Block → Block
pad_front room pad b =
    let size = length pad in
    if leb size b.front
    then record b { front = b.front - size; bytes = pad ++ b.bytes }
    else record {
      front = room;
      bytes = pad ++ b.bytes;
      back = round (size + blen b + tlrspc) - (size + blen b);
    }

-- `padblock` with the size `- size`.
unfoldable pub pad_back : ℕ → ℕ → Block → Block
pad_back room size b =
    if leb size b.back then b else put_bytes b.bytes (allocb room (blen b + size))

abbrev pub zeros : ℕ → List ℕ
zeros zero = []
zeros (suc n) = 0 ∷ zeros n

unfoldable pub copy_bytes : ℕ → List Block → List ℕ
copy_bytes count [] = zeros count
copy_bytes count (b ∷ bs) =
    let l = min count (blen b) in
    let rest = copy_bytes (count - l) bs in if count == 0 then [] else take l b.bytes ++ rest

unfoldable pub copyblock : ℕ → ℕ → List Block → Block
copyblock room count bs = put_bytes (copy_bytes count bs) (allocb room count)

-- For a length of 0 or more.
unfoldable pub adjustblock : ℕ → ℕ → Block → List Block → List Block
adjustblock room len b bs =
    if ltb (blen b + b.back) len
    then copyblock room len (b ∷ bs) ∷ []
    else if leb len (blen b)
    then cut_back len b ∷ bs
    else put_bytes (zeros (len - blen b)) b ∷ bs

unfoldable pub packblock : (ℕ → ℕ) → List Block → List Block
packblock rooms [] = []
packblock rooms (b ∷ bs) =
    let rest = packblock rooms bs in
    (if ltb (blen b * 4) (balloc b) then new_block (rooms (length bs)) b.bytes else b) ∷ rest

unfoldable pub pullblock : ℕ → List Block → ℕ × List Block
pullblock count [] = (0, [])
pullblock count (b ∷ bs) =
    let n = min count (blen b) in
    let (m, rest) = pullblock (count - n) bs in
    if count == 0
    then (0, b ∷ bs)
    else if blen b - n == 0
    then (n + m, rest)
    else (n, cut_front n b ∷ bs)

-- For a queue that is not empty.
unfoldable pub pullupqueue : ℕ → ℕ → Queue → Queue
pullupqueue room n q = elim (pullupblock room n q.blocks) [
  | none ↦ record q { blocks = [] }
  | some bs ↦ record q { blocks = bs }
]
