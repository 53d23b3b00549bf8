-- ===== src/Qio/Blocks.antt =====
-- kern/allocb.c and kern/qio.c: a block is a buffer with room before and behind its bytes.
use drawterm.Prelude.{
  ℕ, ◌+◌, ◌-◌, ◌*◌, ◌/◌, List, [], ◌∷◌, ◌++◌, length, take, drop, ltb, leb, ◌==◌, min,
  if◌then◌else◌,
}

-- `front` is `rp - base` and `back` is `lim - wp`.
pub record Block : Type 0 where
  pub front : ℕ
  pub bytes : List ℕ
  pub back : ℕ

abbrev pub blen : Block → ℕ
blen b = length b.bytes

abbrev pub balloc : Block → ℕ
balloc b = b.front + length b.bytes + b.back

abbrev pub blockalign : ℕ
blockalign = 8

abbrev pub tlrspc : ℕ
tlrspc = 16

-- ROUND(n, BLOCKALIGN).
abbrev pub round : ℕ → ℕ
round n = (n + (blockalign - 1)) / blockalign * blockalign

-- `_allocb`. The room before the data depends on where malloc puts the block.
unfoldable pub allocb : ℕ → ℕ → Block
allocb room size = record { front = room; bytes = []; back = round (size + tlrspc) }

-- `memmove(b->wp, p, n); b->wp += n`.
unfoldable pub put_bytes : List ℕ → Block → Block
put_bytes p b = record b { bytes = b.bytes ++ p; back = b.back - length p }

-- A block made for bytes, and filled.
unfoldable pub new_block : ℕ → List ℕ → Block
new_block room p = put_bytes p (allocb room (length p))

unfoldable pub blocklen : List Block → ℕ
blocklen [] = 0
blocklen (b ∷ bs) = blen b + blocklen bs

unfoldable pub readblist : List Block → ℕ → ℕ → List ℕ
readblist [] n o = []
readblist (b ∷ bs) n o =
    let skipped = readblist bs n (o - blen b) in
    let m = min n (blen b - o) in
    let rest = readblist bs (n - m) 0 in
    if n == 0 then [] else if leb (blen b) o then skipped else take m (drop o b.bytes) ++ rest

-- The head and the tail; the tail has the last `n` bytes.
unfoldable pub splitblock : ℕ → Block → ℕ → Block × Block
splitblock room a n =
    let m = blen a - n in
    if ltb m n
    then (new_block room (take m a.bytes), record a { front = a.front + m; bytes = drop m a.bytes })
    else (record a { bytes = take m a.bytes; back = a.back + n }, new_block room (drop m a.bytes))
