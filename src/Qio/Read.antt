-- ===== src/Qio/Read.antt =====
-- kern/qio.c: the reads of a process, which wait for data.
use drawterm.Prelude.{
  ℕ, ◌+◌, ◌-◌, Bool, true, false, ◌||◌, Option, none, some, List, [], ◌∷◌, take, leb, ◌==◌,
  if◌then◌else◌,
}
use drawterm.Qio.Blocks.{Block, blen, readblist, splitblock}
use drawterm.Qio.{
  Err, no_err, ehungup, other_err, Queue, dequeue, qremove, qputback, iunlock_reader,
}

-- 1, 0 and -1 of `qwait`, and the sleep after which it looks again.
pub data Waited : Type 0 where
  ready : Waited
  at_eof : Waited
  failed : Waited
  sleeps : Waited

unfoldable pub is_other : Err → Bool
is_other no_err = false
is_other ehungup = false
is_other (other_err s) = true

-- One look of `qwait`.
unfoldable pub qwait : Queue → Waited × Queue
qwait q = elim q.blocks [
  | b ∷ bs ↦ (ready, q)
  | [] ↦
      if q.closed
      then (if leb 3 q.eof || is_other q.err
          then (failed, q)
          else (at_eof, record q { eof = q.eof + 1 }))
      else (sleeps, record q { starve = true })
]

unfoldable pub qcanread : Queue → Bool
qcanread q = elim q.blocks [ [] ↦ false | b ∷ bs ↦ true ]

-- What a read returns: data, the end of the file, the error text, or nothing yet.
pub data Result {ℓ} (A : Type ℓ) : Type ℓ where
  got : A → Result A
  eof : Result A
  error : Err → Result A
  blocked : Result A

unfoldable pub waited {ℓ} : {A : Type ℓ} → Err → Waited → Result A
waited e ready = blocked
waited e at_eof = eof
waited e failed = error e
waited e sleeps = blocked

-- The block that is read, and the queue with what is put back.
unfoldable pub cut_block : ℕ → ℕ → Block → Queue → Block × Queue
cut_block room len b q =
    if leb (blen b) len
    then (b, q)
    else if q.msg
    then (record b { bytes = take len b.bytes; back = b.back + (blen b - len) }, q)
    else (let (h, t) = splitblock room b (blen b - len) in (h, qputback q t))

unfoldable pub qbread : ℕ → ℕ → Queue → Result Block × Queue
qbread room len q = elim (qremove q) [
  | none ↦ let (w, q') = qwait q in (waited q.err w, q')
  | some (b, q') ↦ let (c, r) = cut_block room len b q' in (got c, iunlock_reader r)
]

-- The way to `again` of `qread`: empty blocks go away.
unfoldable pub skip_empty : List Block → Queue → Queue
skip_empty [] q = q
skip_empty (b ∷ bs) q = let rest = skip_empty bs (dequeue b bs q) in if blen b == 0 then rest else q

-- The loop of `qread` over the blocks that fit, after `n` bytes.
unfoldable pub gather : ℕ → ℕ → List Block → Queue → List Block × ℕ × Queue
gather n len [] q = ([], n, q)
gather n len (b ∷ bs) q =
    let (l, m, r) = gather (n + blen b) len bs (dequeue b bs q) in
    if leb len (n + blen b) then (b ∷ [], n + blen b, dequeue b bs q) else (b ∷ l, m, r)

-- `splitblock(last, n)`.
unfoldable pub split_last : ℕ → ℕ → List Block → List Block × Option Block
split_last room n [] = ([], none)
split_last room n (b ∷ []) = let (h, t) = splitblock room b n in (h ∷ [], some t)
split_last room n (b ∷ c ∷ bs) = let (l, t) = split_last room n (c ∷ bs) in (b ∷ l, t)

unfoldable pub put_split : Queue → List Block × Option Block → List Block × Queue
put_split q (l, none) = (l, q)
put_split q (l, some t) = (l, qputback q t)

unfoldable pub put_rest : ℕ → ℕ → List Block × ℕ × Queue → List Block × Queue
put_rest room len (l, n, q) =
    if leb n len || q.msg then (l, q) else put_split q (split_last room (n - len) l)

unfoldable pub first_block : List Block → Queue → List Block × ℕ × Queue
first_block [] q = ([], 0, q)
first_block (b ∷ bs) q = (b ∷ [], blen b, dequeue b bs q)

unfoldable pub read_blocks : ℕ → Queue → List Block × ℕ × Queue
read_blocks len q = if q.coalesce then gather 0 len q.blocks q else first_block q.blocks q

unfoldable pub finish_read : ℕ → List Block × Queue → Result (List ℕ) × Queue
finish_read len (l, q) = (got (readblist l len 0), iunlock_reader q)

-- `qread` from the switch on.
unfoldable pub read_from : ℕ → ℕ → Queue → Result (List ℕ) × Queue
read_from room len q =
    if qcanread q
    then finish_read len (put_rest room len (read_blocks len q))
    else (let (w, r) = qwait q in (waited q.err w, r))

unfoldable pub qread : ℕ → ℕ → Queue → Result (List ℕ) × Queue
qread room len q = read_from room len (if q.coalesce then skip_empty q.blocks q else q)
