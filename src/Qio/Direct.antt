-- ===== src/Qio/Direct.antt =====
-- Any sequence of calls, with those of the operations that take no lock of their own: `qaddlist`,
-- `qremove` and `qputback`, which other devices call too. `pullupqueue` is left out.
use drawterm.Prelude.{
  ℕ, ◌+◌, ◌≡◌, refl, ◌∙◌, Bool, false, List, [], ◌∷◌, length, length-append, u32, Option, none,
  some, arith,
}
use drawterm.Qio.Blocks.{Block}
use drawterm.Qio.{Queue, qremove, qputback, qaddlist, dequeue}
use drawterm.Qio.Write.{qopen, qlen}
use drawterm.Qio.Kept.{contents, total, Counted, addlist-Kept, dequeue-Kept}
use drawterm.Qio.Calls.{Call, call, call-Kept}

-- A call that takes the lock, or one of the operations that do not. A list that is added is not empty.
pub data Operation : Type 0 where
  locked : Call → Operation
  adds : Block → List Block → Operation
  removes : Operation
  puts_back : Block → Operation

unfoldable pub operate : Operation → Queue → Queue
operate (locked c) q = (call c q).queue
operate (adds b bs) q = qaddlist (b ∷ bs) q
operate removes q = elim (qremove q) [ none ↦ q | some (b, q') ↦ q' ]
operate (puts_back b) q = qputback q b

unfoldable pub operate_all : List Operation → Queue → Queue
operate_all [] q = q
operate_all (o ∷ os) q = operate_all os (operate o q)

-- From `q` to `r` the counts stay right.
record Counts (q r : Queue) : Type 0 where
  bypass : r.bypass ≡ q.bypass
  counts : Counted q → Counted r

removes-Counts : (q : Queue) → Counts q (operate removes q)
unfolding operate qremove
removes-Counts q = go q.blocks refl
  where
    go :
        (bs : List Block)
        → q.blocks ≡ bs
        → Counts q
            (elim (elim bs as (λ _. Option (Block × Queue)) [
              | [] ↦ none
              | b ∷ bs ↦ some (b, dequeue b bs q)
            ])
              as (λ _. Queue) [ none ↦ q | some (b, q') ↦ q' ])
    go [] e = record { bypass = refl; counts = λ c. c }
    go (b ∷ bs) e = let k = dequeue-Kept q b bs e in record { bypass = k.bypass; counts = k.counts }

putback-Counts : (q : Queue) (b : Block) → Counts q (qputback q b)
unfolding qputback
putback-Counts q b = record {
  bypass = refl;
  counts = λ c. record {
    in_bytes = omega (arith, c.in_bytes, length-append b.bytes (contents q.blocks));
    in_room = omega (arith, c.in_room);
  };
}

operate-Counts : (o : Operation) (q : Queue) → q.bypass ≡ false → Counts q (operate o q)
unfolding operate
operate-Counts (locked c) q y =
    let k = call-Kept c q y in record { bypass = k.bypass; counts = k.counts }
operate-Counts (adds b bs) q y =
    let k = addlist-Kept (b ∷ bs) q in record { bypass = k.bypass; counts = k.counts }
operate-Counts removes q y = removes-Counts q
operate-Counts (puts_back b) q y = putback-Counts q b

operate_all-Counts :
    (os : List Operation) (q : Queue) → q.bypass ≡ false → Counts q (operate_all os q)
unfolding operate_all
operate_all-Counts [] q y = record { bypass = refl; counts = λ c. c }
operate_all-Counts (o ∷ os) q y =
    let k = operate-Counts o q y in
    let l = operate_all-Counts os (operate o q) (k.bypass ∙ y) in
    record { bypass = l.bypass ∙ k.bypass; counts = λ c. l.counts (k.counts c) }

-- After any sequence of calls from `qopen` on, `qaddlist`, `qremove` and `qputback` by other code among
-- them but `pullupqueue` not, `qlen` is the number of the bytes that are queued and `wp - rp` the room
-- that their blocks take, both in 32 bits.
pub operate_all-Counted :
    (limit : ℕ) (msg coalesce kick has_kick : Bool) (os : List Operation)
    → let q = operate_all os (qopen limit msg coalesce kick has_kick) in
      (qlen q ≡ u32 (length (contents q.blocks))) × (q.wp ≡ u32 (q.rp + total q.blocks))
unfolding qopen qlen
operate_all-Counted limit msg coalesce kick has_kick os =
    let c =
      (operate_all-Counts os (qopen limit msg coalesce kick has_kick) refl).counts
        (record { in_bytes = refl; in_room = refl }) in
    (c.in_bytes, c.in_room)
