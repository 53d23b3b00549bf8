-- ===== src/Qio/Whole.antt =====
-- `qwrite`: the blocks of one write.
use drawterm.Prelude.{
  ◌^◌, List, ℕ, zero, suc, ◌<◌, ◌≤◌, ◌≡◌, inl, inr, refl, sym, ap, subst, ◌∙◌, Bool, true, false,
  ◌&&◌, ◌||◌, none, some, [], ◌∷◌, ◌++◌, append_assoc, length, length-take, length-drop, take, drop,
  take-append-drop, take-eq_self, leb, Bool-cases, min, if◌then◌else◌, arith,
}
use drawterm.Qio.Blocks.{Block, new_block, blocklen}
use drawterm.Qio.{
  Signal, wakes_reader, kicks, Queue, maxatomic, signal, is_above, iunlock_producer, iunlock_writer,
  qaddlist,
}
use drawterm.Qio.Flow.{IsOpen, Drained, Drains, Over, flow_control_lem}
use drawterm.Qio.Write.{
  wrote, qbwrite, Ended, returned, flow_control, go_on, end_round, write_blocks, qwrite,
}
use drawterm.Qio.Kept.{contents, contents-append, blocklen_lem, writer-Same}
use drawterm.Qio.Produce.{new_block-contents}

signal-IsOpen : (called : Bool) (s : Signal) (q : Queue) → IsOpen q → IsOpen (signal called s q)
signal-IsOpen true s q o = record { bypass = o.bypass; closed = o.closed; noblock = o.noblock }
signal-IsOpen false s q o = o

producer-IsOpen : (q : Queue) → IsOpen q → IsOpen (iunlock_producer q)
unfolding iunlock_producer
producer-IsOpen q o =
    signal-IsOpen q.starve wakes_reader (record q { flow = q.flow || is_above q; starve = false })
      record { bypass = o.bypass; closed = o.closed; noblock = o.noblock }

writer-IsOpen : (q : Queue) → IsOpen q → IsOpen (iunlock_writer q)
unfolding iunlock_writer
writer-IsOpen q o =
    signal-IsOpen (q.has_kick && (q.starve || q.kick)) kicks (iunlock_producer q)
      (producer-IsOpen q o)

added-IsOpen : (bs : List Block) (q : Queue) → IsOpen q → IsOpen (qaddlist bs q)
unfolding qaddlist
added-IsOpen bs q o = record { bypass = o.bypass; closed = o.closed; noblock = o.noblock }

qbwrite-IsOpen :
    (bs : List Block) (q : Queue)
    → IsOpen q
    → qbwrite bs q ≡ (
      wrote
          (blocklen bs)
          (if (iunlock_writer (qaddlist bs q)).flow then some (qaddlist bs q).wp else none),
      iunlock_writer (qaddlist bs q),
    )
unfolding qbwrite
qbwrite-IsOpen bs q o = simp (o.bypass, o.closed, waits) refl
  where
    waits : (q.flow && q.noblock) ≡ false
    waits = ground (arith, o.noblock)

module _ (fuel : ℕ) (rooms : ℕ → ℕ) (p : List ℕ) (q : Queue) where
  abbrev b : Block
  b = new_block (rooms fuel) (take maxatomic p)

  abbrev next : Queue
  next = iunlock_writer (qaddlist (b ∷ []) q)

  next_msg : next.msg ≡ q.msg
  unfolding qaddlist
  next_msg = (writer-Same (qaddlist (b ∷ []) q)).msg

  b_len : blocklen (b ∷ []) ≡ min maxatomic (length p)
  b_len =
      blocklen_lem (b ∷ [])
      ∙ ap length (new_block-contents (rooms fuel) (take maxatomic p))
      ∙ length-take maxatomic p

  next-contents : contents next.blocks ≡ contents q.blocks ++ take maxatomic p
  unfolding qaddlist
  next-contents =
      ap contents (writer-Same (qaddlist (b ∷ []) q)).blocks
      ∙ contents-append q.blocks (b ∷ [])
      ∙ ap (λ z. contents q.blocks ++ z) (new_block-contents (rooms fuel) (take maxatomic p))

  step-Over :
      (rounds : ℕ) (others : Queue → Queue)
      → Drains others
      → 2 ^ 31 ≤ rounds
      → Over next (
          flow_control rounds others
            (if next.flow then some (qaddlist (b ∷ []) q).wp else none)
            next)
  step-Over rounds others d enough =
      flow_control_lem rounds others next.flow (qaddlist (b ∷ []) q).wp next d enough
        (sym (writer-Same (qaddlist (b ∷ []) q)).wp)

  write_step :
      (rounds : ℕ) (others : Queue → Queue) (len : ℕ) (r : Queue)
      → IsOpen q
      → flow_control rounds others (if next.flow then some (qaddlist (b ∷ []) q).wp else none) next
        ≡ some r
      → write_blocks rounds others (suc fuel) rooms len p q ≡ (
          if leb (length p) (min maxatomic (length p)) || r.msg
          then (returned len, r)
          else write_blocks rounds others fuel rooms len (drop (min maxatomic (length p)) p) r)
  unfolding write_blocks end_round go_on
  write_step rounds others len r o over =
      ap (end_round rounds others (write_blocks rounds others fuel rooms len) len p)
        (qbwrite-IsOpen (b ∷ []) q o)
      ∙ ap (go_on (write_blocks rounds others fuel rooms len) len p (blocklen (b ∷ [])) next) over
      ∙ ap
          (λ m.
            if leb (length p) m || r.msg
            then (returned len, r)
            else write_blocks rounds others fuel rooms len (drop m p) r)
          b_len

some_room : 0 < maxatomic
unfolding maxatomic
some_room = omega arith

-- What a write leaves: it has returned `len`, and of the bytes that were there and those that came in
-- behind them some went out in front.
pub record Wrote (len : ℕ) (before came : List ℕ) (r : Ended × Queue) : Type 0 where
  pub result : r.0 ≡ returned len
  pub taken : List ℕ
  pub order : taken ++ contents r.1.blocks ≡ before ++ came

-- How many bytes a block takes.
abbrev n : List ℕ → ℕ
n p = min maxatomic (length p)

fewer : (p : List ℕ) → n p < length p → n p ≡ maxatomic
fewer p l = omega arith

part :
    (p : List ℕ) (msg : Bool)
    → (leb (length p) (n p) || msg) ≡ true
    → take maxatomic p ≡ (if msg then take maxatomic p else p)
part p true e = refl
part p false e = take-eq_self maxatomic p (ground (arith, e))

more_left :
    (p : List ℕ) (msg : Bool)
    → (leb (length p) (n p) || msg) ≡ false
    → (n p < length p) × (msg ≡ false)
more_left p msg e = ground (arith, e)

plain_Wrote :
    (len : ℕ) (before came part : List ℕ) (msg : Bool) (x : Ended × Queue)
    → msg ≡ false
    → Wrote len before (if msg then part else came) x
    → Wrote len before came x
plain_Wrote len before came part true x e w = absurd (cc)
plain_Wrote len before came part false x e w = w

as_plain :
    (len : ℕ) (before came part : List ℕ) (msg : Bool) (x : Ended × Queue)
    → msg ≡ false
    → Wrote len before came x
    → Wrote len before (if msg then part else came) x
as_plain len before came part true x e w = absurd (cc)
as_plain len before came part false x e w = w

last_Wrote :
    (len : ℕ) (p : List ℕ) (q after r : Queue)
    → contents after.blocks ≡ contents q.blocks ++ take maxatomic p
    → Drained after r
    → take maxatomic p ≡ (if q.msg then take maxatomic p else p)
    → Wrote len (contents q.blocks) (if q.msg then take maxatomic p else p) (returned len, r)
last_Wrote len p q after r came d part = record {
  result = refl;
  taken = d.taken;
  order = d.order ∙ came ∙ ap (λ z. contents q.blocks ++ z) part;
}

more_Wrote :
    (len k : ℕ) (p : List ℕ) (q after r : Queue) (x : Ended × Queue)
    → contents after.blocks ≡ contents q.blocks ++ take maxatomic p
    → Drained after r
    → k ≡ maxatomic
    → Wrote len (contents r.blocks) (drop k p) x
    → Wrote len (contents q.blocks) p x
more_Wrote len k p q after r x came d full w = record {
  result = w.result;
  taken = d.taken ++ w.taken;
  order =
      append_assoc d.taken w.taken (contents x.1.blocks)
      ∙ ap (λ z. d.taken ++ z) w.order
      ∙ sym (append_assoc d.taken (contents r.blocks) (drop k p))
      ∙ ap (λ z. z ++ drop k p) (d.order ∙ came)
      ∙ append_assoc (contents q.blocks) (take maxatomic p) (drop k p)
      ∙ ap (λ z. contents q.blocks ++ z)
          (subst (λ m. take m p ++ drop k p ≡ p) full (take-append-drop k p));
}

module _ (rounds : ℕ) (others : Queue → Queue) (d : Drains others) (enough : 2 ^ 31 ≤ rounds) where
  write_blocks_lem :
      (fuel : ℕ) (rooms : ℕ → ℕ) (len : ℕ) (p : List ℕ) (q : Queue)
      → IsOpen q
      → length p < fuel
      → Wrote len
          (contents q.blocks)
          (if q.msg then take maxatomic p else p)
          (write_blocks rounds others fuel rooms len p q)
  write_blocks_lem zero rooms len p q o h = absurd (omega arith)
  write_blocks_lem (suc fuel) rooms len p q o h =
      let came = next-contents fuel rooms p q in
      let (r, (over, drained)) = step-Over fuel rooms p q rounds others d enough in
      let same : r.msg ≡ q.msg = drained.msg ∙ next_msg fuel rooms p q in
      rw (write_step fuel rooms p q rounds others len r o over, same)
        (elim (Bool-cases (leb (length p) (n p) || q.msg)) [
          | inl last ↦
              rw last (last_Wrote len p q (next fuel rooms p q) r came drained (part p q.msg last))
          | inr more ↦
              let (l, stream) = more_left p q.msg more in
              let rest =
                write_blocks_lem fuel rooms len (drop (n p) p) r
                  (drained.still_open (writer-IsOpen _ (added-IsOpen (b fuel rooms p q ∷ []) q o)))
                  (omega (arith, length-drop (n p) p, some_room, fewer p l)) in
              rw more (
                as_plain len (contents q.blocks) p (take maxatomic p) q.msg _ stream (
                  more_Wrote len (n p) p q (next fuel rooms p q) r _ came drained (fewer p l) (
                    plain_Wrote len (contents r.blocks) (drop (n p) p)
                      (take maxatomic (drop (n p) p)) r.msg _ (same ∙ stream) rest)))
        ])

-- A write to a queue that is open and not non-blocking returns the length that it was given, if the
-- other processes, while the writer waits for the queue to drain, only take bytes out, leave it open
-- and each time bring it nearer to the writer's position: 2 ^ 31 sleeps are enough for each block.
-- What is queued then, behind what went out in the meantime, is what was there and behind it, in
-- order, in a stream all that was written and in a message queue the first Maxatomic bytes of it.
pub qwrite_lem :
    (rounds : ℕ) (others : Queue → Queue) (rooms : ℕ → ℕ) (p : List ℕ) (q : Queue)
    → Drains others
    → 2 ^ 31 ≤ rounds
    → IsOpen q
    → Wrote
        (length p)
        (contents q.blocks)
        (if q.msg then take maxatomic p else p)
        (qwrite rounds others rooms p q)
unfolding qwrite
qwrite_lem rounds others rooms p q d enough o =
    write_blocks_lem rounds others d enough (suc (length p)) rooms (length p) p q o (omega arith)
