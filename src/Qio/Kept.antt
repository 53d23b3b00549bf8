-- ===== src/Qio/Kept.antt =====
-- What a step on a queue keeps: the counts of the queue, and the order of the bytes.
use drawterm.Prelude.{
  ℕ, ◌+◌, ◌≡◌, inl, inr, refl, sym, ap, ◌∙◌, Bool, true, false, ◌&&◌, ◌||◌, none, some, List, [],
  ◌∷◌, ◌++◌, append_assoc, append-nil, length, length-append, Bool-cases, u32, arith,
}
use drawterm.Qio.Blocks.{Block, balloc, blocklen}
use drawterm.Qio.{
  Signal, Queue, is_above, dequeue, qremove, qputback, signal, iunlock_consumer, iunlock_reader,
  iunlock_producer, iunlock_writer, add_alloc, qaddlist,
}

abbrev pub contents : List Block → List ℕ
contents [] = []
contents (b ∷ bs) = b.bytes ++ contents bs

abbrev pub total : List Block → ℕ
total [] = 0
total (b ∷ bs) = balloc b + total bs

-- `dlen` counts the bytes, and the positions are the room of the blocks apart.
pub record Counted (q : Queue) : Type 0 where
  pub in_bytes : q.dlen ≡ u32 (length (contents q.blocks))
  pub in_room : q.wp ≡ u32 (q.rp + total q.blocks)

-- From `q` to `r` the bytes `put` came in at the end and `taken` went out in front.
pub record Kept (q : Queue) (put taken : List ℕ) (r : Queue) : Type 0 where
  pub msg : r.msg ≡ q.msg
  pub bypass : r.bypass ≡ q.bypass
  pub counts : Counted q → Counted r
  pub stream : q.msg ≡ false → taken ++ contents r.blocks ≡ contents q.blocks ++ put

pub Kept-refl : (q : Queue) → Kept q [] [] q
Kept-refl q = record {
  msg = refl;
  bypass = refl;
  counts = λ c. c;
  stream = λ _. sym (append-nil (contents q.blocks));
}

pub Kept-trans :
    {q r s : Queue} {p t p' t' : List ℕ}
    → Kept q p t r
    → Kept r p' t' s
    → Kept q (p ++ p') (t ++ t') s
Kept-trans {q} {r} {s} {p} {t} {p'} {t'} k l = record {
  msg = l.msg ∙ k.msg;
  bypass = l.bypass ∙ k.bypass;
  counts = λ c. l.counts (k.counts c);
  stream = λ e.
      append_assoc t t' (contents s.blocks)
      ∙ ap (λ z. t ++ z) (l.stream (k.msg ∙ e))
      ∙ sym (append_assoc t (contents r.blocks) p')
      ∙ ap (λ z. z ++ p') (k.stream e)
      ∙ append_assoc (contents q.blocks) p p';
}

-- Two queues that differ in what does not count.
pub record Same (q r : Queue) : Type 0 where
  pub blocks : r.blocks ≡ q.blocks
  pub dlen : r.dlen ≡ q.dlen
  pub rp : r.rp ≡ q.rp
  pub wp : r.wp ≡ q.wp
  pub msg : r.msg ≡ q.msg
  pub bypass : r.bypass ≡ q.bypass

pub Same-Kept : {q r s : Queue} {p t : List ℕ} → Kept q p t r → Same r s → Kept q p t s
Same-Kept {q} {r} {s} {p} {t} k e = record {
  msg = e.msg ∙ k.msg;
  bypass = e.bypass ∙ k.bypass;
  counts = λ c. record {
    in_bytes = rw (e.dlen, e.blocks) (k.counts c).in_bytes;
    in_room = rw (e.wp, e.rp, e.blocks) (k.counts c).in_room;
  };
  stream = λ m. rw e.blocks (k.stream m);
}

signal-Same : (called : Bool) (s : Signal) (q r : Queue) → Same q r → Same q (signal called s r)
signal-Same true s q r e = record {
  blocks = e.blocks;
  dlen = e.dlen;
  rp = e.rp;
  wp = e.wp;
  msg = e.msg;
  bypass = e.bypass;
}
signal-Same false s q r e = e

Same-refl : (q : Queue) → Same q q
Same-refl q = record { blocks = refl; dlen = refl; rp = refl; wp = refl; msg = refl; bypass = refl }

pub consumer-Same : (q : Queue) → Same q (iunlock_consumer q)
unfolding iunlock_consumer
consumer-Same q = signal-Same q.flow _ q _ (elim (Bool-cases (is_above q)) [
  | inl e ↦ rw e (Same-refl q)
  | inr e ↦
      rw e record { blocks = refl; dlen = refl; rp = refl; wp = refl; msg = refl; bypass = refl }
])

pub reader-Same : (q : Queue) → Same q (iunlock_reader q)
unfolding iunlock_reader
reader-Same q = signal-Same (q.has_kick && q.flow) _ q _ (consumer-Same q)

pub producer-Same : (q : Queue) → Same q (iunlock_producer q)
unfolding iunlock_producer
producer-Same q =
    signal-Same q.starve _ q _
      record { blocks = refl; dlen = refl; rp = refl; wp = refl; msg = refl; bypass = refl }

pub writer-Same : (q : Queue) → Same q (iunlock_writer q)
unfolding iunlock_writer
writer-Same q = signal-Same (q.has_kick && (q.starve || q.kick)) _ q _ (producer-Same q)

pub dequeue-Kept :
    (q : Queue) (b : Block) (bs : List Block)
    → q.blocks ≡ b ∷ bs
    → Kept q [] b.bytes (dequeue b bs q)
dequeue-Kept q b bs e = record {
  msg = refl;
  bypass = refl;
  counts = λ c. record {
    in_bytes =
        let l : q.dlen ≡ u32 (length (b.bytes ++ contents bs)) = rw e at c.in_bytes in
        omega (arith, length-append b.bytes (contents bs));
    in_room = let l : q.wp ≡ u32 (q.rp + (balloc b + total bs)) = rw e at c.in_room in omega arith;
  };
  stream = λ _. rw e (sym (append-nil (b.bytes ++ contents bs)));
}

pub qremove-none : (q : Queue) → q.blocks ≡ [] → qremove q ≡ none
unfolding qremove
qremove-none q e = rw e

pub qremove-some :
    (q : Queue) (b : Block) (bs : List Block)
    → q.blocks ≡ b ∷ bs
    → qremove q ≡ some (b, dequeue b bs q)
unfolding qremove
qremove-some q b bs e = rw e

pub putback-Kept :
    (q r : Queue) (p t u : List ℕ) (b : Block)
    → Kept q p t r
    → t ≡ u ++ b.bytes
    → Kept q p u (qputback r b)
unfolding qputback
putback-Kept q r p t u b k e = record {
  msg = k.msg;
  bypass = k.bypass;
  counts = λ c.
      let d : Counted r = k.counts c in
      record {
        in_bytes = omega (arith, d.in_bytes, length-append b.bytes (contents r.blocks));
        in_room = omega (arith, d.in_room);
      };
  stream = λ m.
      sym (append_assoc u b.bytes (contents r.blocks))
      ∙ ap (λ z. z ++ contents r.blocks) (sym e)
      ∙ k.stream m;
}

pub contents-append : (bs cs : List Block) → contents (bs ++ cs) ≡ contents bs ++ contents cs
contents-append [] cs = refl
contents-append (b ∷ bs) cs =
    ap (λ z. b.bytes ++ z) (contents-append bs cs)
    ∙ sym (append_assoc b.bytes (contents bs) (contents cs))

total-append : (bs cs : List Block) → total (bs ++ cs) ≡ total bs + total cs
total-append [] cs = omega arith
total-append (b ∷ bs) cs = omega (arith, total-append bs cs)

add_alloc_lem : (wp : ℕ) (bs : List Block) → u32 (add_alloc wp bs) ≡ u32 (wp + total bs)
unfolding add_alloc
add_alloc_lem wp [] = omega arith
add_alloc_lem wp (b ∷ bs) = omega (arith, add_alloc_lem (u32 (wp + balloc b)) bs)

add_alloc-small : (wp : ℕ) (bs : List Block) → u32 wp ≡ wp → u32 (add_alloc wp bs) ≡ add_alloc wp bs
unfolding add_alloc
add_alloc-small wp [] e = e
add_alloc-small wp (b ∷ bs) e = add_alloc-small (u32 (wp + balloc b)) bs (omega arith)

pub blocklen_lem : (bs : List Block) → blocklen bs ≡ length (contents bs)
unfolding blocklen
blocklen_lem [] = refl
blocklen_lem (b ∷ bs) = omega (arith, blocklen_lem bs, length-append b.bytes (contents bs))

pub addlist-Kept : (bs : List Block) (q : Queue) → Kept q (contents bs) [] (qaddlist bs q)
unfolding qaddlist
addlist-Kept bs q = record {
  msg = refl;
  bypass = refl;
  counts = λ c. record {
    in_bytes = omega (
      arith,
      c.in_bytes,
      blocklen_lem bs,
      ap length (contents-append q.blocks bs),
      length-append (contents q.blocks) (contents bs),
    );
    in_room = omega (
      arith,
      c.in_room,
      total-append q.blocks bs,
      add_alloc_lem q.wp bs,
      add_alloc-small q.wp bs (omega (arith, c.in_room)),
    );
  };
  stream = λ _. contents-append q.blocks bs;
}
