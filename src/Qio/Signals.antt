-- ===== src/Qio/Signals.antt =====
-- The signals that the operations of a queue add, and those that wake a reader.
use drawterm.Prelude.{
  ℕ, zero, suc, ◌≡◌, inl, inr, refl, sym, ap, ◌∙◌, Bool, true, false, ◌&&◌, ◌||◌, List, [], ◌∷◌,
  ◌++◌, append_assoc, append-nil, length, take, drop, leb, Bool-cases,
}
use drawterm.Qio.Blocks.{Block, new_block}
use drawterm.Qio.{
  Signal, wakes_reader, wakes_writer, kicks, bypasses, Queue, maxatomic, signal, iunlock_producer,
  iunlock_writer, qaddlist,
}
use drawterm.Qio.Write.{iwrite_blocks}
use drawterm.Qio.Kept.{writer-Same}

abbrev pub wakes : List Signal → Bool
wakes [] = false
wakes (wakes_reader ∷ s) = true
wakes (wakes_writer ∷ s) = wakes s
wakes (kicks ∷ s) = wakes s
wakes (bypasses bs ∷ s) = wakes s

-- The signals that were added wake the reader.
pub record Woken (q r : Queue) : Type 0 where
  pub more : List Signal
  pub added : r.signals ≡ q.signals ++ more
  pub wake : wakes more ≡ true

pub wakes-append : (s t : List Signal) → wakes s ≡ true → wakes (s ++ t) ≡ true
wakes-append [] t e = absurd (cc)
wakes-append (wakes_reader ∷ s) t e = refl
wakes-append (wakes_writer ∷ s) t e = wakes-append s t e
wakes-append (kicks ∷ s) t e = wakes-append s t e
wakes-append (bypasses bs ∷ s) t e = wakes-append s t e

pub producer-Woken : (q : Queue) → q.starve ≡ true → Woken q (iunlock_producer q)
unfolding iunlock_producer
producer-Woken q e = simp e record { more = wakes_reader ∷ []; added = refl; wake = refl }

-- Later signals change nothing.
pub signal-Woken :
    (called : Bool) (s : Signal) (q r : Queue) → Woken q r → Woken q (signal called s r)
signal-Woken false s q r w = w
signal-Woken true s q r w = record {
  more = w.more ++ (s ∷ []);
  added = ap (λ z. z ++ (s ∷ [])) w.added ∙ append_assoc q.signals w.more (s ∷ []);
  wake = wakes-append w.more (s ∷ []) w.wake;
}

pub writer-Woken : (q : Queue) → q.starve ≡ true → Woken q (iunlock_writer q)
unfolding iunlock_writer
writer-Woken q e =
    signal-Woken (q.has_kick && (q.starve || q.kick)) kicks q (iunlock_producer q)
      (producer-Woken q e)

pub added-Woken :
    (bs : List Block) (q : Queue) (f : Queue → Queue)
    → ((r : Queue) → r.starve ≡ true → Woken r (f r))
    → q.starve ≡ true
    → Woken q (f (qaddlist bs q))
unfolding qaddlist
added-Woken bs q f wake e =
    let w = wake (qaddlist bs q) e in record { more = w.more; added = w.added; wake = w.wake }

pub record Adds (q r : Queue) : Type 0 where
  pub more : List Signal
  pub added : r.signals ≡ q.signals ++ more

pub Adds-refl : (q : Queue) → Adds q q
Adds-refl q = record { more = []; added = sym (append-nil q.signals) }

pub Adds-trans : (q r s : Queue) → Adds q r → Adds r s → Adds q s
Adds-trans q r s a b = record {
  more = a.more ++ b.more;
  added = b.added ∙ ap (λ z. z ++ b.more) a.added ∙ append_assoc q.signals a.more b.more;
}

pub Woken-Adds : (q r s : Queue) → Woken q r → Adds r s → Woken q s
Woken-Adds q r s w a = record {
  more = w.more ++ a.more;
  added = a.added ∙ ap (λ z. z ++ a.more) w.added ∙ append_assoc q.signals w.more a.more;
  wake = wakes-append w.more a.more w.wake;
}

pub signal-Adds : (called : Bool) (s : Signal) (q r : Queue) → Adds q r → Adds q (signal called s r)
signal-Adds false s q r a = a
signal-Adds true s q r a = Adds-trans q r (signal true s r) a record { more = s ∷ []; added = refl }

pub written-Adds : (bs : List Block) (q : Queue) → Adds q (iunlock_writer (qaddlist bs q))
unfolding iunlock_writer iunlock_producer qaddlist
written-Adds bs q = signal-Adds (q.has_kick && (q.starve || q.kick)) kicks q _ (
    signal-Adds q.starve wakes_reader q _
      (record { more = []; added = sym (append-nil q.signals) }))

pub qaddlist_bypass : (bs : List Block) (q : Queue) → (qaddlist bs q).bypass ≡ q.bypass
unfolding qaddlist
qaddlist_bypass bs q = refl

pub iwrite-Adds :
    (fuel : ℕ) (rooms : ℕ → ℕ) (p : List ℕ) (q : Queue)
    → q.bypass ≡ false
    → Adds q (iwrite_blocks fuel rooms p q).1
unfolding iwrite_blocks
iwrite-Adds zero rooms p q y = Adds-refl q
iwrite-Adds (suc fuel) rooms p q y = elim (Bool-cases (q.flow || q.closed)) [
  | inl full ↦ simp (y, full) (Adds-refl q)
  | inr room ↦ elim (Bool-cases (leb (length p) maxatomic || q.msg)) [
    | inl last ↦ simp (y, room, last) (written-Adds (b ∷ []) q)
    | inr more ↦
        simp (y, room, more)
          (Adds-trans q next _ (written-Adds (b ∷ []) q) (
            iwrite-Adds fuel rooms (drop maxatomic p) next
              ((writer-Same (qaddlist (b ∷ []) q)).bypass ∙ added_bypass)))
  ]
]
  where
    b : Block
    b = new_block (rooms fuel) (take maxatomic p)

    next : Queue
    next = iunlock_writer (qaddlist (b ∷ []) q)

    added_bypass : (qaddlist (b ∷ []) q).bypass ≡ false
    added_bypass = qaddlist_bypass (b ∷ []) q ∙ y

pub closed_Woken :
    (q r : Queue) → r.signals ≡ q.signals ++ (wakes_reader ∷ wakes_writer ∷ []) → Woken q r
closed_Woken q r e = record { more = wakes_reader ∷ wakes_writer ∷ []; added = e; wake = refl }
