-- ===== src/Aan/Safety.antt =====
-- What holds of two clients and the network between them, whatever happens.
use drawterm.Prelude.{
  ℕ, ◌+◌, ◌≤◌, ◌≡◌, refl, subst, false, some, List, [], ◌∷◌, length, length-drop, take, drop, arith,
}
use drawterm.Aan.{Buf, Client, aanreader}
use drawterm.Aan.Flow.{Data, Numbered-length, Acks-le}
use drawterm.Aan.Way.{Way}
use drawterm.Aan.Sends.{
  writes-sender, writes-receiver, sync-Way, syncs-receiver, redial-Way, redials-receiver, break-Way,
}
use drawterm.Aan.Reader.{Outcome}
use drawterm.Aan.Reads.{Outcome-Way}
use drawterm.Aan.Acked.{Acked-Way}
use drawterm.Aan.System.{
  System, mirror, Move, writes, syncs, reads, redials, Step, at_near, at_far, breaks, start, Reach,
  here, next,
}

pub record Holds (s : System) : Type 0 where
  pub there : Way s.near s.far s.out s.back s.said
  pub back_again : Way s.far s.near s.back s.out s.heard

pub mirror-Holds : {s : System} → Holds s → Holds (mirror s)
mirror-Holds h = record { there = h.back_again; back_again = h.there }

start-Holds : Holds start
start-Holds = record { there = w; back_again = w }
  where
    w : Way start.near start.far [] [] []
    w = record {
      freed = 0;
      got = 0;
      first = 0;
      next_msg = refl;
      kept = refl;
      last = refl;
      wanted = refl;
      acks = omega arith;
      sent = omega arith;
      window = omega arith;
      flows = λ _. refl;
      idle = λ _. refl;
      in_log = omega arith;
      in_window = omega arith;
      order = λ _. omega arith;
      prefix = refl;
      at_most = omega arith;
      open_all = λ _. refl;
    }

-- The near client reads a message: the `assert` holds, and both directions stay as they should.
pub read-Holds :
    (s : System) (b : Buf) (bs : List Buf)
    → Holds s
    → s.near.closed ≡ false
    → s.back ≡ b ∷ bs
    → (c : Client) × (x : ℕ) × (aanreader b s.near ≡ some c)
      × Outcome b s.near x s.said c
      × Holds (record s { near = c; back = bs })
read-Holds s b bs h o e =
    let (c, x, f, q, w) =
      Acked-Way s.near s.far b s.out bs s.said
        (subst (λ z. Way s.near s.far s.out z s.said) e h.there) in
    (
      c,
      x,
      f,
      q,
      record {
        there = w;
        back_again =
            Outcome-Way s.far s.near b bs s.out s.heard
              (subst (λ z. Way s.far s.near z s.out s.heard) e h.back_again) x s.said c o q;
      },
    )

Move-Holds : {s t : System} → Move s t → Holds s → Holds t
Move-Holds {s} (writes bytes small live room) h = record {
  there = writes-sender s.near s.far s.out s.back s.said bytes room h.there;
  back_again = writes-receiver s.far s.near s.back s.out s.heard bytes h.back_again;
}
Move-Holds {s} syncs h = record {
  there = sync-Way s.near s.far s.out s.back s.said h.there;
  back_again = syncs-receiver s.far s.near s.back s.out s.heard h.back_again;
}
Move-Holds {s} (reads b bs c up o e f) h =
    let (d, _, g, _, k) = read-Holds s b bs h o e in
    let same : d ≡ c = cc in subst (λ z. Holds (record s { near = z; back = bs })) same k
Move-Holds {s} (redials down o) h = record {
  there = redial-Way s.near s.far s.out s.back s.said h.there;
  back_again =
      redials-receiver s.far s.near s.back s.heard
        (subst (λ z. Way s.far s.near s.back z s.heard) (h.there.idle down) h.back_again);
}

pub Step-Holds : {s t : System} → Step s t → Holds s → Holds t
Step-Holds (at_near m) h = Move-Holds m h
Step-Holds (at_far m) h = mirror-Holds (Move-Holds m (mirror-Holds h))
Step-Holds {s} breaks h = record {
  there = break-Way s.near s.far s.out s.back s.said h.there;
  back_again = break-Way s.far s.near s.back s.out s.heard h.back_again;
}

pub Reach-Holds : {s : System} → Reach s → Holds s
Reach-Holds here = start-Holds
Reach-Holds (next r st) = Step-Holds st (Reach-Holds r)

-- In every reachable state of two clients, whatever their processes do and however often the
-- connection breaks and is dialled again, what each has given its program is an initial part of
-- what the other's program wrote: in order, nothing left out and nothing twice. And while a reader
-- is in its loop, what the other keeps is enough to send again all that it has not had.
pub aan-in_order :
    {s : System}
    → Reach s
    → (s.far.given ≡ take (length s.far.given) s.said)
      × (s.near.given ≡ take (length s.near.given) s.heard)
      × (s.far.closed ≡ false → length s.said ≤ length s.far.given + length s.near.unacked)
      × (s.near.closed ≡ false → length s.heard ≤ length s.near.given + length s.far.unacked)
aan-in_order {s} r = (h.there.prefix, h.back_again.prefix, keeps h.there, keeps h.back_again)
  where
    h : Holds s
    h = Reach-Holds r

    keeps :
        {a b : Client} {chan back : List Buf} {log : Data}
        → Way a b chan back log
        → b.closed ≡ false
        → length log ≤ length b.given + length a.unacked
    keeps {a} {b} {chan} {back} {log} w c = omega (
      arith,
      Acks-le w.freed back w.got w.acks,
      w.open_all c,
      length-drop w.freed log,
      Numbered-length w.freed a.unacked (drop w.freed log) w.kept,
    )

-- In every reachable state the `assert` of `aanreader` holds at both ends: whichever message comes
-- next, its acknowledgement frees messages that are kept, with the numbers that are expected.
pub aanreader-assert :
    {s : System} (b : Buf) (bs : List Buf)
    → Reach s
    → (s.back ≡ b ∷ bs → (c : Client) × (aanreader b s.near ≡ some c))
      × (s.out ≡ b ∷ bs → (c : Client) × (aanreader b s.far ≡ some c))
aanreader-assert {s} b bs r = (
  λ e. reads_next s.near s.far s.out s.said (rw e at h.there),
  λ e. reads_next s.far s.near s.back s.heard (rw e at h.back_again),
)
  where
    h : Holds s
    h = Reach-Holds r

    reads_next :
        (a c : Client) (chan : List Buf) (log : Data)
        → Way a c chan (b ∷ bs) log
        → (t : Client) × (aanreader b a ≡ some t)
    reads_next a c chan log w = let (t, _, f, _, _) = Acked-Way a c b chan bs log w in (t, f)
