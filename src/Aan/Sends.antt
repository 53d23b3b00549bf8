-- ===== src/Aan/Sends.antt =====
-- The sending client's operations keep what is true of its direction of the traffic.
use drawterm.Prelude.{
  drop-append_le, take-append_le, ℕ, ◌+◌, ◌^◌, ◌<◌, ◌≤◌, ◌≡◌, inl, inr, refl, sym, subst, ap, ◌∙◌,
  true, false, List, [], ◌∷◌, ◌++◌, length, length-append, length-drop, All, drop, Bool-cases, u32,
  arith,
}
use drawterm.Aan.{Buf, Client, new_buf, aanwriter, aansyncer, reconnect}
use drawterm.Aan.Flow.{
  Data, Carried, Numbered-append, Numbered-length, Numbered-map, Numbered→Flows, Flows-append,
  Flows-sync, Acks-le, Acks-append, All-acked,
}
use drawterm.Aan.Log.{All-front}
use drawterm.Aan.Way.{IsFull, Way}

-- What `aanwriter` does to its client.
record Wrote (bytes : List ℕ) (s t : Client) (more : List Buf) : Type 0 where
  outmsg : t.outmsg ≡ u32 (s.outmsg + 1)
  unacked : t.unacked ≡ s.unacked ++ (new_buf bytes s ∷ [])
  lastacked : t.lastacked ≡ s.lastacked
  up : t.up ≡ s.up
  sent : s.up ≡ true → more ≡ new_buf bytes s ∷ []
  unsent : s.up ≡ false → more ≡ []
  inmsg : t.inmsg ≡ s.inmsg
  given : t.given ≡ s.given
  closed : t.closed ≡ s.closed

aanwriter-Wrote :
    (bytes : List ℕ) (s : Client) → Wrote bytes s (aanwriter bytes s).1 (aanwriter bytes s).0
unfolding aanwriter
aanwriter-Wrote bytes s = elim (Bool-cases s.up) [
  | inl up ↦ record {
    outmsg = ground (arith, up);
    unacked = ground (arith, up);
    lastacked = ground (arith, up);
    up = ground (arith, up);
    sent = λ _. ground (arith, up);
    unsent = λ e. absurd (cc);
    inmsg = ground (arith, up);
    given = ground (arith, up);
    closed = ground (arith, up);
  }
  | inr down ↦ record {
    outmsg = ground (arith, down);
    unacked = ground (arith, down);
    lastacked = ground (arith, down);
    up = ground (arith, down);
    sent = λ e. absurd (cc);
    unsent = λ _. ground (arith, down);
    inmsg = ground (arith, down);
    given = ground (arith, down);
    closed = ground (arith, down);
  }
]

module _ (s r : Client) (chan back : List Buf) (log : Data) (w : Way s r chan back log) where
  open w use {
    freed, got, first, next_msg, kept, last, wanted, acks, sent, window, flows, idle, in_log,
    in_window, order, prefix, at_most, open_all,
  }

  freed_in_log : freed ≤ length log
  freed_in_log = omega (arith, Acks-le freed back got acks)

  new-Carried :
      (bytes : List ℕ) (i : ℕ)
      → i ≤ length log
      → Carried (i + length (drop i log)) bytes (new_buf bytes s)
  unfolding new_buf
  new-Carried bytes i l = record {
    number = next_msg ∙ ap u32 (omega (arith, length-drop i log));
    size = refl;
    content = refl;
  }

  Wrote-Way :
      (bytes : List ℕ) (t : Client) (more : List Buf)
      → length s.unacked + 1 < 2 ^ 31
      → Wrote bytes s t more
      → Way t r (chan ++ more) back (log ++ (bytes ∷ []))
  Wrote-Way bytes t more room x = record {
    freed = freed;
    got = got;
    first = first;
    next_msg = rw (x.outmsg, next_msg) (omega (arith, length-append log (bytes ∷ [])));
    kept =
        rw (x.unacked, drop-append_le freed log (bytes ∷ []) freed_in_log)
          (Numbered-append freed s.unacked (drop freed log) (new_buf bytes s) bytes kept
            (new-Carried bytes freed freed_in_log));
    last = x.lastacked ∙ last;
    wanted = wanted;
    acks = acks;
    sent = omega (arith, length-append log (bytes ∷ []));
    window = omega (
      arith,
      length-append log (bytes ∷ []),
      length-drop freed log,
      Numbered-length freed s.unacked (drop freed log) kept,
    );
    flows = λ e.
        rw (x.sent (sym x.up ∙ e), drop-append_le first log (bytes ∷ []) in_log)
          (Flows-append first chan (drop first log) (new_buf bytes s) bytes (flows (sym x.up ∙ e))
            (new-Carried bytes first in_log));
    idle = λ e. rw (x.unsent (sym x.up ∙ e), idle (sym x.up ∙ e));
    in_log = omega (arith, length-append log (bytes ∷ []));
    in_window = in_window;
    order = λ a. order (All-front IsFull log (bytes ∷ []) a);
    prefix = prefix ∙ sym (take-append_le (length r.given) log (bytes ∷ []) (omega arith));
    at_most = at_most;
    open_all = open_all;
  }

  pub sync-Way : Way s r (chan ++ aansyncer s) back log
  unfolding aansyncer
  sync-Way = record {
    freed = freed;
    got = got;
    first = first;
    next_msg = next_msg;
    kept = kept;
    last = last;
    wanted = wanted;
    acks = acks;
    sent = sent;
    window = window;
    flows = λ e. rw e (Flows-sync first chan (drop first log) _ (flows e) (refl, refl));
    idle = λ e. rw (e, idle e);
    in_log = in_log;
    in_window = in_window;
    order = order;
    prefix = prefix;
    at_most = at_most;
    open_all = open_all;
  }

  -- A client that dials again sends all that is not acknowledged.
  pub redial-Way : Way (reconnect s).1 r (reconnect s).0 back log
  unfolding reconnect
  redial-Way = record {
    freed = freed;
    got = got;
    first = freed;
    next_msg = next_msg;
    kept = Numbered-map s.inmsg freed s.unacked (drop freed log) kept;
    last = last;
    wanted = wanted;
    acks = acks;
    sent = sent;
    window = window;
    flows = λ _.
        Numbered→Flows freed _ (drop freed log)
          (Numbered-map s.inmsg freed s.unacked (drop freed log) kept);
    idle = λ e. absurd (cc);
    in_log = freed_in_log;
    in_window = omega arith;
    order = λ _. Acks-le freed back got acks;
    prefix = prefix;
    at_most = at_most;
    open_all = open_all;
  }

  pub break-Way : Way (record s { up = false }) (record r { up = false }) [] [] log
  break-Way = record {
    freed = freed;
    got = got;
    first = first;
    next_msg = next_msg;
    kept = kept;
    last = last;
    wanted = wanted;
    acks = Acks-le freed back got acks;
    sent = sent;
    window = window;
    flows = λ e. absurd (cc);
    idle = λ _. refl;
    in_log = in_log;
    in_window = in_window;
    order = order;
    prefix = prefix;
    at_most = at_most;
    open_all = open_all;
  }

  -- What the receiving client sends carries its acknowledgement.
  acked-Way :
      (t : Client) (more : List Buf)
      → t.inmsg ≡ r.inmsg
      → t.given ≡ r.given
      → t.closed ≡ r.closed
      → All (λ b. b.acked ≡ r.inmsg) more
      → Way s t chan (back ++ more) log
  acked-Way t more i g c a = record {
    freed = freed;
    got = got;
    first = first;
    next_msg = next_msg;
    kept = kept;
    last = last;
    wanted = i ∙ wanted;
    acks =
        Acks-append freed back more got acks
          (subst (λ n. All {A = Buf} (λ b. b.acked ≡ n) more) wanted a);
    sent = sent;
    window = window;
    flows = flows;
    idle = idle;
    in_log = in_log;
    in_window = in_window;
    order = order;
    prefix = rw g prefix;
    at_most = rw g at_most;
    open_all = λ e. ap length g ∙ open_all (sym c ∙ e);
  }

pub writes-sender :
    (s r : Client) (chan back : List Buf) (log : Data) (bytes : List ℕ)
    → length s.unacked + 1 < 2 ^ 31
    → Way s r chan back log
    → Way (aanwriter bytes s).1 r (chan ++ (aanwriter bytes s).0) back (log ++ (bytes ∷ []))
writes-sender s r chan back log bytes room w =
    Wrote-Way s r chan back log w bytes (aanwriter bytes s).1 (aanwriter bytes s).0 room
      (aanwriter-Wrote bytes s)

pub writes-receiver :
    (s r : Client) (chan back : List Buf) (log : Data) (bytes : List ℕ)
    → Way s r chan back log
    → Way s (aanwriter bytes r).1 chan (back ++ (aanwriter bytes r).0) log
unfolding new_buf
writes-receiver s r chan back log bytes w =
    acked-Way s r chan back log w (aanwriter bytes r).1 (aanwriter bytes r).0 x.inmsg x.given
      x.closed
      (elim (Bool-cases r.up) [
        | inl up ↦ rw (x.sent up) (refl, tt)
        | inr down ↦ rw (x.unsent down) tt
      ])
  where
    x : Wrote bytes r (aanwriter bytes r).1 (aanwriter bytes r).0
    x = aanwriter-Wrote bytes r

pub syncs-receiver :
    (s r : Client) (chan back : List Buf) (log : Data)
    → Way s r chan back log
    → Way s r chan (back ++ aansyncer r) log
unfolding aansyncer
syncs-receiver s r chan back log w =
    acked-Way s r chan back log w r (aansyncer r) refl refl refl
      (elim (Bool-cases r.up) [ inl up ↦ rw up (refl, tt) | inr down ↦ rw down tt ])

pub redials-receiver :
    (s r : Client) (chan : List Buf) (log : Data)
    → Way s r chan [] log
    → Way s (reconnect r).1 chan (reconnect r).0 log
unfolding reconnect
redials-receiver s r chan log w =
    acked-Way s r chan [] log w (reconnect r).1 (reconnect r).0 refl refl refl
      (All-acked r.inmsg r.unacked)
