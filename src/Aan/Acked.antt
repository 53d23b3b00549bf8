-- ===== src/Aan/Acked.antt =====
-- A message that is read: the acknowledgement on it, and the whole step.
use drawterm.Prelude.{ℕ, ◌≤◌, ◌≡◌, refl, sym, subst, ◌∙◌, true, some, List, ◌∷◌, drop, u32, arith}
use drawterm.Aan.{Buf, Client, give, aanreader}
use drawterm.Aan.Flow.{Data, Numbered, Acks, Acks-le, Acks-below}
use drawterm.Aan.Reader.{Outcome, stays, leaves, takes, aanreader-Outcome}
use drawterm.Aan.Reads.{Gave, give-Gave}
use drawterm.Aan.Way.{Way}

module _ (s r : Client) (b : Buf) (chan back : List Buf) (log : Data) where
  -- The acknowledgements that follow go from `x` on.
  freed_to :
      (w : Way s r chan (b ∷ back) log) (t : Client) (x : ℕ)
      → t.outmsg ≡ s.outmsg
      → Numbered x t.unacked (drop x log)
      → t.lastacked ≡ u32 x
      → t.up ≡ s.up
      → w.freed ≤ x
      → x ≤ w.got
      → Acks x back w.got
      → Way t r chan back log
  freed_to w t x n k l u low high a = record {
    freed = x;
    got = got;
    first = first;
    next_msg = n ∙ next_msg;
    kept = k;
    last = l;
    wanted = wanted;
    acks = a;
    sent = sent;
    window = omega arith;
    flows = λ e. flows (sym u ∙ e);
    idle = λ e. idle (sym u ∙ e);
    in_log = in_log;
    in_window = in_window;
    order = order;
    prefix = prefix;
    at_most = at_most;
    open_all = open_all;
  }
    where
      open w use {
        got, first, next_msg, wanted, sent, window, flows, idle, in_log, in_window, order, prefix,
        at_most, open_all,
      }

  -- The message is read without a failed `assert`, and what is true of the direction stays true.
  pub Acked-Way :
      Way s r chan (b ∷ back) log
      → (t : Client) × (x : ℕ) × (aanreader b s ≡ some t)
        × Outcome b s x log t
        × Way t r chan back log
  Acked-Way w =
      let (x, low, e, a) = w.acks in
      let high : x ≤ w.got = Acks-le x back w.got a in
      let (t, f, o) =
        aanreader-Outcome b s w.freed x log w.last w.kept e low (omega (arith, w.sent)) w.window in
      (t, x, f, o, after x t low high a o)
    where
      below : (x : ℕ) → w.freed ≤ x → Acks x back w.got → Acks w.freed back w.got
      below x low a = Acks-below x w.freed back w.got low a

      after :
          (x : ℕ) (t : Client)
          → w.freed ≤ x
          → x ≤ w.got
          → Acks x back w.got
          → Outcome b s x log t
          → Way t r chan back log
      after x t low high a (stays _ q) =
          rw q (
            freed_to w s w.freed refl w.kept w.last refl (omega arith) (omega arith)
              (below x low a))
      after x t low high a (leaves _ q) = rw q (
          freed_to w (record s { closed = true }) w.freed refl w.kept w.last refl (omega arith)
            (omega arith) (below x low a))
      after x t low high a (takes d _ _ _ k q) =
          let g : Gave b.bytes d (give b.bytes d) = give-Gave b.bytes d in
          rw q (
            freed_to w (give b.bytes d) x (g.outmsg ∙ k.outmsg)
              (subst (λ us. Numbered x us (drop x log)) (sym g.unacked) k.kept)
              (g.lastacked ∙ k.last) (g.up ∙ k.up) low high a)
