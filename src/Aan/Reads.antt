-- ===== src/Aan/Reads.antt =====
-- A message that is read keeps what is true of both directions of the traffic.
use drawterm.Prelude.{
  ℕ, suc, ◌+◌, ◌^◌, ◌<◌, ◌≤◌, ◌≡◌, ◌≢◌, ◌⊎◌, inl, inr, refl, sym, ap, ◌∙◌, true, false, List, [],
  ◌∷◌, ◌++◌, length, length-append, All, take, drop, Bool-cases, u32, arith,
}
use native.Mathlib.Decide.{dec_le, dec_lt}
use drawterm.Aan.{bufsize, Buf, Client, give}
use drawterm.Aan.Flow.{Data, Carried, IsSync, Flows, Acks-le, Acks-raise}
use drawterm.Aan.Log.{drop_more, take_more, drop_some, drop_all}
use drawterm.Aan.Release.{u32-inj}
use drawterm.Aan.Reader.{Took, Outcome, stays, leaves, takes}
use drawterm.Aan.Way.{IsFull, Way}

-- What the write to the pipe does to its client.
pub record Gave (bytes : List ℕ) (d t : Client) : Type 0 where
  pub inmsg : t.inmsg ≡ d.inmsg
  pub outmsg : t.outmsg ≡ d.outmsg
  pub up : t.up ≡ d.up
  pub pipe_open : t.pipe_open ≡ d.pipe_open
  pub unacked : t.unacked ≡ d.unacked
  pub lastacked : t.lastacked ≡ d.lastacked
  pub written :
      ((d.pipe_open ≡ true) × (t.given ≡ d.given ++ (bytes ∷ [])) × (t.closed ≡ d.closed))
      ⊎ ((d.pipe_open ≡ false) × (t.given ≡ d.given) × (t.closed ≡ true))

pub give-Gave : (bytes : List ℕ) (d : Client) → Gave bytes d (give bytes d)
unfolding give
give-Gave bytes d = elim (Bool-cases d.pipe_open) [
  | inl open_pipe ↦ record {
    inmsg = ground (arith, open_pipe);
    outmsg = ground (arith, open_pipe);
    up = ground (arith, open_pipe);
    pipe_open = ground (arith, open_pipe);
    unacked = ground (arith, open_pipe);
    lastacked = ground (arith, open_pipe);
    written = inl (open_pipe, ground (arith, open_pipe), ground (arith, open_pipe));
  }
  | inr shut ↦ record {
    inmsg = ground (arith, shut);
    outmsg = ground (arith, shut);
    up = ground (arith, shut);
    pipe_open = ground (arith, shut);
    unacked = ground (arith, shut);
    lastacked = ground (arith, shut);
    written = inr (shut, ground (arith, shut), ground (arith, shut));
  }
]

module _ (s r : Client) (b : Buf) (chan back : List Buf) (log : Data) where
  -- The head of the channel is an acknowledgement, or it carries the next data.
  data Head (w : Way s r (b ∷ chan) back log) : Type 0 where
    sync : IsSync b → Flows w.first chan (drop w.first log) → Head w
    carries :
        (d : List ℕ) (ds : Data)
        → drop w.first log ≡ d ∷ ds
        → Carried w.first d b
        → Flows (suc w.first) chan (drop (suc w.first) log)
        → Head w

  head : (w : Way s r (b ∷ chan) back log) → s.up ≡ true → Head w
  head w e = go (drop w.first log) refl (w.flows e)
    where
      go : (ds : Data) → drop w.first log ≡ ds → Flows w.first (b ∷ chan) ds → Head w
      go [] e (y, f) = sync y (rw e f)
      go (d ∷ ds) e (inl (y, f)) = sync y (rw e f)
      go (d ∷ ds) e (inr (c, f)) = carries d ds e c (rw (drop_more w.first log d ds e) f)

  is_up : Way s r (b ∷ chan) back log → s.up ≡ true
  is_up w = elim (Bool-cases s.up) [ inl e ↦ e | inr e ↦ absurd (ground (arith, w.idle e)) ]

  -- The reader passes over a message, and the next is number `n`.
  moved :
      (w : Way s r (b ∷ chan) back log) (t : Client) (n : ℕ)
      → t.inmsg ≡ r.inmsg
      → t.given ≡ r.given
      → r.closed ≡ false
      → Flows n chan (drop n log)
      → n ≤ length log
      → w.got < n + 2 ^ 31
      → (All IsFull log → n ≤ w.got)
      → Way s t chan back log
  moved w t n i g c f l m o = record {
    freed = freed;
    got = got;
    first = n;
    next_msg = next_msg;
    kept = kept;
    last = last;
    wanted = i ∙ wanted;
    acks = acks;
    sent = sent;
    window = window;
    flows = λ _. f;
    idle = λ e. absurd (ground (arith, is_up w));
    in_log = l;
    in_window = m;
    order = o;
    prefix = rw g prefix;
    at_most = rw g at_most;
    open_all = λ e. ap length g ∙ open_all c;
  }
    where
      open w use {
        freed, got, next_msg, kept, last, wanted, acks, sent, window, prefix, at_most, open_all,
      }

  -- The reader takes the next data.
  taken :
      (w : Way s r (b ∷ chan) back log) (d t : Client) (x : ℕ) (other : Data) (bytes : List ℕ)
      (rest : Data)
      → drop w.got log ≡ bytes ∷ rest
      → r.closed ≡ false
      → Took r x other d
      → Gave bytes d t
      → Flows (suc w.got) chan (drop (suc w.got) log)
      → Way s t chan back log
  taken w d t x other bytes rest e c k v f = record {
    freed = freed;
    got = suc got;
    first = suc got;
    next_msg = next_msg;
    kept = kept;
    last = last;
    wanted = rw (v.inmsg, k.inmsg, wanted) (omega arith);
    acks = Acks-raise freed back got (suc got) (omega arith) acks;
    sent = drop_some got log bytes rest e;
    window = window;
    flows = λ _. f;
    idle = λ e. absurd (ground (arith, is_up w));
    in_log = drop_some got log bytes rest e;
    in_window = omega arith;
    order = λ _. omega arith;
    prefix = elim v.written [
      | inl (p, g, _) ↦ rw (longer g) (all g)
      | inr (p, g, _) ↦ rw (g, k.given) prefix
    ];
    at_most = elim v.written [
      | inl (p, g, _) ↦ omega (arith, longer g)
      | inr (p, g, _) ↦ rw (g, k.given) (omega (arith, open_all c))
    ];
    open_all = λ o. elim v.written [ inl (p, g, q) ↦ longer g | inr (p, g, q) ↦ absurd (cc) ];
  }
    where
      open w use {
        freed, got, next_msg, kept, last, wanted, acks, sent, window, prefix, at_most, open_all,
      }

      longer : t.given ≡ d.given ++ (bytes ∷ []) → length t.given ≡ suc got
      longer g =
          ap length (g ∙ ap (λ z. z ++ (bytes ∷ [])) k.given)
          ∙ omega (arith, length-append r.given (bytes ∷ []), open_all c)

      all : t.given ≡ d.given ++ (bytes ∷ []) → t.given ≡ take (suc got) log
      all g =
          g
          ∙ ap (λ z. z ++ (bytes ∷ [])) (k.given ∙ prefix ∙ ap (λ n. take n log) (open_all c))
          ∙ sym (take_more got log bytes rest e)

  numbered :
      (w : Way s r (b ∷ chan) back log) (d : List ℕ)
      → Carried w.first d b
      → b.msg ≡ r.inmsg
      → w.first ≡ w.got
  numbered w d k m = elim (dec_le w.first w.got) [
    | yes l ↦ u32-inj w.first w.got l (omega (arith, w.in_window)) same
    | no l ↦ sym (
        u32-inj w.got w.first (omega arith)
          (omega (arith, w.window, w.in_log, Acks-le w.freed back w.got w.acks)) (sym same))
  ]
    where
      same : u32 w.first ≡ u32 w.got
      same = sym k.number ∙ m ∙ w.wanted

  -- A reader passes over full data only when it has them.
  passed :
      (w : Way s r (b ∷ chan) back log) (d : List ℕ) (ds : Data)
      → drop w.first log ≡ d ∷ ds
      → Carried w.first d b
      → All IsFull log
      → (((b.nb ≡ 0) ⊎ (bufsize < b.nb)) ⊎ (b.msg ≢ r.inmsg))
      → suc w.first ≤ w.got
  passed w d ds e k full (inl small) =
      absurd (ground (arith, drop_all w.first log d ds IsFull e full, k.size, small))
  passed w d ds e k full (inr other) = elim (dec_lt w.first w.got) [
    | yes l ↦ omega arith
    | no l ↦
        let same : w.first ≡ w.got = omega (arith, w.order full) in
        absurd (other (k.number ∙ ap u32 same ∙ sym w.wanted))
  ]

  pub Outcome-Way :
      (w : Way s r (b ∷ chan) back log) (x : ℕ) (other : Data) (t : Client)
      → r.closed ≡ false
      → Outcome b r x other t
      → Way s t chan back log
  Outcome-Way w x other t c o = elim (head w (is_up w)) [
    | sync (y, z) f ↦ elim o [
      | stays _ e ↦ rw e (moved w r w.first refl refl c f w.in_log w.in_window w.order)
      | leaves _ e ↦
          rw e (
            moved w (record r { closed = true }) w.first refl refl c f w.in_log w.in_window w.order)
      | takes d p l m k e ↦ absurd (omega arith)
    ]
    | carries d ds e k f ↦ elim o [
      | stays why q ↦ rw q (
          moved w r (suc w.first) refl refl c f (drop_some w.first log d ds e)
            (omega (arith, w.in_window))
            (λ full.
              passed w d ds e k full (elim why [ inl (z, _) ↦ inl (inl z) | inr n ↦ inr n ])))
      | leaves why q ↦ rw q (
          moved w (record r { closed = true }) (suc w.first) refl refl c f
            (drop_some w.first log d ds e) (omega (arith, w.in_window))
            (λ full.
              passed w d ds e k full (inl (elim why [ inl (z, _) ↦ inl z | inr big ↦ inr big ]))))
      | takes u p l m v q ↦
          let n : w.first ≡ w.got = numbered w d k m in
          rw (q, k.content)
            (taken w u (give d u) x other d ds (rw (sym n) e) c v (give-Gave d u) (rw (sym n) f))
    ]
  ]

  -- A reader whose pipe is open stays in its loop, when all data are full.
  pub Outcome-open :
      (w : Way s r (b ∷ chan) back log) (x : ℕ) (other : Data) (t : Client)
      → All IsFull log
      → r.closed ≡ false
      → r.pipe_open ≡ true
      → Outcome b r x other t
      → (t.closed ≡ false) × (t.pipe_open ≡ true) × (t.up ≡ r.up)
  Outcome-open w x other t full c p (stays _ q) = rw q (c, p, refl)
  Outcome-open w x other t full c p (leaves why q) = absurd (elim (head w (is_up w)) [
    | sync (y, z) f ↦ elim why [ inl (_, n) ↦ n z | inr big ↦ omega arith ]
    | carries d ds e k f ↦ ground (arith, drop_all w.first log d ds IsFull e full, k.size, why)
  ])
  Outcome-open w x other t full c p (takes u _ _ _ v q) = elim (give-Gave b.bytes u).written [
    | inl (_, _, same) ↦ rw q (
      same ∙ v.closed ∙ c,
      (give-Gave b.bytes u).pipe_open ∙ v.pipe_open ∙ p,
      (give-Gave b.bytes u).up ∙ v.up,
    )
    | inr (shut, _, _) ↦ absurd (ground (arith, shut, v.pipe_open))
  ]
