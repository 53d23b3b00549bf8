-- ===== src/Aan/Reader.antt =====
-- `aanreader`: what one message does to a client.
use drawterm.Prelude.{
  ℕ, suc, ◌+◌, ◌-◌, ◌^◌, ◌<◌, ◌≤◌, ◌≡◌, ◌≢◌, ◌⊎◌, inl, inr, refl, subst, true, false, ◌||◌, some,
  List, length, length-drop, drop, ltb, leb, ◌==◌, Bool-cases, u32, ap, ◌∙◌, arith,
}
use drawterm.Aan.{
  bufsize, sync_msg, Buf, Client, release, is_ahead, acknowledge, give, accept, aanreader,
}
use drawterm.Aan.Flow.{Data, IsSync, Numbered, Numbered-length}
use drawterm.Aan.Log.{drop-drop}
use drawterm.Aan.Release.{release-Numbered, is_ahead_iff}

-- The client `d` is `c` after a message that acknowledged the first `x` messages of `log`.
pub record Took (c : Client) (x : ℕ) (log : Data) (d : Client) : Type 0 where
  pub inmsg : d.inmsg ≡ u32 (c.inmsg + 1)
  pub outmsg : d.outmsg ≡ c.outmsg
  pub up : d.up ≡ c.up
  pub pipe_open : d.pipe_open ≡ c.pipe_open
  pub given : d.given ≡ c.given
  pub closed : d.closed ≡ c.closed
  pub last : d.lastacked ≡ u32 x
  pub kept : Numbered x d.unacked (drop x log)

pub data Outcome (b : Buf) (c : Client) (x : ℕ) (log : Data) (c' : Client) : Type 0 where
  stays : (IsSync b ⊎ (b.msg ≢ c.inmsg)) → c' ≡ c → Outcome b c x log c'
  leaves :
      (((b.nb ≡ 0) × (b.msg ≢ sync_msg)) ⊎ (bufsize < b.nb))
      → c' ≡ record c { closed = true }
      → Outcome b c x log c'
  takes :
      (d : Client)
      → 0 < b.nb
      → b.nb ≤ bufsize
      → b.msg ≡ c.inmsg
      → Took c x log d
      → c' ≡ give b.bytes d
      → Outcome b c x log c'

acknowledge-level : (a : ℕ) (c : Client) → is_ahead a c.lastacked ≡ false → acknowledge a c ≡ some c
unfolding acknowledge
acknowledge-level a c e = rw e

acknowledge-ahead :
    (a : ℕ) (c : Client) (l : ℕ) (us : List Buf)
    → is_ahead a c.lastacked ≡ true
    → release a c.lastacked c.unacked ≡ some (l, us)
    → acknowledge a c ≡ some (record c { lastacked = l; unacked = us })
unfolding acknowledge
acknowledge-ahead a c l us e f = rw (e, f)

module _ (c : Client) (freed x : ℕ) (log : Data) (a : ℕ) where
  release-Took :
      c.lastacked ≡ u32 freed
      → Numbered freed c.unacked (drop freed log)
      → a ≡ u32 x
      → freed < x
      → x ≤ length log
      → length log < freed + 2 ^ 31
      → (us : List Buf) × (release a c.lastacked c.unacked ≡ some (u32 x, us))
        × Numbered x us (drop x log)
  release-Took last kept acked ahead to window =
      let (us, e, n) =
        release-Numbered k freed c.unacked (drop freed log) kept
          (omega
            (arith, Numbered-length freed c.unacked (drop freed log) kept, length-drop freed log))
          (omega arith) in
      found us e n
    where
      k : ℕ
      k = x - suc freed

      all : freed + suc k ≡ x
      all = omega arith

      found :
          (us : List Buf)
          → release (u32 (freed + suc k)) (u32 freed) c.unacked ≡ some (u32 (freed + suc k), us)
          → Numbered (freed + suc k) us (drop (suc k) (drop freed log))
          → (us : List Buf) × (release a c.lastacked c.unacked ≡ some (u32 x, us))
            × Numbered x us (drop x log)
      found us e n = (
        us,
        rw (acked, last)
            (subst (λ j. release (u32 j) (u32 freed) c.unacked ≡ some (u32 j, us)) all e),
        subst (λ j. Numbered j us (drop j log)) all
            (subst (Numbered (freed + suc k) us) (drop-drop (suc k) freed log) n),
      )

  acknowledge-Took :
      c.lastacked ≡ u32 freed
      → Numbered freed c.unacked (drop freed log)
      → a ≡ u32 x
      → freed ≤ x
      → x ≤ length log
      → length log < freed + 2 ^ 31
      → (d : Client) × (acknowledge a (record c { inmsg = u32 (c.inmsg + 1) }) ≡ some d)
        × Took c x log d
  acknowledge-Took last kept acked from to window = elim (Bool-cases (ltb freed x)) [
    | inl ahead ↦
        let (us, e, n) = release-Took last kept acked (ground (arith, ahead)) to window in
        (
          record c { inmsg = u32 (c.inmsg + 1); lastacked = u32 x; unacked = us },
          acknowledge-ahead a (record c { inmsg = u32 (c.inmsg + 1) }) (u32 x) us (test ∙ ahead) e,
          record {
            inmsg = refl;
            outmsg = refl;
            up = refl;
            pipe_open = refl;
            given = refl;
            closed = refl;
            last = refl;
            kept = n;
          },
        )
    | inr level ↦
        let same : freed ≡ x = ground (arith, level) in
        (
          record c { inmsg = u32 (c.inmsg + 1) },
          acknowledge-level a (record c { inmsg = u32 (c.inmsg + 1) }) (test ∙ level),
          record {
            inmsg = refl;
            outmsg = refl;
            up = refl;
            pipe_open = refl;
            given = refl;
            closed = refl;
            last = last ∙ ap u32 same;
            kept = subst (λ j. Numbered j c.unacked (drop j log)) same kept;
          },
        )
  ]
    where
      test : is_ahead a c.lastacked ≡ ltb freed x
      test = rw (acked, last) (is_ahead_iff x freed from (omega arith))

-- The `assert` holds, and the message has one of three effects.
pub aanreader-Outcome :
    (b : Buf) (c : Client) (freed x : ℕ) (log : Data)
    → c.lastacked ≡ u32 freed
    → Numbered freed c.unacked (drop freed log)
    → b.acked ≡ u32 x
    → freed ≤ x
    → x ≤ length log
    → length log < freed + 2 ^ 31
    → (c' : Client) × (aanreader b c ≡ some c') × Outcome b c x log c'
aanreader-Outcome b c freed x log last kept acked from to window = elim (Bool-cases (b.nb == 0)) [
  | inl empty ↦ elim (Bool-cases (b.msg == sync_msg)) [
    | inl sync ↦ (
      c,
      unfold aanreader in rw (empty, sync),
      stays (inl (ground (arith, empty), ground (arith, sync))) refl,
    )
    | inr eof ↦ (
      record c { closed = true },
      unfold aanreader in rw (empty, eof),
      leaves (inl (ground (arith, empty), ground (arith, eof))) refl,
    )
  ]
  | inr data_msg ↦ elim (Bool-cases (leb (2 ^ 31) b.nb || ltb bufsize b.nb)) [
    | inl large ↦ (
      record c { closed = true },
      unfold aanreader in rw (data_msg, large),
      leaves (inr (ground (arith, large))) refl,
    )
    | inr fits ↦ elim (Bool-cases (b.msg == c.inmsg)) [
      | inl wanted ↦
          let (d, e, t) = acknowledge-Took c freed x log b.acked last kept acked from to window in
          (
            give b.bytes d,
            unfold aanreader accept in rw (data_msg, fits, wanted, e),
            takes d (ground (arith, data_msg)) (ground (arith, fits)) (ground (arith, wanted)) t
                refl,
          )
      | inr other ↦ (
        c,
        unfold aanreader accept in rw (data_msg, fits, other),
        stays (inr (ground (arith, other))) refl,
      )
    ]
  ]
]
