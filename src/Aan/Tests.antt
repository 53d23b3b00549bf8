-- ===== src/Aan/Tests.antt =====
-- Runs of two AAN clients at concrete inputs, and the witnesses.
use drawterm.Prelude.{◌≡◌, ◌≤◌, refl, false, some, [], ◌∷◌, ◌+◌, length, take, arith}
use drawterm.Aan.{
  Buf, Client, new_buf, aanwriter, aansyncer, reconnect, release, is_ahead, acknowledge, give,
  accept, aanreader,
}
use drawterm.Aan.System.{System, writes, reads, redials, at_near, at_far, Reach, here, next}
use drawterm.Aan.Safety.{aan-in_order, aanreader-assert}
use drawterm.Aan.Delivery.{Runs, aan-recovers}

-- Both ends dial, the near program writes twice, and the far client reads the first message.
two_writes : (s : System) × Reach s
unfolding new_buf aanwriter aansyncer reconnect release is_ahead acknowledge give accept aanreader
two_writes = (
  _,
  next
      (next
        (next (next (next here (at_near (redials refl refl))) (at_far (redials refl refl)))
          (at_near (writes (1 ∷ 2 ∷ []) (omega arith) refl (omega arith))))
        (at_near (writes (3 ∷ []) (omega arith) refl (omega arith))))
      (at_far (reads _ _ _ refl refl refl refl)),
)

two_writes-given : two_writes.0.far.given ≡ (1 ∷ 2 ∷ []) ∷ []
unfolding two_writes
two_writes-given = refl

aan-in_order_example :
    (two_writes.0.far.given ≡ take (length two_writes.0.far.given) two_writes.0.said)
    × (two_writes.0.near.given ≡ take (length two_writes.0.near.given) two_writes.0.heard)
    × (two_writes.0.far.closed ≡ false
        → length two_writes.0.said
          ≤ length two_writes.0.far.given + length two_writes.0.near.unacked)
    × (two_writes.0.near.closed ≡ false
        → length two_writes.0.heard
          ≤ length two_writes.0.near.given + length two_writes.0.far.unacked)
aan-in_order_example = aan-in_order two_writes.1

abbrev second : Buf
second = record { nb = 1; msg = 1; acked = 0; bytes = 3 ∷ [] }

aanreader-assert_example :
    (two_writes.0.back ≡ second ∷ [] → (c : Client) × (aanreader second two_writes.0.near ≡ some c))
    × (two_writes.0.out ≡ second ∷ [] → (c : Client) × (aanreader second two_writes.0.far ≡ some c))
aanreader-assert_example = aanreader-assert second [] two_writes.1

-- The message on its way in `two_writes` is `second`.
two_writes-out : two_writes.0.out ≡ second ∷ []
unfolding two_writes
two_writes-out = refl

aan-recovers_example :
    (t : System) × Runs two_writes.0 t
    × (t.far.given ≡ (1 ∷ 2 ∷ []) ∷ (3 ∷ []) ∷ [])
    × (t.near.given ≡ [])
    × (t.out ≡ [])
    × (t.back ≡ [])
unfolding two_writes
aan-recovers_example =
    aan-recovers two_writes.1 refl refl refl refl
      ((omega arith, omega arith), ((omega arith, omega arith), tt)) tt
