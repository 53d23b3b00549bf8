-- ===== src/Mnt/Tests.antt =====
-- Runs on small masks and pools, and the witnesses.
use drawterm.Prelude.{
  inl, none, ◌==◌, if◌then◌else◌, true, All, ℕ, ◌<◌, ◌≡◌, ◌≢◌, refl, some, List, [], ◌∷◌, arith,
}
use drawterm.Mnt.{
  alloctag, Mntalloc, mntreset, mntralloc, full, alloc_rpc, set_bit, first_clear, update,
}
use drawterm.Mnt.Tags.{AreWords}
use drawterm.Mnt.Free.{AllocTag, alloctag_lem}
use drawterm.Mnt.Pool.{with_tag, Home, absent, used, move, alloc, Reach, here, next}
use drawterm.Mnt.Mux.{
  Reply, Mnt, rflush, send, idle, receive, mountmux, find_tag, Runs, begins, goes, sends, reads,
  gets,
}
use drawterm.Mnt.Multiplex.{mountmux_lem, Runs-answered}
use drawterm.Mnt.Calls.{Reach-tags}

-- The first mask is full, and the second has two tags taken.
abbrev masks : List ℕ
masks = 0xffff_ffff ∷ 5 ∷ 0 ∷ []

masks-AreWords : AreWords masks
unfolding full
masks-AreWords = (omega arith, (omega arith, (omega arith, tt)))

alloctag_run : alloctag 0 masks ≡ some (33, 0xffff_ffff ∷ 7 ∷ 0 ∷ [])
unfolding alloctag set_bit first_clear
alloctag_run = refl

alloctag_lem_example : AllocTag masks (alloctag 0 masks)
alloctag_lem_example = alloctag_lem masks masks-AreWords

-- Two requests, allocated one after the other: the first two tags are 1 and 2.
abbrev first : Mntalloc
first = with_tag mntreset 3 1 (update 0 (λ v. 3) mntreset.tagmask)

abbrev second : Mntalloc
second = with_tag first 4 2 (update 0 (λ v. 7) mntreset.tagmask)

first_made : mntralloc (some 3) mntreset ≡ some (3, first)
unfolding mntralloc mntreset alloc_rpc alloctag set_bit first_clear
first_made = refl

second_made : mntralloc (some 4) first ≡ some (4, second)
unfolding mntralloc mntreset alloc_rpc alloctag set_bit first_clear
second_made = refl

abbrev places : ℕ → Home
places = move (move (λ r. absent) 3 used) 4 used

both_used : Reach second places
both_used =
    next (next here (alloc (some 3) 3 first (λ q e. refl) first_made))
      (alloc (some 4) 4 second (λ q e. ground (arith, e)) second_made)

Reach-tags_example : (second.tag 3 ≢ second.tag 4) × (second.tag 3 ≢ 0) × (second.tag 3 < 0xffff)
Reach-tags_example = Reach-tags second places both_used 3 4 refl refl (λ e. absurd (omega arith))

-- The requests 3 and 4 are sent under the tags 1 and 2; the process of 3 reads, and gets the answer
-- to 4.
abbrev sent : Mnt
sent = record (send 4 2 (send 3 1 idle)) { rip = some 3 }

abbrev answer : Reply
answer = record { tag = 2; type = 117 }

sent_run : Runs sent
unfolding send
sent_run =
    goes
      (goes (goes begins (sends idle 3 1 tt tt)) (
        sends (send 3 1 idle) 4 2 ((λ e. absurd (omega arith), tt))
          ((λ e. absurd (omega arith), tt))))
      (reads (send 4 2 (send 3 1 idle)) 3 refl)

abbrev got : Mnt
got = (mountmux 3 (receive 3 answer (some 9) sent)).1

got_run : Runs got
unfolding send
got_run = goes sent_run (gets sent 3 answer (some 9) refl refl)

got_done : (got.rpc 4).done ≡ true
unfolding send mountmux receive find_tag
got_done = refl

Runs-answered_example : (got.rpc 4).reply.tag ≡ (got.rpc 4).tag
Runs-answered_example = Runs-answered got got_run 4 got_done not_flushed
  where
    not_flushed : (got.rpc 4).reply.type ≢ rflush
    not_flushed = unfold send mountmux receive find_tag in λ e. absurd (omega arith)

-- The request 4 is in the queue, and its answer has come to the process of 3.
abbrev ready : Mnt
ready = receive 3 answer (some 9) sent

mountmux_lem_example :
    let (woken, m') = mountmux 3 ready in
    ((m'.rpc 4).done ≡ true)
    × ((m'.rpc 4).reply ≡ (ready.rpc 3).reply)
    × (woken ≡ (if 4 == 3 then none else some 4))
    × All (λ p. p ≢ 4) m'.queue
mountmux_lem_example =
    mountmux_lem ready 3 4 (unfold send receive in ((λ e. absurd (omega arith), tt), (tt, tt)))
      (unfold send receive in inl refl) (unfold send receive in refl)
