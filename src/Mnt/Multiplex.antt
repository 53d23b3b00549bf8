-- ===== src/Mnt/Multiplex.antt =====
-- `mountmux`, `mntflushfree` and every sequence of their steps.
use drawterm.Prelude.{
  ℕ, ◌≡◌, ◌≢◌, ◌⊎◌, inl, inr, refl, true, false, subst, ◌∙◌, sym, none, some, List, [], ◌∷◌, All,
  ◌==◌, Bool-cases, Option-cases, if◌then◌else◌, arith,
}
use drawterm.Mnt.Mux.{
  Mntrpc, Mnt, rflush, set_rpc, find_tag, receive, mountmux, remove, mntqrm, flush, Run, sends,
  reads, gets, gates, flushes, Answered, Apart, Delivered, Runs, begins, goes,
}
use drawterm.Mnt.Deliver.{
  Found, find_tag-Found, find_tag_once, set_keeps, set_same, Apart-set, Apart-tags, open-set,
  open-set_open, not_done, send-Delivered, receive-Delivered, map_All,
}

mountmux-Delivered :
    (m : Mnt) (r : ℕ) → Delivered m → (m.rpc r).done ≡ false → Delivered (mountmux r m).1
mountmux-Delivered m r d e = elim (Option-cases (find_tag m.rpc (m.rpc r).reply.tag m.queue)) [
  | inl n ↦ let same : (mountmux r m).1 ≡ m = unfold mountmux in ground (arith, n) in rw same d
  | inr ((q, qs), f) ↦
      let found = find_tag-Found m.rpc (m.rpc r).reply.tag m.queue d.apart q qs f in
      elim (Bool-cases (q == r)) [
        | inl own ↦
            let result : (mountmux r m).1 ≡ mine qs = unfold mountmux in ground (arith, f, own) in
            rw result (mine-Delivered q qs found (ground (arith, own)))
        | inr other ↦
            let result : (mountmux r m).1 ≡ theirs q qs =
              unfold mountmux in ground (arith, f, other) in
            rw result (theirs-Delivered q qs found)
      ]
]
  where
    t : ℕ
    t = (m.rpc r).reply.tag

    mine : List ℕ → Mnt
    mine qs = record m { queue = qs; rpc = set_rpc r (record (m.rpc r) { done = true }) m.rpc }

    theirs : ℕ → List ℕ → Mnt
    theirs q qs = record m {
      queue = qs;
      rpc =
          set_rpc r (record (m.rpc r) { b = none })
            (set_rpc q (record (m.rpc q) { reply = (m.rpc r).reply; b = (m.rpc r).b; done = true })
              m.rpc);
    }

    mine-Delivered :
        (q : ℕ) (qs : List ℕ) → Found m.rpc t m.queue q qs → q ≡ r → Delivered (mine qs)
    mine-Delivered q qs f same = record {
      answered = λ p.
          set_keeps Answered r v m.rpc p (λ _ _. ground (arith, f.tagged, same)) (d.answered p);
      open_queue =
          open-set r v m.rpc qs (rw same at (find_tag_once m.rpc t m.queue q qs f))
            (f.kept _ d.open_queue);
      apart = Apart-set r v m.rpc qs refl f.apart;
    }
      where
        v : Mntrpc
        v = record (m.rpc r) { done = true }

    theirs-Delivered : (q : ℕ) (qs : List ℕ) → Found m.rpc t m.queue q qs → Delivered (theirs q qs)
    theirs-Delivered q qs f = record {
      answered = λ p.
          set_keeps Answered r w (set_rpc q v m.rpc) p (not_done w e)
            (set_keeps Answered q v m.rpc p (λ _ _. sym f.tagged) (d.answered p));
      open_queue =
          open-set_open r w (set_rpc q v m.rpc) qs e
            (open-set q v m.rpc qs (find_tag_once m.rpc t m.queue q qs f) (f.kept _ d.open_queue));
      apart = Apart-tags m.rpc (set_rpc r w (set_rpc q v m.rpc)) qs (all_same qs) f.apart;
    }
      where
        v : Mntrpc
        v = record (m.rpc q) { reply = (m.rpc r).reply; b = (m.rpc r).b; done = true }

        w : Mntrpc
        w = record (m.rpc r) { b = none }

        all_same :
            (qs : List ℕ) → All (λ p. (set_rpc r w (set_rpc q v m.rpc) p).tag ≡ (m.rpc p).tag) qs
        all_same [] = tt
        all_same (p ∷ qs) = (ground arith, all_same qs)

-- A request is in the queue.
abbrev pub In : ℕ → List ℕ → Type 0
In q [] = ⊥
In q (p ∷ ps) = (p ≡ q) ⊎ In q ps

find_tag-In :
    (rpc : ℕ → Mntrpc) (t q : ℕ) (queue : List ℕ)
    → Apart rpc queue
    → In q queue
    → (rpc q).tag ≡ t
    → (qs : List ℕ) × (find_tag rpc t queue ≡ some (q, qs))
unfolding find_tag
find_tag-In rpc t q [] a d tagged = absurd d
find_tag-In rpc t q (p ∷ ps) a (inl e) tagged =
    let hit : ((rpc p).tag == t) ≡ true =
      ground (arith, subst (λ x. (rpc x).tag ≡ t) (sym e) tagged) in
    (ps, ground (arith, hit, e))
find_tag-In rpc t q (p ∷ ps) a (inr d) tagged =
    let (qs, e) = find_tag-In rpc t q ps a.1 d tagged in
    let miss : ((rpc p).tag == t) ≡ false = ground (arith, unlike p ps a.0 d, tagged) in
    (p ∷ qs, ground (arith, miss, e))
  where
    unlike :
        (p : ℕ) (ps : List ℕ)
        → All (λ z. (rpc z).tag ≢ (rpc p).tag) ps
        → In q ps
        → (rpc q).tag ≢ (rpc p).tag
    unlike p [] h d = absurd d
    unlike p (z ∷ zs) h (inl e) = λ x. h.0 (subst (λ y. (rpc y).tag ≡ (rpc p).tag) (sym e) x)
    unlike p (z ∷ zs) h (inr d) = unlike p zs h.1 d

-- If the requests in the queue have different tags, `mountmux` gives the reply to the queued request
-- with its tag: that one is done and has the reply, is out of the queue, and its process is woken,
-- unless it is the reader's.
pub mountmux_lem :
    (m : Mnt) (r q : ℕ)
    → Apart m.rpc m.queue
    → In q m.queue
    → (m.rpc q).tag ≡ (m.rpc r).reply.tag
    → let (woken, m') = mountmux r m in
      ((m'.rpc q).done ≡ true)
      × ((m'.rpc q).reply ≡ (m.rpc r).reply)
      × (woken ≡ (if q == r then none else some q))
      × All (λ p. p ≢ q) m'.queue
unfolding mountmux
mountmux_lem m r q a d tagged =
    let (qs, f) = find_tag-In m.rpc (m.rpc r).reply.tag q m.queue a d tagged in
    let out =
      find_tag_once m.rpc (m.rpc r).reply.tag m.queue q qs
        (find_tag-Found m.rpc (m.rpc r).reply.tag m.queue a q qs f) in
    elim (Bool-cases (q == r)) [
      | inl own ↦
          let same : q ≡ r = ground (arith, own) in
          rw (f, mountmux, own) (ground (arith, same), ground (arith, same), refl, out)
      | inr other ↦
          rw (f, mountmux, other) (ground (arith, other), ground (arith, other), refl, out)
    ]

All-remove : (P : ℕ → Type 0) (r : ℕ) (qs : List ℕ) → All P qs → All P (remove r qs)
All-remove P r [] a = tt
All-remove P r (q ∷ qs) a = elim (Bool-cases (q == r)) [
  | inl e ↦ rw e a.1
  | inr n ↦ rw n (a.0, All-remove P r qs a.1)
]

Apart-remove : (rpc : ℕ → Mntrpc) (r : ℕ) (qs : List ℕ) → Apart rpc qs → Apart rpc (remove r qs)
Apart-remove rpc r [] a = tt
Apart-remove rpc r (q ∷ qs) a = elim (Bool-cases (q == r)) [
  | inl e ↦ rw e a.1
  | inr n ↦ rw n (All-remove _ r qs a.0, Apart-remove rpc r qs a.1)
]

-- The request that is removed is not in the rest.
removed : (rpc : ℕ → Mntrpc) (r : ℕ) (qs : List ℕ) → Apart rpc qs → All (λ q. q ≢ r) (remove r qs)
removed rpc r [] a = tt
removed rpc r (q ∷ qs) a = elim (Bool-cases (q == r)) [
  | inl e ↦
      let same : q ≡ r = ground (arith, e) in
      rw e
        (map_All qs (λ p h z. h (subst (λ x. (rpc p).tag ≡ (rpc x).tag) (z ∙ sym same) refl)) a.0)
  | inr n ↦ rw n (λ z. ground (arith, n, z), removed rpc r qs a.1)
]

mntqrm-Delivered :
    (m : Mnt) (r : ℕ) → Delivered m → (m.rpc r).reply.type ≡ rflush → Delivered (mntqrm r m)
unfolding mntqrm
mntqrm-Delivered m r d e = record {
  answered = λ p. set_keeps Answered r v m.rpc p (λ _ h. absurd (h e)) (d.answered p);
  open_queue =
      open-set r v m.rpc (remove r m.queue) (removed m.rpc r m.queue d.apart)
        (All-remove _ r m.queue d.open_queue);
  apart = Apart-set r v m.rpc (remove r m.queue) refl (Apart-remove m.rpc r m.queue d.apart);
}
  where
    v : Mntrpc
    v = record (m.rpc r) { done = true }

flush-Delivered : (m : Mnt) (r : ℕ) → Delivered m → (m.rpc r).done ≡ false → Delivered (flush r m)
unfolding flush receive
flush-Delivered m r d e =
    let reply = record ((m.rpc r).reply) { type = rflush } in
    let m' = record m { rpc = set_rpc r (record (m.rpc r) { reply = reply }) m.rpc } in
    mntqrm-Delivered m' r (receive-Delivered m r reply (m.rpc r).b d e)
      (rw (set_same r (record (m.rpc r) { reply = reply }) m.rpc) refl)

Run-Delivered : (m m' : Mnt) → Run m m' → Delivered m → Delivered m'
Run-Delivered m _ (sends _ r t away tags) d = send-Delivered m r t d away tags
Run-Delivered m _ (reads _ r free) d = record {
  answered = d.answered;
  open_queue = d.open_queue;
  apart = d.apart;
}
Run-Delivered m _ (gets _ r reply b own e) d =
    mountmux-Delivered (receive r reply b m) r (receive-Delivered m r reply b d e)
      (unfold receive in rw (set_same r (record (m.rpc r) { reply = reply; b = b }) m.rpc) e)
Run-Delivered m _ (gates _ r own) d = record {
  answered = d.answered;
  open_queue = d.open_queue;
  apart = d.apart;
}
Run-Delivered m _ (flushes _ r e) d = flush-Delivered m r d e

Runs-Delivered : (m : Mnt) → Runs m → Delivered m
Runs-Delivered m begins = record { answered = λ r d. absurd (cc); open_queue = tt; apart = tt }
Runs-Delivered m (goes rs r) = Run-Delivered _ m r (Runs-Delivered _ rs)

-- After any sequence of steps of any processes, a request that is done and was not flushed has a
-- reply under its own tag.
pub Runs-answered :
    (m : Mnt)
    → Runs m
    → (r : ℕ) → (m.rpc r).done ≡ true
    → (m.rpc r).reply.type ≢ rflush
    → (m.rpc r).reply.tag ≡ (m.rpc r).tag
Runs-answered m runs r d f = (Runs-Delivered m runs).answered r d f

-- After any sequence of steps, the requests in the queue are not done, and have different tags.
pub Runs-queue :
    (m : Mnt) → Runs m → All (λ r. (m.rpc r).done ≡ false) m.queue × Apart m.rpc m.queue
Runs-queue m runs = let d = Runs-Delivered m runs in (d.open_queue, d.apart)
