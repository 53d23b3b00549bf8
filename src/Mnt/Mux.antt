-- ===== src/Mnt/Mux.antt =====
-- The requests of a mount point that wait for replies, and the process that reads the replies for
-- all of them.
use drawterm.Prelude.{
  ℕ, ◌≡◌, ◌≢◌, Bool, true, false, Option, none, some, List, [], ◌∷◌, All, ◌==◌, if◌then◌else◌,
}

-- The tag and the type of a reply, and the blocks with its data; blocks are numbers.
pub record Reply : Type 0 where
  pub tag : ℕ
  pub type : ℕ

pub record Mntrpc : Type 0 where
  pub tag : ℕ
  pub reply : Reply
  pub b : Option ℕ
  pub done : Bool

-- `rip` is the process that reads, by the request that it waits for.
pub record Mnt : Type 0 where
  pub queue : List ℕ
  pub rip : Option ℕ
  pub rpc : ℕ → Mntrpc

-- Rflush and Tmax of include/fcall.h.
abbrev pub rflush : ℕ
rflush = 109

abbrev pub tmax : ℕ
tmax = 128

abbrev pub set_rpc : ℕ → Mntrpc → (ℕ → Mntrpc) → ℕ → Mntrpc
set_rpc r v rpc q = if q == r then v else rpc q

-- `r->list = m->queue; m->queue = r;`, for a request that `mntralloc` and `mountrpc` have set up.
unfoldable pub send : ℕ → ℕ → Mnt → Mnt
send r t m = record m {
  queue = r ∷ m.queue;
  rpc =
      set_rpc r
        (record { tag = t; reply = record { tag = 0; type = tmax }; b = none; done = false }) m.rpc;
}

-- The loop of `mountmux`: the request with the tag, and the queue without it.
unfoldable pub find_tag : (ℕ → Mntrpc) → ℕ → List ℕ → Option (ℕ × List ℕ)
find_tag rpc t [] = none
find_tag rpc t (q ∷ qs) =
    let rest = find_tag rpc t qs in
    if (rpc q).tag == t
    then some (q, qs)
    else (elim rest [ none ↦ none | some (p, ps) ↦ some (p, q ∷ ps) ])

-- `mntrpcread` leaves the reply and its blocks in the request of the reader.
unfoldable pub receive : ℕ → Reply → Option ℕ → Mnt → Mnt
receive r reply b m = record m { rpc = set_rpc r (record (m.rpc r) { reply = reply; b = b }) m.rpc }

-- The request whose process is woken up, if it is another one than `r`.
unfoldable pub mountmux : ℕ → Mnt → Option ℕ × Mnt
mountmux r m = elim (find_tag m.rpc (m.rpc r).reply.tag m.queue) [
  | none ↦ (none, m)
  | some (q, qs) ↦
      if q == r
      then (none, record m { queue = qs; rpc = set_rpc r (record (m.rpc r) { done = true }) m.rpc })
      else (
        some q,
        record m {
          queue = qs;
          rpc =
              set_rpc r (record (m.rpc r) { b = none })
                (set_rpc q
                  (record (m.rpc q) { reply = (m.rpc r).reply; b = (m.rpc r).b; done = true })
                  m.rpc);
        },
      )
]

abbrev pub remove : ℕ → List ℕ → List ℕ
remove r [] = []
remove r (q ∷ qs) = let rest = remove r qs in if q == r then qs else q ∷ rest

-- `mntqrm`
unfoldable pub mntqrm : ℕ → Mnt → Mnt
mntqrm r m = record m {
  queue = remove r m.queue;
  rpc = set_rpc r (record (m.rpc r) { done = true }) m.rpc;
}

-- What `mntflushfree` does to each request that has no answer: `r->reply.type = Rflush`, `mntqrm`.
unfoldable pub flush : ℕ → Mnt → Mnt
flush r m =
    let reply = record ((m.rpc r).reply) { type = rflush } in
    mntqrm r (record m { rpc = set_rpc r (record (m.rpc r) { reply = reply }) m.rpc })

-- One step of the processes that wait in `mountio`: a request is queued under a tag that no queued
-- one has; a process becomes the reader; the reader gets a reply and gives it to the request that it
-- answers; the reader lets another one read; an interrupted process takes its request away.
pub data Run : Mnt → Mnt → Type 0 where
  sends :
      (m : Mnt) (r t : ℕ)
      → All (λ q. q ≢ r) m.queue
      → All (λ q. (m.rpc q).tag ≢ t) m.queue
      → Run m (send r t m)
  reads : (m : Mnt) (r : ℕ) → m.rip ≡ none → Run m (record m { rip = some r })
  gets :
      (m : Mnt) (r : ℕ) (reply : Reply) (b : Option ℕ)
      → m.rip ≡ some r
      → (m.rpc r).done ≡ false
      → Run m (mountmux r (receive r reply b m)).1
  gates : (m : Mnt) (r : ℕ) → m.rip ≡ some r → Run m (record m { rip = none })
  flushes : (m : Mnt) (r : ℕ) → (m.rpc r).done ≡ false → Run m (flush r m)

-- No request is queued, and nobody reads.
abbrev pub idle : Mnt
idle = record {
  queue = [];
  rip = none;
  rpc = λ r. record { tag = 0; reply = record { tag = 0; type = tmax }; b = none; done = false };
}

pub data Runs : Mnt → Type 0 where
  begins : Runs idle
  goes : {m m' : Mnt} → Runs m → Run m m' → Runs m'

-- Each request that is done has an answer under its own tag, or was flushed; the queued ones are not
-- done, and have different tags.
abbrev pub Answered : Mntrpc → Type 0
Answered v = v.done ≡ true → (v.reply.type ≢ rflush) → v.reply.tag ≡ v.tag

abbrev pub Apart : (ℕ → Mntrpc) → List ℕ → Type 0
Apart rpc [] = Unit {0}
Apart rpc (q ∷ qs) = All (λ p. (rpc p).tag ≢ (rpc q).tag) qs × Apart rpc qs

pub record Delivered (m : Mnt) : Type 0 where
  pub answered : (r : ℕ) → Answered (m.rpc r)
  pub open_queue : All (λ q. (m.rpc q).done ≡ false) m.queue
  pub apart : Apart m.rpc m.queue
