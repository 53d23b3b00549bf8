-- ===== src/Mnt/Deliver.antt =====
-- Every reply goes to the request that it answers.
use drawterm.Prelude.{
  ℕ, ◌≡◌, ◌≢◌, inl, inr, refl, false, subst, ◌∙◌, sym, Option, none, some, List, [], ◌∷◌, All, ◌==◌,
  Bool-cases, Option-cases, arith,
}
use drawterm.Mnt.Pool.{same_or_not}
use drawterm.Mnt.Mux.{
  Reply, Mntrpc, Mnt, tmax, set_rpc, send, find_tag, receive, Answered, Apart, Delivered,
}

pub zip_All :
    {P R Q : ℕ → Type 0} (qs : List ℕ)
    → ((q : ℕ) → P q → R q → Q q)
    → All P qs
    → All R qs
    → All Q qs
zip_All [] f a b = tt
zip_All (q ∷ qs) f a b = (f q a.0 b.0, zip_All qs f a.1 b.1)

pub map_All : {P Q : ℕ → Type 0} (qs : List ℕ) → ((q : ℕ) → P q → Q q) → All P qs → All Q qs
map_All qs f a = zip_All qs (λ q p r. f q p) a a

-- The tags of the queue, under another store with the same tags.
pub Apart-tags :
    (rpc rpc' : ℕ → Mntrpc) (qs : List ℕ)
    → All (λ q. (rpc' q).tag ≡ (rpc q).tag) qs
    → Apart rpc qs
    → Apart rpc' qs
Apart-tags rpc rpc' [] same a = tt
Apart-tags rpc rpc' (q ∷ qs) same a =
    (zip_All qs (λ p e h z. h (sym e ∙ (z ∙ same.0))) same.1 a.0, Apart-tags rpc rpc' qs same.1 a.1)

-- What `find_tag` finds: a request with the tag, and the rest of the queue, in which none has it.
pub record Found (rpc : ℕ → Mntrpc) (t : ℕ) (queue : List ℕ) (q : ℕ) (qs : List ℕ) : Type 1 where
  pub tagged : (rpc q).tag ≡ t
  pub kept : (P : ℕ → Type 0) → All P queue → All P qs
  pub apart : Apart rpc qs
  pub unlike : All (λ p. (rpc p).tag ≢ t) qs

pub find_tag-Found :
    (rpc : ℕ → Mntrpc) (t : ℕ) (queue : List ℕ)
    → Apart rpc queue
    → (q : ℕ) (qs : List ℕ) → find_tag rpc t queue ≡ some (q, qs)
    → Found rpc t queue q qs
unfolding find_tag
find_tag-Found rpc t [] a q qs e = ground (arith, e)
find_tag-Found rpc t (p ∷ ps) a q qs e = elim (Bool-cases ((rpc p).tag == t)) [
  | inl hit ↦
      let tagged : (rpc p).tag ≡ t = ground (arith, hit) in
      let here : Found rpc t (p ∷ ps) p ps = record {
        tagged = tagged;
        kept = λ P x. x.1;
        apart = a.1;
        unlike = map_All ps (λ z h y. h (y ∙ sym tagged)) a.0;
      } in
      let one : p ≡ q = ground (arith, hit, e) in
      let rest : ps ≡ qs = ground (arith, hit, e) in
      subst (λ x. Found rpc t (p ∷ ps) x qs) one (subst (λ xs. Found rpc t (p ∷ ps) p xs) rest here)
  | inr miss ↦ elim (Option-cases (find_tag rpc t ps)) [
    | inl n ↦ absurd (ground (arith, miss, n, e))
    | inr ((q', qs'), f) ↦
        let ih = find_tag-Found rpc t ps a.1 q' qs' f in
        let later : Found rpc t (p ∷ ps) q' (p ∷ qs') = record {
          tagged = ih.tagged;
          kept = λ P x. (x.0, ih.kept P x.1);
          apart = (ih.kept _ a.0, ih.apart);
          unlike = (λ z. ground (arith, miss, z), ih.unlike);
        } in
        let one : q' ≡ q = ground (arith, miss, f, e) in
        let rest : (p ∷ qs') ≡ qs = ground (arith, miss, f, e) in rw (one, rest) at later
  ]
]

-- The request that is found is not in the rest.
pub find_tag_once :
    (rpc : ℕ → Mntrpc) (t : ℕ) (queue : List ℕ) (q : ℕ) (qs : List ℕ)
    → Found rpc t queue q qs
    → All (λ p. p ≢ q) qs
find_tag_once rpc t queue q qs f =
    map_All qs (λ p h e. h (subst (λ x. (rpc x).tag ≡ t) (sym e) f.tagged)) f.unlike

pub set_same : (r : ℕ) (v : Mntrpc) (rpc : ℕ → Mntrpc) → set_rpc r v rpc r ≡ v
set_same r v rpc = ground arith

pub set_other : (r q : ℕ) (v : Mntrpc) (rpc : ℕ → Mntrpc) → q ≢ r → set_rpc r v rpc q ≡ rpc q
set_other r q v rpc h = ground arith

-- A property of one request survives a write that has it.
pub set_keeps :
    (P : Mntrpc → Type 0) (r : ℕ) (v : Mntrpc) (rpc : ℕ → Mntrpc) (q : ℕ)
    → P v
    → P (rpc q)
    → P (set_rpc r v rpc q)
set_keeps P r v rpc q new old = elim (same_or_not q r) [
  | inl e ↦ let same : set_rpc r v rpc q ≡ v = ground arith in rw same new
  | inr away ↦ rw (set_other r q v rpc away) old
]

-- A write to a request that keeps its tag.
pub Apart-set :
    (r : ℕ) (v : Mntrpc) (rpc : ℕ → Mntrpc) (qs : List ℕ)
    → v.tag ≡ (rpc r).tag
    → Apart rpc qs
    → Apart (set_rpc r v rpc) qs
Apart-set r v rpc qs same a = Apart-tags rpc (set_rpc r v rpc) qs (go qs) a
  where
    one : (q : ℕ) → (set_rpc r v rpc q).tag ≡ (rpc q).tag
    one q = elim (same_or_not q r) [
      | inl e ↦ ground (arith, e, same)
      | inr away ↦ rw (set_other r q v rpc away) refl
    ]

    go : (qs : List ℕ) → All (λ q. (set_rpc r v rpc q).tag ≡ (rpc q).tag) qs
    go [] = tt
    go (q ∷ qs) = (one q, go qs)

-- A write to a request that is not in the queue.
pub open-set :
    (r : ℕ) (v : Mntrpc) (rpc : ℕ → Mntrpc) (qs : List ℕ)
    → All (λ q. q ≢ r) qs
    → All (λ q. (rpc q).done ≡ false) qs
    → All (λ q. (set_rpc r v rpc q).done ≡ false) qs
open-set r v rpc qs away a = zip_All qs (λ q n d. rw (set_other r q v rpc n) d) away a

-- A write that leaves a request not done.
pub open-set_open :
    (r : ℕ) (v : Mntrpc) (rpc : ℕ → Mntrpc) (qs : List ℕ)
    → v.done ≡ false
    → All (λ q. (rpc q).done ≡ false) qs
    → All (λ q. (set_rpc r v rpc q).done ≡ false) qs
open-set_open r v rpc qs new a =
    map_All qs (λ q d. set_keeps (λ v. v.done ≡ false) r v rpc q new d) a

pub not_done : (v : Mntrpc) → v.done ≡ false → Answered v
not_done v e d = ground (arith, e, d)

pub send-Delivered :
    (m : Mnt) (r t : ℕ)
    → Delivered m
    → All (λ q. q ≢ r) m.queue
    → All (λ q. (m.rpc q).tag ≢ t) m.queue
    → Delivered (send r t m)
unfolding send
send-Delivered m r t d away tags = record {
  answered = λ q. set_keeps Answered r v m.rpc q (not_done v refl) (d.answered q);
  open_queue = (rw (set_same r v m.rpc) refl, open-set r v m.rpc m.queue away d.open_queue);
  apart = (
    zip_All m.queue (λ q n h. rw (set_other r q v m.rpc n, set_same r v m.rpc) h) away tags,
    Apart-tags m.rpc (set_rpc r v m.rpc) m.queue
        (map_All m.queue (λ q n. rw (set_other r q v m.rpc n) refl) away) d.apart,
  );
}
  where
    v : Mntrpc
    v = record { tag = t; reply = record { tag = 0; type = tmax }; b = none; done = false }

pub receive-Delivered :
    (m : Mnt) (r : ℕ) (reply : Reply) (b : Option ℕ)
    → Delivered m
    → (m.rpc r).done ≡ false
    → Delivered (receive r reply b m)
unfolding receive
receive-Delivered m r reply b d e = record {
  answered = λ q. set_keeps Answered r v m.rpc q (not_done v e) (d.answered q);
  open_queue = open-set_open r v m.rpc m.queue e d.open_queue;
  apart = Apart-set r v m.rpc m.queue refl d.apart;
}
  where
    v : Mntrpc
    v = record (m.rpc r) { reply = reply; b = b }
