-- ===== src/Lock/Queue.antt =====
-- The waiters of a lock as a linked list.
use drawterm.Prelude.{
  ℕ, ◌≡◌, ◌≢◌, refl, false, Option, none, some, List, [], ◌∷◌, ◌++◌, All, ◌==◌, arith,
}
use drawterm.Lock.{Links, set_next, QLock, queue, dequeue}

abbrev pub Distinct : List ℕ → Type 0
Distinct [] = Unit {0}
Distinct (x ∷ xs) = All (λ y. x ≢ y) xs × Distinct xs

-- The processes from `p` on, by `qnext`.
abbrev pub Chain : Links → Option ℕ → List ℕ → Type 0
Chain next p [] = p ≡ none
Chain next p (x ∷ xs) = (p ≡ some x) × Chain next (next x) xs

abbrev pub last_of : List ℕ → Option ℕ
last_of [] = none
last_of (x ∷ []) = some x
last_of (x ∷ (y ∷ ys)) = last_of (y ∷ ys)

pub record Holds (q : QLock) (next : Links) (xs : List ℕ) : Type 0 where
  pub chain : Chain next q.first xs
  pub last : q.last ≡ last_of xs
  pub distinct : Distinct xs

-- A write to the link of a process that is not in the chain.
Chain-set_next :
    (next : Links) (p : Option ℕ) (xs : List ℕ) (u : ℕ) (v : Option ℕ)
    → All (λ y. u ≢ y) xs
    → Chain next p xs
    → Chain (set_next next u v) p xs
Chain-set_next next p [] u v fresh c = c
Chain-set_next next p (x ∷ xs) u v fresh c =
    let away : (x == u) ≡ false = ground (arith, fresh.0) in
    (c.0, rw away (Chain-set_next next (next x) xs u v fresh.1 c.1))

pub Distinct-append :
    (xs : List ℕ) (u : ℕ) → All (λ y. u ≢ y) xs → Distinct xs → Distinct (xs ++ (u ∷ []))
Distinct-append [] u fresh d = (tt, tt)
Distinct-append (x ∷ xs) u fresh d = (go xs fresh.0 d.0, Distinct-append xs u fresh.1 d.1)
  where
    go : (ys : List ℕ) → u ≢ x → All (λ y. x ≢ y) ys → All (λ y. x ≢ y) (ys ++ (u ∷ []))
    go [] h a = (λ e. h (cc), tt)
    go (y ∷ ys) h a = (a.0, go ys h a.1)

last-append : (xs : List ℕ) (u : ℕ) → last_of (xs ++ (u ∷ [])) ≡ some u
last-append [] u = refl
last-append (x ∷ []) u = refl
last-append (x ∷ (y ∷ ys)) u = last-append (y ∷ ys) u

last_fresh : (x : ℕ) (xs : List ℕ) (t : ℕ) → All (λ y. x ≢ y) xs → last_of xs ≡ some t → x ≢ t
last_fresh x [] t fresh e = cc
last_fresh x (y ∷ []) t fresh e = ground (arith, fresh.0)
last_fresh x (y ∷ (z ∷ zs)) t fresh e = last_fresh x (z ∷ zs) t fresh.1 e

-- The end of a chain is linked to a new process.
Chain-append :
    (next : Links) (p : Option ℕ) (x : ℕ) (xs : List ℕ) (t u : ℕ)
    → last_of (x ∷ xs) ≡ some t
    → All (λ y. u ≢ y) (x ∷ xs)
    → Distinct (x ∷ xs)
    → Chain next p (x ∷ xs)
    → Chain (set_next (set_next next t (some u)) u none) p (x ∷ (xs ++ (u ∷ [])))
Chain-append next p x [] t u e fresh d c =
    let away : u ≢ x = fresh.0 in (c.0, (ground arith, ground arith))
Chain-append next p x (y ∷ ys) t u e fresh d c =
    let away : u ≢ x = fresh.0 in
    let inner : x ≢ t = last_fresh x (y ∷ ys) t d.0 e in
    let kept : set_next (set_next next t (some u)) u none x ≡ next x = ground arith in
    (c.0, rw kept (Chain-append next (next x) y ys t u e fresh.1 d.1 c.1))

last_some : (x : ℕ) (xs : List ℕ) → (t : ℕ) × (last_of (x ∷ xs) ≡ some t)
last_some x [] = (x, refl)
last_some x (y ∷ ys) = last_some y ys

pub queue-Holds :
    (up : ℕ) (q : QLock) (next : Links) (xs : List ℕ)
    → All (λ y. up ≢ y) xs
    → Holds q next xs
    → let (q', next') = queue up q next in Holds q' next' (xs ++ (up ∷ [])) × (q'.hold ≡ q.hold)
unfolding queue
queue-Holds up q next [] fresh h = ground (arith, h.last, h.chain)
queue-Holds up q next (x ∷ xs) fresh h =
    let (t, e) = last_some x xs in
    ground (
      arith,
      h.last,
      e,
      Chain-append next q.first x xs t up e fresh h.distinct h.chain,
      last-append (x ∷ xs) up,
      Distinct-append (x ∷ xs) up fresh h.distinct,
    )

pub dequeue_nil : (q : QLock) (next : Links) → Holds q next [] → dequeue q next ≡ (none, q)
unfolding dequeue
dequeue_nil q next h = ground (arith, h.chain)

pub dequeue-Holds :
    (q : QLock) (next : Links) (x : ℕ) (xs : List ℕ)
    → Holds q next (x ∷ xs)
    → let (p, q') = dequeue q next in (p ≡ some x) × Holds q' next xs × (q'.hold ≡ q.hold)
unfolding dequeue
dequeue-Holds q next x [] h = ground (arith, h.chain, h.last, h.distinct)
dequeue-Holds q next x (y ∷ ys) h = ground (arith, h.chain, h.last, h.distinct)
