-- ===== src/Mnt/Pool.antt =====
-- The pool of requests over every sequence of `mntralloc` and `mntfree`.
use drawterm.Prelude.{
  ℕ, ◌+◌, ◌<◌, ◌≡◌, ◌≢◌, ◌⊎◌, inl, inr, true, false, subst, ◌∙◌, Option, some, List, [], ◌∷◌,
  length, All, ◌==◌, Bool-cases, ltb, if◌then◌else◌, arith,
}
use drawterm.Mnt.{nmask, has_tag, Mntalloc, mntreset, mntralloc, mntfree}
use drawterm.Mnt.Tags.{AreWords}
use drawterm.Mnt.Free.{Allocated}

-- Where the memory of a request is: not allocated, with a caller, or on the free list.
pub data Home : Type 0 where
  absent used cached : Home

abbrev pub move : (ℕ → Home) → ℕ → Home → ℕ → Home
move place r p q = if q == r then p else place q

-- One call. What `malloc` returns is not in use; a caller frees a request that it has.
pub data Call (p : Mntalloc) (place : ℕ → Home) : Mntalloc → (ℕ → Home) → Type 0 where
  alloc :
      (new : Option ℕ) (r : ℕ) (p' : Mntalloc)
      → ((q : ℕ) → new ≡ some q → place q ≡ absent)
      → mntralloc new p ≡ some (r, p')
      → Call p place p' (move place r used)
  free :
      (r : ℕ)
      → place r ≡ used
      → Call p place (mntfree r p) (move place r (if ltb p.nrpcfree 32 then cached else absent))

pub data Reach : Mntalloc → (ℕ → Home) → Type 0 where
  here : Reach mntreset (λ r. absent)
  next :
      {p p' : Mntalloc} {place place' : ℕ → Home}
      → Reach p place
      → Call p place p' place'
      → Reach p' place'

abbrev pub Fresh : ℕ → List ℕ → Type 0
Fresh r rs = All (λ q. q ≢ r) rs

abbrev pub Distinct : List ℕ → Type 0
Distinct [] = Unit {0}
Distinct (r ∷ rs) = Fresh r rs × Distinct rs

-- The tag of every request that is allocated is taken, and is not the tag of another one; 0 and
-- NOTAG are taken, and belong to none.
pub record Sound (p : Mntalloc) (place : ℕ → Home) : Type 0 where
  pub words : AreWords p.tagmask
  pub masks : length p.tagmask ≡ nmask
  pub zero_taken : has_tag 0 p.tagmask ≡ true
  pub notag_taken : has_tag 0xffff p.tagmask ≡ true
  pub proper : (r : ℕ) → place r ≢ absent → (p.tag r ≢ 0) × (p.tag r < 0xffff)
  pub taken : (r : ℕ) → place r ≢ absent → has_tag (p.tag r) p.tagmask ≡ true
  pub different : (r q : ℕ) → place r ≢ absent → place q ≢ absent → p.tag r ≡ p.tag q → r ≡ q
  pub on_list : All (λ r. place r ≡ cached) p.rpcfree
  pub once : Distinct p.rpcfree

pub move_same : (place : ℕ → Home) (r : ℕ) (x : Home) → move place r x r ≡ x
move_same place r x = ground arith

pub move_other : (place : ℕ → Home) (r q : ℕ) (x : Home) → q ≢ r → move place r x q ≡ place q
move_other place r q x h = ground arith

-- Requests on the list are not `r`, and stay where they are when `r` moves.
pub All-move :
    (place : ℕ → Home) (r : ℕ) (x : Home) (rs : List ℕ)
    → Fresh r rs
    → All (λ q. place q ≡ cached) rs
    → All (λ q. move place r x q ≡ cached) rs
All-move place r x [] f a = tt
All-move place r x (q ∷ rs) f a =
    (rw (move_other place r q x f.0) a.0, All-move place r x rs f.1 a.1)

pub Fresh-cached :
    (place : ℕ → Home) (r : ℕ) (rs : List ℕ)
    → place r ≢ cached
    → All (λ q. place q ≡ cached) rs
    → Fresh r rs
Fresh-cached place r [] h a = tt
Fresh-cached place r (q ∷ rs) h a =
    (λ e. h (subst (λ x. place x ≡ cached) e a.0), Fresh-cached place r rs h a.1)

-- Another tag than one that is free.
pub apart : (t u : ℕ) (masks : List ℕ) → has_tag t masks ≡ false → has_tag u masks ≡ true → u ≢ t
apart t u masks f g e = ground (arith, subst (λ x. has_tag x masks ≡ true) e g, f)

abbrev pub with_tag : Mntalloc → ℕ → ℕ → List ℕ → Mntalloc
with_tag p r t masks = record p {
  tagmask = masks;
  nrpcused = p.nrpcused + 1;
  tag = λ q. if q == r then t else p.tag q;
}

pub same_or_not : (q r : ℕ) → (q ≡ r) ⊎ (q ≢ r)
same_or_not q r = elim (Bool-cases (q == r)) [
  | inl e ↦ inl (ground arith)
  | inr n ↦ inr (λ e. ground arith)
]

pub was_there :
    (place : ℕ → Home) (r q : ℕ) (x : Home) → q ≢ r → move place r x q ≢ absent → place q ≢ absent
was_there place r q x away h e = h (move_other place r q x away ∙ e)

pub with_tag-Sound :
    (p : Mntalloc) (place : ℕ → Home) (r t : ℕ) (masks : List ℕ)
    → Sound p place
    → place r ≡ absent
    → Allocated t p.tagmask masks
    → Sound (with_tag p r t masks) (move place r used)
with_tag-Sound p place r t masks s gone k = record {
  words = k.words;
  masks = k.same_length ∙ s.masks;
  zero_taken = k.others 0 (not_zero) ∙ s.zero_taken;
  notag_taken = k.others 0xffff (not_notag) ∙ s.notag_taken;
  proper = proper;
  taken = taken;
  different = different;
  on_list = All-move place r used p.rpcfree fresh s.on_list;
  once = s.once;
}
  where
    not_zero : 0 ≢ t
    not_zero = apart t 0 p.tagmask k.was_free s.zero_taken

    not_notag : 0xffff ≢ t
    not_notag = apart t 0xffff p.tagmask k.was_free s.notag_taken

    fresh : Fresh r p.rpcfree
    fresh = Fresh-cached place r p.rpcfree (λ e. ground (arith, e, gone)) s.on_list

    old_tag : (q : ℕ) → q ≢ r → (if q == r then t else p.tag q) ≡ p.tag q
    old_tag q away = ground arith

    new_tag : (q : ℕ) → q ≡ r → (if q == r then t else p.tag q) ≡ t
    new_tag q e = ground arith

    unlike : (q : ℕ) → q ≢ r → move place r used q ≢ absent → p.tag q ≢ t
    unlike q away h =
        apart t (p.tag q) p.tagmask k.was_free (s.taken q (was_there place r q used away h))

    proper :
        (q : ℕ)
        → move place r used q ≢ absent
        → ((if q == r then t else p.tag q) ≢ 0) × ((if q == r then t else p.tag q) < 0xffff)
    proper q h = elim (same_or_not q r) [
      | inl e ↦
          rw (new_tag q e)
            (λ z. not_zero (omega arith), omega (arith, k.within, s.masks, not_notag))
      | inr away ↦ rw (old_tag q away) (s.proper q (was_there place r q used away h))
    ]

    taken :
        (q : ℕ)
        → move place r used q ≢ absent
        → has_tag (if q == r then t else p.tag q) masks ≡ true
    taken q h = elim (same_or_not q r) [
      | inl e ↦ rw (new_tag q e) k.now_taken
      | inr away ↦
          rw (old_tag q away)
            (k.others (p.tag q) (unlike q away h) ∙ s.taken q (was_there place r q used away h))
    ]

    different :
        (a b : ℕ)
        → move place r used a ≢ absent
        → move place r used b ≢ absent
        → (if a == r then t else p.tag a) ≡ (if b == r then t else p.tag b)
        → a ≡ b
    different a b ha hb e = elim (same_or_not a r) [
      | inl ea ↦ elim (same_or_not b r) [
        | inl eb ↦ omega (arith, ea, eb)
        | inr nb ↦ absurd (unlike b nb hb (omega (arith, new_tag a ea, old_tag b nb, e)))
      ]
      | inr na ↦ elim (same_or_not b r) [
        | inl eb ↦ absurd (unlike a na ha (omega (arith, new_tag b eb, old_tag a na, e)))
        | inr nb ↦
            s.different a b (was_there place r a used na ha) (was_there place r b used nb hb)
              (omega (arith, old_tag a na, old_tag b nb, e))
      ]
    ]
