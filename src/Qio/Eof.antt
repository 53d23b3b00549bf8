-- ===== src/Qio/Eof.antt =====
-- What a process reads from a queue that was hung up, once it is empty.
use drawterm.Prelude.{
  ℕ, zero, suc, ◌+◌, ◌≡◌, refl, ap, ◌∙◌, Bool, true, false, ◌||◌, inl, inr, Bool-cases, le→leb,
  lt→leb, List, [], ◌∷◌, ◌++◌, leb, if◌then◌else◌, arith,
}
use drawterm.Qio.{Queue}
use drawterm.Qio.Read.{
  Waited, at_eof, failed, is_other, qwait, waited, Result, eof, error, qcanread, skip_empty,
  read_from, qread,
}

-- The results of `n` reads.
abbrev pub results : ℕ → ℕ → ℕ → Queue → List (Result (List ℕ))
results zero room len q = []
results (suc n) room len q = let (r, q') = qread room len q in r ∷ results n room len q'

abbrev pub same {ℓ} : {A : Type ℓ} → ℕ → A → List A
same zero a = []
same (suc n) a = a ∷ same n a

record HungUp (q : Queue) : Type 0 where
  empty : q.blocks ≡ []
  closed : q.closed ≡ true

skip_none : (q : Queue) → q.blocks ≡ [] → (if q.coalesce then skip_empty q.blocks q else q) ≡ q
unfolding skip_empty
skip_none q e = elim (Bool-cases q.coalesce) [ inl c ↦ simp (c, e) refl | inr c ↦ simp c refl ]

not-qcanread : (q : Queue) → q.blocks ≡ [] → qcanread q ≡ false
unfolding qcanread
not-qcanread q e = rw e refl

pub qread_empty :
    (room len : ℕ) (q : Queue)
    → q.blocks ≡ []
    → qread room len q ≡ (waited q.err (qwait q).0, (qwait q).1)
unfolding qread read_from
qread_empty room len q e = simp (skip_none q e, not-qcanread q e) refl

abbrev hung_up : Queue → Bool → Waited × Queue
hung_up q fails = if fails then (failed, q) else (at_eof, record q { eof = q.eof + 1 })

qwait-HungUp : (q : Queue) → HungUp q → qwait q ≡ hung_up q (leb 3 q.eof || is_other q.err)
unfolding qwait
qwait-HungUp q h = rw (h.empty, h.closed) refl

-- A read fails, or tells of the end of the file.
qread-HungUp :
    (room len : ℕ) (q : Queue)
    → HungUp q
    → qread room len q ≡ (
        if leb 3 q.eof || is_other q.err
        then (error q.err, q)
        else (eof, record q { eof = q.eof + 1 }))
unfolding waited
qread-HungUp room len q h =
    qread_empty room len q h.empty
    ∙ ap (λ x. (waited q.err x.0, x.1)) (qwait-HungUp q h)
    ∙ go (leb 3 q.eof || is_other q.err)
  where
    go :
        (fails : Bool)
        → ◌≡◌ {A = Result (List ℕ) × Queue}
            (waited q.err (hung_up q fails).0, (hung_up q fails).1)
            (if fails then (error q.err, q) else (eof, record q { eof = q.eof + 1 }))
    go true = refl
    go false = refl

errors :
    (room len k : ℕ) (q : Queue)
    → HungUp q
    → (leb 3 q.eof || is_other q.err) ≡ true
    → results k room len q ≡ same k (error q.err)
errors room len zero q h l = refl
errors room len (suc k) q h l =
    rw (qread-HungUp room len q h, l) (ap (λ z. error q.err ∷ z) (errors room len k q h l))

ends :
    (room len n k : ℕ) (q : Queue)
    → HungUp q
    → is_other q.err ≡ false
    → q.eof + n ≡ 3
    → results (n + k) room len q ≡ same n eof ++ same k (error q.err)
ends room len zero k q h plain count =
    let s : 0 + k ≡ k = omega arith in
    rw s (errors room len k q h (rw (le→leb 3 q.eof (omega arith)) refl))
ends room len (suc n) k q h plain count =
    let s : suc n + k ≡ suc (n + k) = omega arith in
    rw (s, qread-HungUp room len q h, lt→leb 3 q.eof (omega arith), plain)
      (ap (λ z. eof ∷ z)
        (ends room len n k (record q { eof = q.eof + 1 })
          record { empty = h.empty; closed = h.closed } plain (omega arith)))

true_second : (b : Bool) → (b || true) ≡ true
true_second true = refl
true_second false = refl

-- A process that reads from a queue that is empty and hung up: where the hang-up left another text
-- than Ehungup, each read fails with that text; else the process is told of the end of the file until
-- it has been told so three times, and then each read fails with the text that is there.
pub qread_eof :
    (room len n k : ℕ) (q : Queue)
    → q.blocks ≡ []
    → q.closed ≡ true
    → q.eof + n ≡ 3
    → results (n + k) room len q
      ≡ (if is_other q.err then same (n + k) (error q.err) else same n eof ++ same k (error q.err))
qread_eof room len n k q b c count = elim (Bool-cases (is_other q.err)) [
  | inl other ↦ rw (other) (
      errors room len (n + k) q record { empty = b; closed = c }
        (rw (other) (true_second (leb 3 q.eof))))
  | inr plain ↦ rw (plain) (ends room len n k q record { empty = b; closed = c } plain count)
]
