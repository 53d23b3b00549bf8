-- ===== src/Fd/Table.antt =====
-- Entries read, written and counted.
use drawterm.Prelude.{
  ℕ, zero, suc, ◌+◌, ◌-◌, ◌≤◌, ◌<◌, ◌≡◌, ◌≢◌, refl, Option, none, some, List, [], ◌∷◌, ◌++◌, length,
  drop, ◌==◌, if◌then◌else◌, arith,
}
use drawterm.Fd.{Entries, entry, put, filled, first_free, lower}

-- How many references to `c` an entry is, and how many a table holds.
abbrev pub hit : ℕ → Option ℕ → ℕ
hit c none = 0
hit c (some d) = if d == c then 1 else 0

abbrev pub count : ℕ → Entries → ℕ
count c [] = 0
count c (x ∷ xs) = hit c x + count c xs

pub length-put {ℓ} : {A : Type ℓ} (i : ℕ) (v : A) (xs : List A) → length (put i v xs) ≡ length xs
length-put i v [] = refl
length-put zero v (x ∷ xs) = refl
length-put (suc i) v (x ∷ xs) = omega (arith, length-put i v xs)

pub length-filled {ℓ} : {A : Type ℓ} (n : ℕ) (v : A) → length (filled n v) ≡ n
length-filled zero v = refl
length-filled (suc n) v = omega (arith, length-filled n v)

pub entry-put : (i : ℕ) (v : Option ℕ) (xs : Entries) → i < length xs → entry (put i v xs) i ≡ v
entry-put i v [] h = absurd (omega arith)
entry-put zero v (x ∷ xs) h = refl
entry-put (suc i) v (x ∷ xs) h = entry-put i v xs (omega arith)

pub entry-put_other :
    (i j : ℕ) (v : Option ℕ) (xs : Entries) → i ≢ j → entry (put i v xs) j ≡ entry xs j
entry-put_other i j v [] h = refl
entry-put_other zero zero v (x ∷ xs) h = absurd (h refl)
entry-put_other zero (suc j) v (x ∷ xs) h = refl
entry-put_other (suc i) zero v (x ∷ xs) h = refl
entry-put_other (suc i) (suc j) v (x ∷ xs) h = entry-put_other i j v xs (λ e. h (omega arith))

pub entry_outside : (xs : Entries) (i : ℕ) → length xs ≤ i → entry xs i ≡ none
entry_outside [] i h = refl
entry_outside (x ∷ xs) zero h = absurd (omega arith)
entry_outside (x ∷ xs) (suc i) h = entry_outside xs i (omega arith)

pub entry-filled : (n i : ℕ) → entry (filled n none) i ≡ none
entry-filled zero i = refl
entry-filled (suc n) zero = refl
entry-filled (suc n) (suc i) = entry-filled n i

pub entry-append_filled : (xs : Entries) (n i : ℕ) → entry (xs ++ filled n none) i ≡ entry xs i
entry-append_filled [] n i = entry-filled n i
entry-append_filled (x ∷ xs) n zero = refl
entry-append_filled (x ∷ xs) n (suc i) = entry-append_filled xs n i

pub count-filled : (c n : ℕ) → count c (filled n none) ≡ 0
count-filled c zero = refl
count-filled c (suc n) = omega (arith, count-filled c n)

pub count-append_filled : (c n : ℕ) (xs : Entries) → count c (xs ++ filled n none) ≡ count c xs
count-append_filled c n [] = count-filled c n
count-append_filled c n (x ∷ xs) = omega (arith, count-append_filled c n xs)

-- A write trades the old entry for the new one.
pub count-put :
    (c i : ℕ) (v : Option ℕ) (xs : Entries)
    → i < length xs
    → count c (put i v xs) + hit c (entry xs i) ≡ count c xs + hit c v
count-put c i v [] h = absurd (omega arith)
count-put c zero v (x ∷ xs) h = omega arith
count-put c (suc i) v (x ∷ xs) h = omega (arith, count-put c i v xs (omega arith))

pub hit-le_count : (c i : ℕ) (xs : Entries) → hit c (entry xs i) ≤ count c xs
hit-le_count c i [] = omega arith
hit-le_count c zero (x ∷ xs) = omega arith
hit-le_count c (suc i) (x ∷ xs) = omega (arith, hit-le_count c i xs)

-- The search stops at the first entry that is nil, or at the end.
pub record Lowest (xs : Entries) (start fd : ℕ) : Type 0 where
  pub from : start ≤ fd
  pub inside : fd ≤ start + length xs
  pub nil : entry xs (fd - start) ≡ none
  pub taken : (i : ℕ) → i < fd - start → entry xs i ≢ none

pub first_free-Lowest : (xs : Entries) (start : ℕ) → Lowest xs start (first_free xs start)
unfolding first_free
first_free-Lowest [] start = record {
  from = omega arith;
  inside = omega arith;
  nil = refl;
  taken = λ i h. absurd (omega arith);
}
first_free-Lowest (none ∷ xs) start =
    let zero_steps : start - start ≡ 0 = omega arith in
    record {
      from = omega arith;
      inside = omega arith;
      nil = rw zero_steps refl;
      taken = λ i h. absurd (omega arith);
    }
first_free-Lowest (some c ∷ xs) start =
    let l = first_free-Lowest xs (suc start) in
    let fd = first_free xs (suc start) in
    let one_more : fd - start ≡ suc (fd - suc start) = omega (arith, l.from) in
    record {
      from = omega (arith, l.from);
      inside = omega (arith, l.inside);
      nil = rw one_more l.nil;
      taken = λ i h. shifted (fd - suc start) l.taken i (omega (arith, one_more));
    }
  where
    shifted :
        (n : ℕ)
        → ((i : ℕ) → i < n → entry xs i ≢ none)
        → (i : ℕ) → i < suc n
        → entry (some c ∷ xs) i ≢ none
    shifted n h zero lt = λ e. cc
    shifted n h (suc i) lt = h i (omega arith)

pub entry-drop : (n i : ℕ) (xs : Entries) → entry (drop n xs) i ≡ entry xs (n + i)
entry-drop zero i xs = let same : 0 + i ≡ i = omega arith in rw same refl
entry-drop (suc n) i [] = refl
entry-drop (suc n) i (x ∷ xs) =
    let same : suc n + i ≡ suc (n + i) = omega arith in rw same (entry-drop n i xs)

pub lower-le : (xs : Entries) (n : ℕ) → lower xs n ≤ n
unfolding lower
lower-le xs zero = omega arith
lower-le xs (suc n) = ground (arith, lower-le xs n)

-- Above the point where the descent stops there is nothing.
pub lower_above : (xs : Entries) (n i : ℕ) → lower xs n < i → i ≤ n → entry xs i ≡ none
unfolding lower
lower_above xs zero i above h = absurd (omega arith)
lower_above xs (suc n) i above h = ground (arith, lower_above xs n i)
