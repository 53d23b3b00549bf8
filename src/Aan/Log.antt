-- ===== src/Aan/Log.antt =====
-- What a program has written, cut at the number of a message.
use drawterm.Prelude.{
  ℕ, zero, suc, ◌+◌, ◌≤◌, ◌≡◌, refl, sym, subst, List, [], ◌∷◌, ◌++◌, length, All, take, drop,
  drop_nil, arith,
}
use drawterm.Aan.Flow.{Data}

pub drop_more :
    (n : ℕ) (ds : Data) (d : List ℕ) (rest : Data) → drop n ds ≡ d ∷ rest → drop (suc n) ds ≡ rest
drop_more zero [] d rest e = absurd (cc)
drop_more zero (x ∷ xs) d rest e = cc
drop_more (suc n) [] d rest e = absurd (cc)
drop_more (suc n) (x ∷ xs) d rest e = drop_more n xs d rest e

pub take_more :
    (n : ℕ) (ds : Data) (d : List ℕ) (rest : Data)
    → drop n ds ≡ d ∷ rest
    → take (suc n) ds ≡ take n ds ++ (d ∷ [])
take_more zero [] d rest e = absurd (cc)
take_more zero (x ∷ xs) d rest e = cc
take_more (suc n) [] d rest e = absurd (cc)
take_more (suc n) (x ∷ xs) d rest e = rw (take_more n xs d rest e)

pub drop_some :
    (n : ℕ) (ds : Data) (d : List ℕ) (rest : Data) → drop n ds ≡ d ∷ rest → suc n ≤ length ds
drop_some zero [] d rest e = absurd (cc)
drop_some zero (x ∷ xs) d rest e = omega arith
drop_some (suc n) [] d rest e = absurd (cc)
drop_some (suc n) (x ∷ xs) d rest e = omega (arith, drop_some n xs d rest e)

pub drop_all :
    (n : ℕ) (ds : Data) (d : List ℕ) (rest : Data) (P : List ℕ → Type 0)
    → drop n ds ≡ d ∷ rest
    → All P ds
    → P d
drop_all zero [] d rest P e a = absurd (cc)
drop_all zero (x ∷ xs) d rest P e (p, a) = subst P (cc) p
drop_all (suc n) [] d rest P e a = absurd (cc)
drop_all (suc n) (x ∷ xs) d rest P e (p, a) = drop_all n xs d rest P e a

pub All-front : (P : List ℕ → Type 0) (ds es : Data) → All P (ds ++ es) → All P ds
All-front P [] es a = tt
All-front P (d ∷ ds) es (p, a) = (p, All-front P ds es a)

pub drop-drop : (m n : ℕ) (xs : Data) → drop m (drop n xs) ≡ drop (n + m) xs
drop-drop m zero xs = subst (λ j. drop m xs ≡ drop j xs) (omega arith) refl
drop-drop zero (suc n) [] = sym (drop_nil (suc n + 0))
drop-drop (suc m) (suc n) [] = sym (drop_nil (suc n + suc m))
drop-drop m (suc n) (x ∷ xs) =
    let e : suc (n + m) ≡ suc n + m = omega arith in
    subst (λ j. drop m (drop n xs) ≡ drop j (x ∷ xs)) e (drop-drop m n xs)
