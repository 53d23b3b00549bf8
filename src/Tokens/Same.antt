-- ===== src/Tokens/Same.antt =====
-- `gettokens` and `tokenize` find the same words.
use drawterm.Prelude.{
  ◌⊎◌, arith, ℕ, zero, suc, ◌≡◌, refl, sym, ◌==◌, Bool-cases, inl, inr, if◌then◌else◌, List, [],
  ◌∷◌, map,
}
use drawterm.Tokens.{plain, scan, etoken, tail, skip_seps, qtoken, tokenize, gettokens, is_qsep}
use drawterm.Tokens.Ends.{etoken-scan}
use drawterm.Tokens.Cut.{scan-etoken}

-- The word that `tokenize` reads from the beginning of a string, up to its first separator.
abbrev pub unquote : List ℕ → List ℕ
unquote w = (scan is_qsep plain w).out

gettokens-empty :
    (n : ℕ) (text : List ℕ) → skip_seps is_qsep text ≡ [] → gettokens is_qsep (suc n) text ≡ []
unfolding gettokens
gettokens-empty n text eq = rw (gettokens, eq) refl

tokenize-none : (n : ℕ) (text : List ℕ) → skip_seps is_qsep text ≡ [] → tokenize (suc n) text ≡ []
unfolding tokenize
tokenize-none n text eq = rw (tokenize, eq) refl

gettokens-next :
    (n : ℕ) (text : List ℕ) (c : ℕ) (t : List ℕ)
    → skip_seps is_qsep text ≡ c ∷ t
    → gettokens is_qsep (suc n) text
      ≡ (if n == 0 then c ∷ t else (etoken is_qsep plain (c ∷ t)).0)
        ∷ gettokens is_qsep n (etoken is_qsep plain (c ∷ t)).1
unfolding gettokens
gettokens-next n text c t eq = rw (gettokens, eq) refl

tokenize-next :
    (n : ℕ) (text : List ℕ) (c : ℕ) (t : List ℕ)
    → skip_seps is_qsep text ≡ c ∷ t
    → tokenize (suc n) text ≡ (qtoken is_qsep (c ∷ t)).0 ∷ tokenize n (qtoken is_qsep (c ∷ t)).1
unfolding tokenize
tokenize-next n text c t eq = rw (tokenize, eq) refl

tokenize-skips :
    (n : ℕ) (x y : List ℕ) → skip_seps is_qsep x ≡ skip_seps is_qsep y → tokenize n x ≡ tokenize n y
unfolding tokenize
tokenize-skips zero x y eq = refl
tokenize-skips (suc n) x y eq = rw (tokenize, eq) refl

-- The separator that `qtoken` drops makes no difference to the words behind it.
tokenize-rest :
    (n : ℕ) (text : List ℕ)
    → tokenize n (qtoken is_qsep text).1 ≡ tokenize n (etoken is_qsep plain text).1
unfolding qtoken
tokenize-rest n text =
    rw ((etoken-scan is_qsep plain text).0) (elim (Bool-cases (scan is_qsep plain text).ahead) [
      | inl ahead ↦ rw (ahead) refl
      | inr level ↦ rw (level) (
          tokenize-skips n (tail (scan is_qsep plain text).left) (scan is_qsep plain text).left
            (scan-etoken is_qsep plain text).1)
    ])

unquote-word :
    (n : ℕ) (text : List ℕ)
    → unquote (if n == 0 then text else (etoken is_qsep plain text).0) ≡ (qtoken is_qsep text).0
unfolding qtoken
unquote-word n text = elim (Bool-cases (n == 0)) [
  | inl last ↦ rw (last) refl
  | inr more ↦ rw (more) (scan-etoken is_qsep plain text).0.0
]

-- Of `n` places: the word in each but the last is cut, so that `tokenize` finds nothing behind it.
unfoldable pub CutButLast : ℕ → List (List ℕ) → Type 0
CutButLast zero ws = Unit
CutButLast (suc n) [] = Unit
CutButLast (suc n) (w ∷ ws) = ((n ≡ 0) ⊎ ((scan is_qsep plain w).left ≡ [])) × CutButLast n ws

abbrev SameWords : ℕ → List ℕ → Type 0
SameWords n text =
    (map unquote (gettokens is_qsep n text) ≡ tokenize n text)
    × CutButLast n (gettokens is_qsep n text)

word_cut :
    (n : ℕ) (text : List ℕ)
    → (n ≡ 0)
      ⊎ ((scan is_qsep plain (if n == 0 then text else (etoken is_qsep plain text).0)).left ≡ [])
word_cut n text = elim (Bool-cases (n == 0)) [
  | inl last ↦ inl (ground (arith, last))
  | inr more ↦ inr (rw (more) (scan-etoken is_qsep plain text).0.1)
]

SameWords-next :
    (n : ℕ) (text s : List ℕ)
    → skip_seps is_qsep text ≡ s
    → ((t : List ℕ) → SameWords n t)
    → SameWords (suc n) text
unfolding CutButLast
SameWords-next n text [] eq later =
    rw (gettokens-empty n text eq, tokenize-none n text eq) (refl, tt)
SameWords-next n text (c ∷ t) eq later =
    let rest = later (etoken is_qsep plain (c ∷ t)).1 in
    rw
      (
        gettokens-next n text c t eq,
        tokenize-next n text c t eq,
        tokenize-rest n (c ∷ t),
        sym (unquote-word n (c ∷ t)),
        sym rest.0,
      )
      (refl, (word_cut n (c ∷ t), rest.1))

-- With the separators of `tokenize` and room for `n` words, `gettokens` finds as many words as
-- `tokenize`; up to its first separator outside quotes, each is the word of `tokenize` in its place
-- with its quotes still in it, and none has anything behind that but the one in the last place.
pub gettokens-tokenize :
    (n : ℕ) (text : List ℕ)
    → (map unquote (gettokens is_qsep n text) ≡ tokenize n text)
      × CutButLast n (gettokens is_qsep n text)
unfolding gettokens tokenize CutButLast
gettokens-tokenize zero text = (refl, tt)
gettokens-tokenize (suc n) text =
    SameWords-next n text (skip_seps is_qsep text) refl (λ t. gettokens-tokenize n t)
