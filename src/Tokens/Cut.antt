-- ===== src/Tokens/Cut.antt =====
-- A string that is cut behind its first word.
use drawterm.Prelude.{
  ℕ, ◌≡◌, inl, inr, refl, ap, ◌∙◌, sym, Bool, true, false, ◌==◌, Bool-cases, List, [], ◌∷◌,
}
use drawterm.Tokens.{
  Mode, plain, quoting, doubled, Action, stops, copies, absorbs, action, scan, etoken, starts_quote,
  quote_char, tail, skip_seps,
}
use drawterm.Tokens.Ends.{etoken-stops, etoken-passes, scan-copies, scan-absorbs, scan-stops}

module _ (is_sep : ℕ → Bool) where
  abbrev pub mode_of : Action → Mode
  mode_of stops = plain
  mode_of (copies n) = n
  mode_of (absorbs n) = n

  abbrev does_stop : Action → Bool
  does_stop stops = true
  does_stop (copies n) = false
  does_stop (absorbs n) = false

  starts_quote-doubled : (t : List ℕ) → starts_quote (etoken is_sep doubled t).0 ≡ starts_quote t
  unfolding etoken action
  starts_quote-doubled [] = refl
  starts_quote-doubled (c ∷ t) = refl

  starts_quote-cut :
      (c : ℕ) (t : List ℕ) (a : Action)
      → action is_sep plain c t ≡ a
      → starts_quote (c ∷ t) ≡ false
      → starts_quote (etoken is_sep plain (c ∷ t)).0 ≡ false
  starts_quote-cut c t stops eq one = rw (etoken-stops is_sep plain c t eq) refl
  starts_quote-cut c t (copies n) eq one = rw (etoken-passes is_sep plain n c t (inl eq)) one
  starts_quote-cut c t (absorbs n) eq one = rw (etoken-passes is_sep plain n c t (inr eq)) one

  starts_quote-plain :
      (t : List ℕ) → starts_quote t ≡ false → starts_quote (etoken is_sep plain t).0 ≡ false
  unfolding etoken
  starts_quote-plain [] one = refl
  starts_quote-plain (c ∷ t) one = starts_quote-cut c t (action is_sep plain c t) refl one

  pub action-two :
      (c : ℕ) (t : List ℕ)
      → c == quote_char ≡ true
      → starts_quote t ≡ true
      → action is_sep quoting c t ≡ absorbs doubled
  unfolding action
  action-two c t quote two = rw (quote, two) refl

  action-one :
      (c : ℕ) (t : List ℕ)
      → c == quote_char ≡ true
      → starts_quote t ≡ false
      → action is_sep quoting c t ≡ absorbs plain
  unfolding action
  action-one c t quote one = rw (quote, one) refl

  pub action-other :
      (c : ℕ) (t : List ℕ) → c == quote_char ≡ false → action is_sep quoting c t ≡ copies quoting
  unfolding action
  action-other c t other = rw (other) refl

  abbrev pub CutAlike : Mode → ℕ → List ℕ → Type 0
  CutAlike m c t =
      action is_sep m c (etoken is_sep (mode_of (action is_sep m c t)) t).0 ≡ action is_sep m c t

  CutAlike-quoting : (c : ℕ) (t : List ℕ) → CutAlike quoting c t
  CutAlike-quoting c t = elim (Bool-cases (c == quote_char)) [
    | inr other ↦
        action-other c (etoken is_sep (mode_of (action is_sep quoting c t)) t).0 other
        ∙ sym (action-other c t other)
    | inl quote ↦ elim (Bool-cases (starts_quote t)) [
      | inl two ↦
          rw (action-two c t quote two)
            (action-two c (etoken is_sep doubled t).0 quote (starts_quote-doubled t ∙ two))
      | inr one ↦
          rw (action-one c t quote one)
            (action-one c (etoken is_sep plain t).0 quote (starts_quote-plain t one))
    ]
  ]

  -- What is done with a character is the same where the string ends with the word.
  pub action-cut : (m : Mode) (c : ℕ) (t : List ℕ) → CutAlike m c t
  unfolding action
  action-cut plain c t = refl
  action-cut doubled c t = refl
  action-cut quoting c t = CutAlike-quoting c t

  does_stop-plain :
      (c : ℕ) (t : List ℕ) → is_sep c ≡ false → does_stop (action is_sep plain c t) ≡ false
  unfolding action
  does_stop-plain c t inside = elim (Bool-cases (c == quote_char)) [
    | inl quote ↦ rw (inside, quote) refl
    | inr other ↦ rw (inside, other) refl
  ]

  does_stop-quoting : (c : ℕ) (t : List ℕ) → does_stop (action is_sep quoting c t) ≡ false
  does_stop-quoting c t = elim (Bool-cases (c == quote_char)) [
    | inr other ↦ rw (action-other c t other) refl
    | inl quote ↦ elim (Bool-cases (starts_quote t)) [
      | inl two ↦ rw (action-two c t quote two) refl
      | inr one ↦ rw (action-one c t quote one) refl
    ]
  ]

  does_stop_lem :
      (m : Mode) (c : ℕ) (t : List ℕ) → is_sep c ≡ false → does_stop (action is_sep m c t) ≡ false
  unfolding action
  does_stop_lem plain c t inside = does_stop-plain c t inside
  does_stop_lem quoting c t inside = does_stop-quoting c t
  does_stop_lem doubled c t inside = refl

  -- Where a word stops at a character, that is a separator.
  pub is_sep-stop : (m : Mode) (c : ℕ) (t : List ℕ) → action is_sep m c t ≡ stops → is_sep c ≡ true
  is_sep-stop m c t eq = elim (Bool-cases (is_sep c)) [
    | inl sep ↦ sep
    | inr inside ↦ inside ∙ sym (rw eq at (does_stop_lem m c t inside))
  ]

  -- What the loop of `qtoken` writes of a string it writes of its first word alone, of which it
  -- leaves nothing; and behind what it leaves a separator may be dropped.
  abbrev pub CutsWord : Mode → List ℕ → Type 0
  CutsWord m text =
      (((scan is_sep m (etoken is_sep m text).0).out ≡ (scan is_sep m text).out)
        × ((scan is_sep m (etoken is_sep m text).0).left ≡ []))
      × (skip_seps is_sep (tail (scan is_sep m text).left)
          ≡ skip_seps is_sep (scan is_sep m text).left)

  CutsWord-end : (m : Mode) → CutsWord m []
  unfolding etoken scan
  CutsWord-end m = ((refl, refl), refl)

  skip_seps-sep :
      (c : ℕ) (t : List ℕ) → is_sep c ≡ true → skip_seps is_sep (c ∷ t) ≡ skip_seps is_sep t
  unfolding skip_seps
  skip_seps-sep c t sep = rw (sep) refl

  scan-nil : (m : Mode) → ((scan is_sep m []).out ≡ []) × ((scan is_sep m []).left ≡ [])
  unfolding scan
  scan-nil m = (refl, refl)

  action-cut_at :
      (m n : Mode) (c : ℕ) (t : List ℕ) (a : Action)
      → mode_of a ≡ n
      → action is_sep m c t ≡ a
      → action is_sep m c (etoken is_sep n t).0 ≡ a
  action-cut_at m n c t a mode eq = rw (eq, mode) at (action-cut m c t)

  CutsWord-next :
      (m : Mode) (c : ℕ) (t : List ℕ) (a : Action)
      → action is_sep m c t ≡ a
      → ((n : Mode) → CutsWord n t)
      → CutsWord m (c ∷ t)
  CutsWord-next m c t stops eq later =
      rw (etoken-stops is_sep m c t eq, scan-stops is_sep m c t eq)
        (scan-nil m, sym (skip_seps-sep c t (is_sep-stop m c t eq)))
  CutsWord-next m c t (copies n) eq later =
      rw
        (
          etoken-passes is_sep m n c t (inl eq),
          scan-copies is_sep m n c t eq,
          scan-copies is_sep m n c (etoken is_sep n t).0 (action-cut_at m n c t (copies n) refl eq),
        )
        ((ap (λ l. c ∷ l) (later n).0.0, (later n).0.1), (later n).1)
  CutsWord-next m c t (absorbs n) eq later =
      rw
        (
          etoken-passes is_sep m n c t (inr eq),
          scan-absorbs is_sep m n c t eq,
          scan-absorbs is_sep m n c (etoken is_sep n t).0
              (action-cut_at m n c t (absorbs n) refl eq),
        )
        (later n)

  pub scan-etoken : (m : Mode) (text : List ℕ) → CutsWord m text
  scan-etoken m [] = CutsWord-end m
  scan-etoken m (c ∷ t) = CutsWord-next m c t (action is_sep m c t) refl (λ n. scan-etoken n t)
