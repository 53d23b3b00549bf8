-- ===== src/Tokens/Ends.antt =====
-- `etoken` and `qtoken` stop at the same place.
use drawterm.Prelude.{ℕ, ◌≡◌, ◌⊎◌, inl, inr, refl, ap, Bool, false, List, [], ◌∷◌, ◌++◌}
use drawterm.Tokens.{write, pass, Mode, Action, stops, copies, absorbs, action, scan, etoken}

module _ (is_sep : ℕ → Bool) where
  -- Both leave the same characters, and `etoken` leaves out none.
  abbrev pub StopsAlike : Mode → List ℕ → Type 0
  StopsAlike m text =
      ((etoken is_sep m text).1 ≡ (scan is_sep m text).left)
      × ((etoken is_sep m text).0 ++ (etoken is_sep m text).1 ≡ text)

  pub etoken-stops :
      (m : Mode) (c : ℕ) (t : List ℕ)
      → action is_sep m c t ≡ stops
      → etoken is_sep m (c ∷ t) ≡ ([], c ∷ t)
  unfolding etoken
  etoken-stops m c t eq = rw (etoken, eq) refl

  -- The character is passed over, in the mode `n` behind it.
  pub etoken-passes :
      (m n : Mode) (c : ℕ) (t : List ℕ)
      → (action is_sep m c t ≡ copies n) ⊎ (action is_sep m c t ≡ absorbs n)
      → etoken is_sep m (c ∷ t) ≡ (c ∷ (etoken is_sep n t).0, (etoken is_sep n t).1)
  unfolding etoken
  etoken-passes m n c t (inl eq) = rw (etoken, eq) refl
  etoken-passes m n c t (inr eq) = rw (etoken, eq) refl

  pub scan-copies :
      (m n : Mode) (c : ℕ) (t : List ℕ)
      → action is_sep m c t ≡ copies n
      → scan is_sep m (c ∷ t) ≡ write c (scan is_sep n t)
  unfolding scan
  scan-copies m n c t eq = rw (scan, eq) refl

  pub scan-absorbs :
      (m n : Mode) (c : ℕ) (t : List ℕ)
      → action is_sep m c t ≡ absorbs n
      → scan is_sep m (c ∷ t) ≡ pass (scan is_sep n t)
  unfolding scan
  scan-absorbs m n c t eq = rw (scan, eq) refl

  pub scan-stops :
      (m : Mode) (c : ℕ) (t : List ℕ)
      → action is_sep m c t ≡ stops
      → scan is_sep m (c ∷ t) ≡ record { out = []; left = c ∷ t; ahead = false }
  unfolding scan
  scan-stops m c t eq = rw (scan, eq) refl

  pub left-stops :
      (m : Mode) (c : ℕ) (t : List ℕ)
      → action is_sep m c t ≡ stops
      → (scan is_sep m (c ∷ t)).left ≡ c ∷ t
  unfolding scan
  left-stops m c t eq = rw (scan, eq) refl

  pub left-passes :
      (m n : Mode) (c : ℕ) (t : List ℕ)
      → (action is_sep m c t ≡ copies n) ⊎ (action is_sep m c t ≡ absorbs n)
      → (scan is_sep m (c ∷ t)).left ≡ (scan is_sep n t).left
  unfolding scan
  left-passes m n c t (inl eq) = rw (scan, eq) refl
  left-passes m n c t (inr eq) = rw (scan, eq) refl

  StopsAlike-passes :
      (m n : Mode) (c : ℕ) (t : List ℕ)
      → (action is_sep m c t ≡ copies n) ⊎ (action is_sep m c t ≡ absorbs n)
      → StopsAlike n t
      → StopsAlike m (c ∷ t)
  StopsAlike-passes m n c t eq (alike, whole) =
      rw (etoken-passes m n c t eq, left-passes m n c t eq) (alike, ap (λ l. c ∷ l) whole)

  StopsAlike-next :
      (m : Mode) (c : ℕ) (t : List ℕ) (a : Action)
      → action is_sep m c t ≡ a
      → ((n : Mode) → StopsAlike n t)
      → StopsAlike m (c ∷ t)
  StopsAlike-next m c t stops eq later =
      rw (etoken-stops m c t eq, left-stops m c t eq) (refl, refl)
  StopsAlike-next m c t (copies n) eq later = StopsAlike-passes m n c t (inl eq) (later n)
  StopsAlike-next m c t (absorbs n) eq later = StopsAlike-passes m n c t (inr eq) (later n)

  StopsAlike-end : (m : Mode) → StopsAlike m []
  unfolding etoken scan
  StopsAlike-end m = (refl, refl)

  -- In each mode, `etoken` and the loop of `qtoken` leave the same characters, and `etoken` leaves
  -- out none: those it passes over and those that are left are the string.
  pub etoken-scan : (m : Mode) (text : List ℕ) → StopsAlike m text
  etoken-scan m [] = StopsAlike-end m
  etoken-scan m (c ∷ t) = StopsAlike-next m c t (action is_sep m c t) refl (λ n. etoken-scan n t)
