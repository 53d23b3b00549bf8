-- ===== src/Encodings/Base32/RoundTrip.antt =====
-- `dec32` takes back what `enc32` wrote, and where it writes too far.
use drawterm.Prelude.{
  ℕ, zero, suc, ◌+◌, ◌-◌, ◌*◌, ◌/◌, ◌<◌, ◌≤◌, ◌≡◌, refl, ap, ◌∙◌, true, false, Option, some, List,
  [], ◌∷◌, length, All, IsByte, ltb, le→ltb, lt→leb, ◌==◌, ==_iff, accepts, accepts_at, arith,
}
use mathlib.Core.Path.{ap₂}
use drawterm.Encodings.{between}
use drawterm.Encodings.Base32.{
  enc32chr, dec32chr, byte0, byte1, byte2, byte3, byte4, prepend, groups, digits, dec32, values,
  chars, enc32,
}

dec32chr_table : accepts (λ o. dec32chr (enc32chr o) == o) 0 32 ≡ true
unfolding accepts dec32chr enc32chr between
dec32chr_table = refl

dec32chr-enc32chr : (o : ℕ) → o < 32 → dec32chr (enc32chr o) ≡ o
dec32chr-enc32chr o h =
    (==_iff _ _).0 (accepts_at _ 0 32 o dec32chr_table (omega arith) (omega arith))

digits-chars : (js : List ℕ) → All (λ j. j < 32) js → digits (chars js) ≡ js
unfolding digits chars
digits-chars [] a = refl
digits-chars (j ∷ js) (h, a) = ap₂ ◌∷◌ (dec32chr-enc32chr j h) (digits-chars js a)

length-chars : (js : List ℕ) → length (chars js) ≡ length js
unfolding chars
length-chars [] = refl
length-chars (j ∷ js) = omega (arith, length-chars js)

length-values : (p : List ℕ) → length (values p) ≡ (8 * length p + 4) / 5
unfolding values
length-values [] = refl
length-values (s ∷ []) = refl
length-values (s ∷ t ∷ []) = refl
length-values (s ∷ t ∷ u ∷ []) = refl
length-values (s ∷ t ∷ u ∷ v ∷ []) = refl
length-values (s ∷ t ∷ u ∷ v ∷ w ∷ p) = omega (arith, length-values p)

values_small : (p : List ℕ) → All IsByte p → All (λ j. j < 32) (values p)
unfolding values
values_small [] a = tt
values_small (s ∷ []) (hs, _) = (omega arith, (omega arith, tt))
values_small (s ∷ t ∷ []) (hs, (ht, _)) =
    (omega arith, (omega arith, (omega arith, (omega arith, tt))))
values_small (s ∷ t ∷ u ∷ []) (hs, (ht, (hu, _))) =
    (omega arith, (omega arith, (omega arith, (omega arith, (omega arith, tt)))))
values_small (s ∷ t ∷ u ∷ v ∷ []) (hs, (ht, (hu, (hv, _)))) = (
  omega arith,
  (omega arith, (omega arith, (omega arith, (omega arith, (omega arith, (omega arith, tt)))))),
)
values_small (s ∷ t ∷ u ∷ v ∷ w ∷ p) (hs, (ht, (hu, (hv, (hw, a))))) = (
  omega arith,
  (
    omega arith,
    (
      omega arith,
      (omega arith, (omega arith, (omega arith, (omega arith, (omega arith, values_small p a))))),
    ),
  ),
)

some_eq : {p q : List ℕ} → p ≡ q → ◌≡◌ {A = Option (List ℕ)} (some p) (some q)
some_eq e = ap some e

groups-values : (p : List ℕ) → All IsByte p → groups (values p) ≡ some p
unfolding values groups prepend byte0 byte1 byte2 byte3 byte4
groups-values [] a = refl
groups-values (s ∷ []) (hs, _) = some_eq (ap₂ ◌∷◌ (omega arith) refl)
groups-values (s ∷ t ∷ []) (hs, (ht, _)) =
    some_eq (ap₂ ◌∷◌ (omega arith) (ap₂ ◌∷◌ (omega arith) refl))
groups-values (s ∷ t ∷ u ∷ []) (hs, (ht, (hu, _))) =
    some_eq (ap₂ ◌∷◌ (omega arith) (ap₂ ◌∷◌ (omega arith) (ap₂ ◌∷◌ (omega arith) refl)))
groups-values (s ∷ t ∷ u ∷ v ∷ []) (hs, (ht, (hu, (hv, _)))) = some_eq (
    ap₂ ◌∷◌ (omega arith)
      (ap₂ ◌∷◌ (omega arith) (ap₂ ◌∷◌ (omega arith) (ap₂ ◌∷◌ (omega arith) refl))))
groups-values (s ∷ t ∷ u ∷ v ∷ w ∷ p) (hs, (ht, (hu, (hv, (hw, a))))) = rw (groups-values p a) (
    some_eq (
      ap₂ ◌∷◌ (omega arith) (
        ap₂ ◌∷◌ (omega arith)
          (ap₂ ◌∷◌ (omega arith) (ap₂ ◌∷◌ (omega arith) (ap₂ ◌∷◌ (omega arith) refl))))))

-- Bytes that enc32 turns into text, dec32 turns back, into any buffer that has room for them.
pub dec32-enc32 :
    (p : List ℕ) (ndest room : ℕ)
    → All IsByte p
    → (8 * length p + 4) / 5 < ndest
    → length p ≤ room
    → (text : List ℕ) × (enc32 ndest p ≡ some text) × (dec32 room text ≡ some p)
unfolding enc32 dec32
dec32-enc32 p ndest room a h l = (
  chars (values p),
  rw (lt→leb ndest ((8 * length p + 4) / 5) h) refl,
  rw (fits, digits-chars (values p) (values_small p a)) (groups-values p a),
)
  where
    fits : ltb (room + 1) ((5 * length (chars (values p)) + 7) / 8) ≡ false
    fits =
        le→ltb (room + 1) ((5 * length (chars (values p)) + 7) / 8)
          (omega (arith, length-chars (values p), length-values p))

-- A whole number of groups gives five bytes each.
groups-length :
    (k : ℕ) (js : List ℕ)
    → length js ≡ 8 * k
    → (q : List ℕ) × (groups js ≡ some q) × (length q ≡ 5 * k)
unfolding groups prepend
groups-length zero [] h = ([], refl, omega arith)
groups-length zero (a ∷ js) h = absurd (omega arith)
groups-length (suc k) [] h = absurd (omega arith)
groups-length (suc k) (a ∷ []) h = absurd (omega arith)
groups-length (suc k) (a ∷ b ∷ []) h = absurd (omega arith)
groups-length (suc k) (a ∷ b ∷ c ∷ []) h = absurd (omega arith)
groups-length (suc k) (a ∷ b ∷ c ∷ d ∷ []) h = absurd (omega arith)
groups-length (suc k) (a ∷ b ∷ c ∷ d ∷ e ∷ []) h = absurd (omega arith)
groups-length (suc k) (a ∷ b ∷ c ∷ d ∷ e ∷ f ∷ []) h = absurd (omega arith)
groups-length (suc k) (a ∷ b ∷ c ∷ d ∷ e ∷ f ∷ g ∷ []) h = absurd (omega arith)
groups-length (suc k) (a ∷ b ∷ c ∷ d ∷ e ∷ f ∷ g ∷ i ∷ js) h =
    let (q, r, l) = groups-length k js (omega arith) in
    (byte0 a b ∷ byte1 b c d ∷ byte2 d e ∷ byte3 e f g ∷ byte4 g i ∷ q, rw r refl, omega (arith, l))

length-digits : (text : List ℕ) → length (digits text) ≡ length text
unfolding digits
length-digits [] = refl
length-digits (c ∷ text) = omega (arith, length-digits text)

-- For every text of k groups of eight characters, k at least 1, dec32 passes its test of the room in
-- a buffer of 5 * k - 1 bytes and writes 5 * k bytes: one behind the end of the buffer.
pub dec32_overruns :
    (k : ℕ) (text : List ℕ)
    → 1 ≤ k
    → length text ≡ 8 * k
    → (q : List ℕ) × (dec32 (5 * k - 1) text ≡ some q) × (length q ≡ 5 * k)
unfolding dec32
dec32_overruns k text h l =
    let (q, e, m) = groups-length k (digits text) (length-digits text ∙ l) in
    (q, rw (le→ltb (5 * k - 1 + 1) ((5 * length text + 7) / 8) (omega arith)) e, m)
