-- ===== src/Encodings/Base64.antt =====
-- `dec64` takes back what `enc64` wrote.
use drawterm.Prelude.{
  ℕ, ◌+◌, ◌-◌, ◌*◌, ◌/◌, ◌^◌, ◌%◌, ◌<◌, ◌≤◌, ◌≡◌, refl, sym, ap, ◌∙◌, Bool, true, false, Option,
  none, some, List, [], ◌∷◌, ◌++◌, append_assoc, append-nil, length, All, IsByte, le→ltb, lt→leb,
  ◌==◌, ==_iff, accepts, accepts_at, arith,
}
use mathlib.Core.Path.{ap₂}
use drawterm.Encodings.{
  between, enc64chr, dec64chr, Decoder, byte, digit, last_bytes, dec64_loop, dec64, enc64,
}

abbrev is_digit : ℕ → Option ℕ → Bool
is_digit o none = false
is_digit o (some d) = d == o

dec64chr_table : accepts (λ o. is_digit o (dec64chr (enc64chr o))) 0 64 ≡ true
unfolding accepts dec64chr enc64chr between
dec64chr_table = refl

pub dec64chr-enc64chr : (o : ℕ) → o < 64 → dec64chr (enc64chr o) ≡ some o
dec64chr-enc64chr o h =
    go (dec64chr (enc64chr o)) (accepts_at _ 0 64 o dec64chr_table (omega arith) (omega arith))
  where
    go : (d : Option ℕ) → is_digit o d ≡ true → d ≡ some o
    go none e = absurd (cc)
    go (some d) e = ap some ((==_iff d o).0 e)

pad_lem : dec64chr 61 ≡ none
unfolding dec64chr between
pad_lem = refl

-- One digit of the text.
one_digit :
    (o : ℕ) (text : List ℕ) (s t : Decoder)
    → o < 64
    → digit o s ≡ some t
    → dec64_loop (enc64chr o ∷ text) s ≡ dec64_loop text t
unfolding dec64_loop
one_digit o text s t h e = rw (dec64_loop, dec64chr-enc64chr o h) (rw (dec64_loop, e) refl)

pad : (text : List ℕ) (s : Decoder) → dec64_loop (61 ∷ text) s ≡ dec64_loop text s
unfolding dec64_loop
pad text s = rw (dec64_loop, pad_lem) refl

-- The places of the four digits of three bytes.
module _ (room b24 : ℕ) (out : List ℕ) (text : List ℕ) where
  at_place : ℕ → ℕ → Decoder
  at_place i v = record { i = i; b24 = v; room = room; out = out }

  two_digits :
      (v : ℕ)
      → v < 2 ^ 24
      → dec64_loop (enc64chr (v / 2 ^ 18) ∷ enc64chr (v / 2 ^ 12 % 64) ∷ text) (at_place 0 b24)
        ≡ dec64_loop text (at_place 2 (v / 2 ^ 12 * 2 ^ 12))
  unfolding at_place digit
  two_digits v h =
      one_digit (v / 2 ^ 18) _ (at_place 0 b24) (at_place 1 (v / 2 ^ 18 * 2 ^ 18)) (omega arith)
        refl
      ∙ one_digit (v / 2 ^ 12 % 64) text (at_place 1 (v / 2 ^ 18 * 2 ^ 18)) _ (omega arith) refl
      ∙ ap (λ w. dec64_loop text (at_place 2 w)) (omega arith)

  three_digits :
      (v : ℕ)
      → v < 2 ^ 24
      → dec64_loop
          (enc64chr (v / 2 ^ 18) ∷ enc64chr (v / 2 ^ 12 % 64) ∷ enc64chr (v / 2 ^ 6 % 64) ∷ text)
          (at_place 0 b24)
        ≡ dec64_loop text (at_place 3 (v / 2 ^ 6 * 2 ^ 6))
  unfolding at_place digit
  three_digits v h =
      one_digit (v / 2 ^ 18) _ (at_place 0 b24) (at_place 1 (v / 2 ^ 18 * 2 ^ 18)) (omega arith)
        refl
      ∙ one_digit (v / 2 ^ 12 % 64) _ (at_place 1 (v / 2 ^ 18 * 2 ^ 18)) _ (omega arith) refl
      ∙ one_digit (v / 2 ^ 6 % 64) text
          (at_place 2 (v / 2 ^ 18 * 2 ^ 18 + v / 2 ^ 12 % 64 * 2 ^ 12)) _ (omega arith) refl
      ∙ ap (λ w. dec64_loop text (at_place 3 w)) (omega arith)

three_bytes : ℕ → List ℕ
three_bytes v = byte (v / 2 ^ 16) ∷ byte (v / 2 ^ 8) ∷ byte v ∷ []

four_digits :
    (room b24 : ℕ) (out text : List ℕ) (v : ℕ)
    → v < 2 ^ 24
    → 3 ≤ room
    → dec64_loop
        (enc64chr (v / 2 ^ 18)
          ∷ enc64chr (v / 2 ^ 12 % 64)
          ∷ enc64chr (v / 2 ^ 6 % 64)
          ∷ enc64chr (v % 64)
          ∷ text)
        (at_place room b24 out text 0 b24)
      ≡ dec64_loop text (at_place (room - 3) b24 (out ++ three_bytes v) text 0 v)
unfolding at_place digit three_bytes
four_digits room b24 out text v h l =
    three_digits room b24 out (enc64chr (v % 64) ∷ text) v h
    ∙ one_digit (v % 64) text (record { i = 3; b24 = v / 2 ^ 6 * 2 ^ 6; room = room; out = out })
        (record {
          i = 0;
          b24 = v / 2 ^ 6 * 2 ^ 6 + v % 64;
          room = room - 3;
          out = out ++ three_bytes (v / 2 ^ 6 * 2 ^ 6 + v % 64);
        })
        (omega arith) (rw (le→ltb room 3 l) refl)
    ∙ ap
        (λ w.
          dec64_loop text (record { i = 0; b24 = w; room = room - 3; out = out ++ three_bytes w }))
        (omega arith)

end_two :
    (v room : ℕ) (out : List ℕ)
    → 1 ≤ room
    → dec64_loop [] (record { i = 2; b24 = v; room = room; out = out })
      ≡ out ++ (byte (v / 2 ^ 16) ∷ [])
unfolding dec64_loop last_bytes
end_two v room out l = rw (le→ltb room 1 l) refl

end_three :
    (v room : ℕ) (out : List ℕ)
    → 2 ≤ room
    → dec64_loop [] (record { i = 3; b24 = v; room = room; out = out })
      ≡ out ++ (byte (v / 2 ^ 16) ∷ byte (v / 2 ^ 8) ∷ [])
unfolding dec64_loop last_bytes
end_three v room out l = rw (le→ltb room 2 l) refl

end_none :
    (v room : ℕ) (out : List ℕ)
    → dec64_loop [] (record { i = 0; b24 = v; room = room; out = out }) ≡ out ++ []
unfolding dec64_loop last_bytes
end_none v room out = sym (append-nil out)

-- From any place between two groups of digits.
round :
    (p : List ℕ) (lim room b24 : ℕ) (out : List ℕ)
    → All IsByte p
    → (length p + 2) / 3 * 4 < lim
    → length p ≤ room
    → dec64_loop (enc64 lim p) (record { i = 0; b24 = b24; room = room; out = out }) ≡ out ++ p
unfolding enc64 at_place three_bytes
round [] lim room b24 out a h l = end_none b24 room out
round (x ∷ []) lim room b24 out (hx, _) h l =
    let v = x * 2 ^ 16 in
    rw (lt→leb lim 4 (omega arith)) (
      two_digits room b24 out (61 ∷ 61 ∷ []) v (omega arith)
      ∙ pad (61 ∷ []) _
      ∙ pad [] _
      ∙ end_two (v / 2 ^ 12 * 2 ^ 12) room out (omega arith)
      ∙ ap (λ w. out ++ (w ∷ [])) (omega arith))
round (x ∷ y ∷ []) lim room b24 out (hx, (hy, _)) h l =
    let v = x * 2 ^ 16 + y * 2 ^ 8 in
    rw (lt→leb lim 4 (omega arith)) (
      three_digits room b24 out (61 ∷ []) v (omega arith)
      ∙ pad [] _
      ∙ end_three (v / 2 ^ 6 * 2 ^ 6) room out (omega arith)
      ∙ ap₂ (λ w u. out ++ (w ∷ u ∷ [])) (omega arith) (omega arith))
round (x ∷ y ∷ z ∷ p) lim room b24 out (hx, (hy, (hz, a))) h l =
    let v = x * 2 ^ 16 + y * 2 ^ 8 + z in
    rw (lt→leb lim 4 (omega arith)) (
      four_digits room b24 out (enc64 (lim - 4) p) v (omega arith) (omega arith)
      ∙ round p (lim - 4) (room - 3) v (out ++ three_bytes v) a (omega arith) (omega arith)
      ∙ append_assoc out (three_bytes v) p
      ∙ ap (λ w. out ++ w) (bytes v refl))
  where
    bytes : (v : ℕ) → v ≡ x * 2 ^ 16 + y * 2 ^ 8 + z → three_bytes v ++ p ≡ x ∷ y ∷ z ∷ p
    bytes v e =
        let f : byte (v / 2 ^ 16) ≡ x = omega arith in
        let g : byte (v / 2 ^ 8) ≡ y = omega arith in
        let h : byte v ≡ z = omega arith in
        ap₂ (λ a b. a ∷ b ∷ byte v ∷ p) f g ∙ ap (λ c. x ∷ y ∷ c ∷ p) h

-- Whatever bytes enc64 writes as text, into a buffer with room for the text and its NUL, dec64 takes
-- back into a buffer with room for the bytes.
pub dec64-enc64 :
    (p : List ℕ) (lim room : ℕ)
    → All IsByte p
    → (length p + 2) / 3 * 4 < lim
    → length p ≤ room
    → dec64 room (enc64 lim p) ≡ p
unfolding dec64
dec64-enc64 p lim room a h l = round p lim room 0 [] a h l
