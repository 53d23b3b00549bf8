-- ===== src/Encodings/Tests.antt =====
-- Texts at concrete inputs, and the witnesses.
use drawterm.Prelude.{ℕ, ◌≡◌, refl, some, List, [], ◌∷◌, length, arith}
use drawterm.Encodings.{between, enc64chr, enc64, enc16chr, enc16, dec16, dec64}
use drawterm.Encodings.RoundTrip.{dec-enc}
use drawterm.Encodings.Base32.{enc32, dec32}
use drawterm.Encodings.Base32.RoundTrip.{dec32-enc32, dec32_overruns}

-- "Man" is "TWFu" in base 64, and "4D616E" in base 16.
enc_lem :
    (enc64 10 (77 ∷ 97 ∷ 110 ∷ []) ≡ 84 ∷ 87 ∷ 70 ∷ 117 ∷ [])
    × (enc16 10 (77 ∷ 97 ∷ 110 ∷ []) ≡ 52 ∷ 68 ∷ 54 ∷ 49 ∷ 54 ∷ 69 ∷ [])
unfolding between enc64chr enc64 enc16chr enc16
enc_lem = (refl, refl)

dec-enc_example :
    (dec16 4 (enc16 9 (77 ∷ 97 ∷ 110 ∷ 200 ∷ [])) ≡ 77 ∷ 97 ∷ 110 ∷ 200 ∷ [])
    × (dec64 4 (enc64 9 (77 ∷ 97 ∷ 110 ∷ 200 ∷ [])) ≡ 77 ∷ 97 ∷ 110 ∷ 200 ∷ [])
dec-enc_example =
    dec-enc (77 ∷ 97 ∷ 110 ∷ 200 ∷ []) 9 4
      (omega arith, (omega arith, (omega arith, (omega arith, tt)))) (omega arith) (omega arith)
      (omega arith)

dec32-enc32_example :
    (text : List ℕ) × (enc32 5 (77 ∷ 97 ∷ []) ≡ some text) × (dec32 2 text ≡ some (77 ∷ 97 ∷ []))
dec32-enc32_example =
    dec32-enc32 (77 ∷ 97 ∷ []) 5 2 (omega arith, (omega arith, tt)) (omega arith) (omega arith)

abbrev eight : List ℕ
eight = 65 ∷ 66 ∷ 67 ∷ 68 ∷ 69 ∷ 70 ∷ 71 ∷ 72 ∷ []

dec32_overruns_example : (q : List ℕ) × (dec32 4 eight ≡ some q) × (length q ≡ 5)
dec32_overruns_example = dec32_overruns 1 eight (omega arith) refl
