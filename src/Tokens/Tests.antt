-- ===== src/Tokens/Tests.antt =====
-- Runs of libc/tokenize.c.
use drawterm.Prelude.{ℕ, List, [], ◌∷◌, ◌≡◌, refl, take, map}
use drawterm.Tokens.{action, scan, qtoken, skip_seps, tokenize, is_qsep, etoken, gettokens}
use drawterm.Tokens.Same.{CutButLast, unquote, gettokens-tokenize}
use drawterm.Tokens.RoundTrip.{line, tokenize-line}

-- `it's`, the empty word and `a b`.
abbrev quoted_words : List (List ℕ)
quoted_words = (105 ∷ 116 ∷ 39 ∷ 115 ∷ []) ∷ [] ∷ (97 ∷ 32 ∷ 98 ∷ []) ∷ []

-- `ab 'c d'e<newline>`.
two_words :
    tokenize 5 (97 ∷ 98 ∷ 32 ∷ 39 ∷ 99 ∷ 32 ∷ 100 ∷ 39 ∷ 101 ∷ 10 ∷ [])
    ≡ (97 ∷ 98 ∷ []) ∷ (99 ∷ 32 ∷ 100 ∷ 101 ∷ []) ∷ []
unfolding tokenize qtoken scan action skip_seps is_qsep
two_words = refl

-- A quote that is not closed takes the rest of the string.
open_quote : tokenize 5 (39 ∷ 97 ∷ 32 ∷ 98 ∷ []) ≡ (97 ∷ 32 ∷ 98 ∷ []) ∷ []
unfolding tokenize qtoken scan action skip_seps is_qsep
open_quote = refl

tokenize-line_example : tokenize 3 (line quoted_words) ≡ take 3 quoted_words
tokenize-line_example = tokenize-line quoted_words 3

-- `a 'b' c` in two places.
gettokens_run :
    gettokens is_qsep 2 (97 ∷ 32 ∷ 39 ∷ 98 ∷ 39 ∷ 32 ∷ 99 ∷ [])
    ≡ (97 ∷ []) ∷ (39 ∷ 98 ∷ 39 ∷ 32 ∷ 99 ∷ []) ∷ []
unfolding gettokens etoken action skip_seps is_qsep
gettokens_run = refl

gettokens-tokenize_example :
    (map unquote (gettokens is_qsep 2 (97 ∷ 32 ∷ 39 ∷ 98 ∷ 39 ∷ 32 ∷ 99 ∷ []))
      ≡ tokenize 2 (97 ∷ 32 ∷ 39 ∷ 98 ∷ 39 ∷ 32 ∷ 99 ∷ []))
    × CutButLast 2 (gettokens is_qsep 2 (97 ∷ 32 ∷ 39 ∷ 98 ∷ 39 ∷ 32 ∷ 99 ∷ []))
gettokens-tokenize_example = gettokens-tokenize 2 (97 ∷ 32 ∷ 39 ∷ 98 ∷ 39 ∷ 32 ∷ 99 ∷ [])
