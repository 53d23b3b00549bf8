-- ===== src/Tokens/RoundTrip.antt =====
-- `tokenize` takes back the words that were quoted.
use drawterm.Prelude.{
  ℕ, zero, suc, ◌≡◌, inl, inr, refl, ap, ◌∙◌, true, false, List, [], ◌∷◌, take, ◌==◌, Bool-cases,
  if◌then◌else◌,
}
use drawterm.Tokens.{
  quote_char, is_qsep, write, pass, plain, quoting, doubled, copies, absorbs, action, scan, qtoken,
  skip_seps, tokenize,
}
use drawterm.Tokens.Ends.{scan-copies, scan-absorbs}

-- A word between quotes, with its own quotes doubled, and what follows it.
unfoldable pub quoted_end : List ℕ → List ℕ → List ℕ
quoted_end [] more = quote_char ∷ more
quoted_end (c ∷ w) more =
    let rest = quoted_end w more in if c == quote_char then c ∷ c ∷ rest else c ∷ rest

abbrev pub quoted : List ℕ → List ℕ → List ℕ
quoted w more = quote_char ∷ quoted_end w more

-- The words, each quoted and with a blank behind it.
abbrev pub line : List (List ℕ) → List ℕ
line [] = []
line (w ∷ ws) = quoted w (32 ∷ line ws)

action-copies :
    (c : ℕ) (t : List ℕ) → c == quote_char ≡ false → action is_qsep quoting c t ≡ copies quoting
unfolding action
action-copies c t other = rw (other) refl

action-doubled :
    (c : ℕ) (t : List ℕ)
    → c == quote_char ≡ true
    → action is_qsep quoting c (c ∷ t) ≡ absorbs doubled
unfolding action
action-doubled c t quote = rw (quote) refl

quoted_end-nil : (more : List ℕ) → quoted_end [] more ≡ quote_char ∷ more
unfolding quoted_end
quoted_end-nil more = refl

quoted_end-other :
    (c : ℕ) (w more : List ℕ)
    → c == quote_char ≡ false
    → quoted_end (c ∷ w) more ≡ c ∷ quoted_end w more
unfolding quoted_end
quoted_end-other c w more other = rw (other) refl

quoted_end-quote :
    (c : ℕ) (w more : List ℕ)
    → c == quote_char ≡ true
    → quoted_end (c ∷ w) more ≡ c ∷ c ∷ quoted_end w more
unfolding quoted_end
quoted_end-quote c w more quote = rw (quote) refl

-- Where no second quote is behind it, a quote ends the quoted part.
scan-close :
    (more : List ℕ)
    → scan is_qsep quoting (quote_char ∷ 32 ∷ more)
      ≡ record { out = []; left = 32 ∷ more; ahead = true }
unfolding scan action is_qsep
scan-close more = refl

scan-open : (t : List ℕ) → scan is_qsep plain (quote_char ∷ t) ≡ pass (scan is_qsep quoting t)
unfolding scan action is_qsep
scan-open t = refl

scan-doubled :
    (c : ℕ) (t : List ℕ) → scan is_qsep doubled (c ∷ t) ≡ write c (scan is_qsep quoting t)
unfolding scan action
scan-doubled c t = refl

-- Behind the word comes a separator.
scan-quoted_end :
    (w more : List ℕ)
    → scan is_qsep quoting (quoted_end w (32 ∷ more))
      ≡ record { out = w; left = 32 ∷ more; ahead = true }
scan-quoted_end [] more = rw (quoted_end-nil (32 ∷ more)) (scan-close more)
scan-quoted_end (c ∷ w) more = elim (Bool-cases (c == quote_char)) [
  | inr other ↦
      rw
        (
          quoted_end-other c w (32 ∷ more) other,
          scan-copies is_qsep quoting quoting c (quoted_end w (32 ∷ more))
              (action-copies c _ other),
          scan-quoted_end w more,
        )
        refl
  | inl quote ↦
      rw
        (
          quoted_end-quote c w (32 ∷ more) quote,
          scan-absorbs is_qsep quoting doubled c (c ∷ quoted_end w (32 ∷ more))
              (action-doubled c _ quote),
          scan-doubled c (quoted_end w (32 ∷ more)),
          scan-quoted_end w more,
        )
        refl
]

qtoken-quoted : (w more : List ℕ) → qtoken is_qsep (quoted w (32 ∷ more)) ≡ (w, 32 ∷ more)
unfolding qtoken
qtoken-quoted w more = rw (scan-open (quoted_end w (32 ∷ more)), scan-quoted_end w more) refl

tokenize-blank : (n : ℕ) (text : List ℕ) → tokenize n (32 ∷ text) ≡ tokenize n text
unfolding tokenize skip_seps is_qsep
tokenize-blank zero text = refl
tokenize-blank (suc n) text = refl

tokenize-quote :
    (n : ℕ) (text w rest : List ℕ)
    → qtoken is_qsep (quote_char ∷ text) ≡ (w, rest)
    → tokenize (suc n) (quote_char ∷ text) ≡ w ∷ tokenize n rest
unfolding tokenize skip_seps is_qsep
tokenize-quote n text w rest eq = rw (eq) refl

tokenize-zero : (text : List ℕ) → tokenize zero text ≡ []
unfolding tokenize
tokenize-zero text = refl

tokenize-empty : (n : ℕ) → tokenize n [] ≡ []
unfolding tokenize skip_seps
tokenize-empty zero = refl
tokenize-empty (suc n) = refl

-- Of a line of quoted words `tokenize` gives the first `maxargs`, as they were before they were quoted.
pub tokenize-line :
    (ws : List (List ℕ)) (maxargs : ℕ) → tokenize maxargs (line ws) ≡ take maxargs ws
tokenize-line [] zero = tokenize-empty zero
tokenize-line [] (suc maxargs) = tokenize-empty (suc maxargs)
tokenize-line (w ∷ ws) zero = tokenize-zero (line (w ∷ ws))
tokenize-line (w ∷ ws) (suc maxargs) =
    tokenize-quote maxargs (quoted_end w (32 ∷ line ws)) w (32 ∷ line ws)
      (qtoken-quoted w (line ws))
    ∙ ap (λ l. w ∷ l) (tokenize-blank maxargs (line ws) ∙ tokenize-line ws maxargs)
