-- ===== src/Tokens.antt =====
-- libc/tokenize.c: strings cut into words at separators, with quotes.
pub mod RoundTrip
pub mod Ends
pub mod Cut
pub mod Same
mod Tests
use drawterm.Prelude.{
  ℕ, zero, suc, ◌+◌, Bool, true, false, ◌&&◌, ◌||◌, not, List, [], ◌∷◌, ◌++◌, length, ◌==◌,
  if◌then◌else◌,
}

-- `'\''`.
abbrev pub quote_char : ℕ
quote_char = 39

-- `utfrune(qsep, *t) != nil`.
unfoldable pub is_qsep : ℕ → Bool
is_qsep c = (c == 32) || ((c == 9) || ((c == 13) || (c == 10)))

abbrev pub starts_quote : List ℕ → Bool
starts_quote [] = false
starts_quote (c ∷ t) = c == quote_char

abbrev pub tail : List ℕ → List ℕ
tail [] = []
tail (c ∷ t) = t

-- The loop of `qtoken`: what it writes, what is left at `t`, and whether `t` has gone ahead of `s`,
-- from where the string is `text`.
pub record Scan : Type 0 where
  pub out : List ℕ
  pub left : List ℕ
  pub ahead : Bool

abbrev pub write : ℕ → Scan → Scan
write c r = record r { out = c ∷ r.out }

abbrev pub pass : Scan → Scan
pass r = record r { ahead = true }

-- Outside and inside quotes, and at the second quote of a doubled one.
pub data Mode : Type 0 where
  plain : Mode
  quoting : Mode
  doubled : Mode

-- What is done with a character.
pub data Action : Type 0 where
  stops : Action
  copies : Mode → Action
  absorbs : Mode → Action

module _ (is_sep : ℕ → Bool) where
  -- The round of `qtoken` at `*t`, where `t` is the rest of the string.
  unfoldable pub action : Mode → ℕ → List ℕ → Action
  action plain c t =
      if is_sep c then stops else if c == quote_char then absorbs quoting else copies plain
  action quoting c t =
      if not (c == quote_char)
      then copies quoting
      else if starts_quote t
      then absorbs doubled
      else absorbs plain
  action doubled c t = copies quoting

  unfoldable pub scan : Mode → List ℕ → Scan
  scan m [] = record { out = []; left = []; ahead = false }
  scan m (c ∷ t) = elim (action m c t) [
    | stops ↦ record { out = []; left = c ∷ t; ahead = false }
    | copies n ↦ write c (scan n t)
    | absorbs n ↦ pass (scan n t)
  ]

  -- The word, and the rest of the string. Where `s` is at `t`, the NUL behind the word takes the
  -- place of the separator.
  unfoldable pub qtoken : List ℕ → List ℕ × List ℕ
  qtoken text = let r = scan plain text in (r.out, if r.ahead then r.left else tail r.left)

  unfoldable pub skip_seps : List ℕ → List ℕ
  skip_seps [] = []
  skip_seps (c ∷ t) = let rest = skip_seps t in if is_sep c then rest else c ∷ t

  -- The characters that `etoken` passes over, quotes and all, and what is left where it stops.
  unfoldable pub etoken : Mode → List ℕ → List ℕ × List ℕ
  etoken m [] = ([], [])
  etoken m (c ∷ t) = elim (action m c t) [
    | stops ↦ ([], c ∷ t)
    | copies n ↦ let (word, left) = etoken n t in (c ∷ word, left)
    | absorbs n ↦ let (word, left) = etoken n t in (c ∷ word, left)
  ]

  -- The words as they stand in the string; the code returns their number. A NUL is put behind a
  -- word only when the loop comes round again, so that the word in the last place runs on to the
  -- end of the string.
  unfoldable pub gettokens : ℕ → List ℕ → List (List ℕ)
  gettokens zero text = []
  gettokens (suc maxargs) text = elim (skip_seps text) [
    | [] ↦ []
    | c ∷ t ↦
        let (word, rest) = etoken plain (c ∷ t) in
        (if maxargs == 0 then c ∷ t else word) ∷ gettokens maxargs rest
  ]

-- The words; the code returns their number. Each but the last takes one of `maxargs`.
unfoldable pub tokenize : ℕ → List ℕ → List (List ℕ)
tokenize zero text = []
tokenize (suc maxargs) text = elim (skip_seps is_qsep text) [
  | [] ↦ []
  | c ∷ t ↦ let (word, rest) = qtoken is_qsep (c ∷ t) in word ∷ tokenize maxargs rest
]
