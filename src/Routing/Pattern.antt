-- ===== src/Routing/Pattern.antt =====
-- `pattern_matches` of src/routing/mod.rs: model names against patterns with the wildcard `*`.
-- The indices `p` and `t` of the loop stand here as what is left of the pattern and of the text.
pub mod Glob
mod Split
pub mod Correct
use nextapi.Base.{
  ℕ, zero, suc, ◌+◌, ◌*◌, String, Bool, true, false, Option, none, some, List, [], ◌∷◌, codes, ◌==◌,
  ℕ_eq, length, drop,
}

abbrev pub wildcard : ℕ
wildcard = b'*'

-- Where the last `*` was met: the pattern behind it, and the text from `star_match` on.
abbrev pub Star : Type 0
Star = Option (List ℕ × List ℕ)

-- The loop that consumes the stars at the pattern's end.
pub skip_stars : List ℕ → List ℕ
skip_stars [] = []
skip_stars (c ∷ p) = elim (c == wildcard) [ true ↦ skip_stars p | false ↦ c ∷ p ]

abbrev pub is_empty : List ℕ → Bool
is_empty [] = true
is_empty (c ∷ p) = false

-- The main loop, one round for each step of fuel; `none` means that the fuel ran out. On a
-- mismatch the last `*` takes one character more.
pub scan : ℕ → List ℕ → List ℕ → Star → Option Bool
unfolding skip_stars
scan zero p t star = none
scan (suc f) p [] star = some (is_empty (skip_stars p))
scan (suc f) [] (c ∷ t) star = elim star [
  | none ↦ some false
  | some (sp, st) ↦ scan f sp (drop 1 st) (some (sp, drop 1 st))
]
scan (suc f) (q ∷ p) (c ∷ t) star = elim (q == wildcard) [
  | true ↦ scan f p (c ∷ t) (some (p, c ∷ t))
  | false ↦ elim (q == c) [
    | true ↦ scan f p t star
    | false ↦ elim star [
      | none ↦ some false
      | some (sp, st) ↦ scan f sp (drop 1 st) (some (sp, drop 1 st))
    ]
  ]
]

-- Enough rounds for a pattern of length `m` and a text of length `n`.
abbrev pub rounds : ℕ → ℕ → ℕ
rounds m n = (m + n) * suc n + m + n + 1

abbrev pub or_false : Option Bool → Bool
or_false none = false
or_false (some b) = b

unfoldable pub pattern_matches : String → String → Bool
unfolding scan
pattern_matches pattern model =
    let pat = codes pattern in
    let txt = codes model in or_false (scan (rounds (length pat) (length txt)) pat txt none)
