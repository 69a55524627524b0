-- ===== src/Base/Text.antt =====
-- Text that the program walks is a list of code points; text that it only compares is a `String`.
use Prim.Native.Nat.{ℕ}
use Prim.Native.Char.{code}
use Prim.Native.String.{String}
use text.Mathlib.Text.{◌==◌}
use mathlib.Core.Bool.{Bool, true, false, ◌&&◌}
use mathlib.Core.Option.{Option, none, some}
use mathlib.Core.List.{List, [], ◌∷◌}
use nextapi.Base.Tests.{eqb, if◌then◌else◌}
use nextapi.Base.Lists.{all, any}

abbrev pub codes : String → List ℕ
codes String.[] = []
codes (String.◌∷◌ c s) = code c ∷ codes s

-- The characters with the Unicode property White_Space, by which `trim` goes.
abbrev pub white_space : List ℕ
white_space =
    9 ∷ 10 ∷ 11 ∷ 12 ∷ 13 ∷ 32 ∷ 133 ∷ 160 ∷ 5760 ∷ 8192 ∷ 8193 ∷ 8194 ∷ 8195 ∷ 8196 ∷ 8197 ∷ 8198
    ∷ 8199 ∷ 8200 ∷ 8201 ∷ 8202 ∷ 8232 ∷ 8233 ∷ 8239 ∷ 8287 ∷ 12288 ∷ []

-- `s.trim().is_empty()`
abbrev pub is_blank : String → Bool
is_blank s = all (λ c. any (λ w. eqb w c) white_space) (codes s)

-- A string cut at the first character with this code, which is in neither part.
unfoldable pub cut_at : ℕ → String → Option (String × String)
cut_at c String.[] = none
cut_at c (String.◌∷◌ x s) =
    let rest = cut_at c s in
    if eqb (code x) c
    then some (String.[], s)
    else elim rest [ none ↦ none | some (a, b) ↦ some (String.◌∷◌ x a, b) ]

-- `s.strip_prefix(p)`
unfoldable pub strip_text : String → String → Option String
strip_text String.[] s = some s
strip_text (String.◌∷◌ p ps) String.[] = none
strip_text (String.◌∷◌ p ps) (String.◌∷◌ c cs) =
    let rest = strip_text ps cs in if eqb (code p) (code c) then rest else none

-- `unwrap_or_default()` on an optional text.
abbrev pub or_empty : Option String → String
or_empty none = ""
or_empty (some s) = s

-- `a.or_else(|| b)`
abbrev pub first_of {ℓ} : {A : Type ℓ} → Option A → Option A → Option A
first_of none b = b
first_of (some a) b = some a

abbrev pub is_empty_text : String → Bool
is_empty_text String.[] = true
is_empty_text (String.◌∷◌ c s) = false

-- `a == b`
abbrev pub is_text : String → String → Bool
is_text a b = a == b

-- The text of one after that of the other, as `format!` puts them.
infixr 65 ◌+++◌
unfoldable pub ◌+++◌ : String → String → String
String.[] +++ t = t
(String.◌∷◌ c s) +++ t = String.◌∷◌ c (s +++ t)

abbrev pub is_space : ℕ → Bool
is_space c = any (λ w. eqb w c) white_space

-- The text begins with these characters and then has only white space.
abbrev pub then_space : List ℕ → List ℕ → Bool
then_space [] cs = all is_space cs
then_space (x ∷ xs) [] = false
then_space (x ∷ xs) (c ∷ cs) = eqb x c && then_space xs cs

abbrev pub trims_to_codes : List ℕ → List ℕ → Bool
trims_to_codes t [] = then_space t []
trims_to_codes t (c ∷ cs) = if is_space c then trims_to_codes t cs else then_space t (c ∷ cs)

-- `s.trim() == t`, for a text `t` that neither begins nor ends with white space.
unfoldable pub trims_to : String → String → Bool
trims_to s t = trims_to_codes (codes t) (codes s)

abbrev trim_start : String → String
trim_start String.[] = String.[]
trim_start (String.◌∷◌ c s) =
    let rest = trim_start s in if is_space (code c) then rest else String.◌∷◌ c s

abbrev trim_end : String → String
trim_end String.[] = String.[]
trim_end (String.◌∷◌ c s) =
    let rest = trim_end s in
    if is_space (code c) && is_empty_text rest then String.[] else String.◌∷◌ c rest

-- `s.trim()`
unfoldable pub trim : String → String
trim s = trim_end (trim_start s)

abbrev first_line : List String → String × List String
first_line [] = (String.[], [])
first_line (l ∷ ls) = (l, ls)

-- The text cut at every newline; there is no piece behind the last newline.
unfoldable pub lines : String → List String
lines String.[] = []
lines (String.◌∷◌ c s) =
    let rest = lines s in
    let (first, others) = first_line rest in
    if eqb (code c) 10 then String.[] ∷ rest else String.◌∷◌ c first ∷ others
