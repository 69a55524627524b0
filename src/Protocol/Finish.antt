-- ===== src/Protocol/Finish.antt =====
-- src/protocol/ir.rs: the finish reason in the words of OpenAI.
pub mod Laws
use Prim.Native.Char.{Char, code}
use nextapi.Base.{ℕ, String, Bool, true, false, List, [], ◌∷◌, any, eqb, if◌then◌else◌, is_text}

-- The ASCII letters.
abbrev pub letters : List (Char × Char)
letters =
    ("A", "a")
    ∷ ("B", "b")
    ∷ ("C", "c")
    ∷ ("D", "d")
    ∷ ("E", "e")
    ∷ ("F", "f")
    ∷ ("G", "g")
    ∷ ("H", "h")
    ∷ ("I", "i")
    ∷ ("J", "j")
    ∷ ("K", "k")
    ∷ ("L", "l")
    ∷ ("M", "m")
    ∷ ("N", "n")
    ∷ ("O", "o")
    ∷ ("P", "p")
    ∷ ("Q", "q")
    ∷ ("R", "r")
    ∷ ("S", "s")
    ∷ ("T", "t")
    ∷ ("U", "u")
    ∷ ("V", "v")
    ∷ ("W", "w")
    ∷ ("X", "x")
    ∷ ("Y", "y")
    ∷ ("Z", "z")
    ∷ []

unfoldable pub lower_by : List (Char × Char) → Char → Char
lower_by [] c = c
lower_by ((u, l) ∷ r) c = let rest = lower_by r c in if eqb (code u) (code c) then l else rest

-- `to_ascii_lowercase`
unfoldable pub to_lower : String → String
unfolding lower_by
to_lower String.[] = String.[]
to_lower (String.◌∷◌ c s) = String.◌∷◌ (lower_by letters c) (to_lower s)

abbrev pub among : String → List String → Bool
among t l = any (λ s. is_text t s) l

abbrev pub in_openai_words : String → String
in_openai_words t =
    if among t ("stop" ∷ "end_turn" ∷ "stop_sequence" ∷ "completed" ∷ "finished" ∷ [])
    then "stop"
    else if among t ("length" ∷ "max_tokens" ∷ "max_output_tokens" ∷ "incomplete" ∷ [])
    then "length"
    else if among t ("tool_calls" ∷ "tool_use" ∷ "function_call" ∷ [])
    then "tool_calls"
    else if among t ("content_filter" ∷ "safety" ∷ "blocked" ∷ "recitation" ∷ [])
    then "content_filter"
    else t

unfoldable pub normalize_finish_reason : String → String
unfolding to_lower
normalize_finish_reason raw = in_openai_words (to_lower raw)
