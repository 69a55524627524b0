-- ===== src/Gateway/Request.antt =====
-- src/gateway.rs: what the gateway reads from a request: model, alias, stream, tokens, capabilities.
use text.Mathlib.Text.{◌==◌ as is_text}
use nextapi.Base.{
  ℕ, String, Bool, true, false, ◌&&◌, ◌||◌, not, Option, none, some, List, [], ◌∷◌, any,
  if◌then◌else◌, Table, lookup, String_eq, is_blank,
}
use nextapi.Base.Json.{Value, as_bool, as_str, as_u64, as_array, get, index}
use nextapi.Entities.Caps.{RequiredCaps}
use nextapi.Protocol.{Protocol, openai_chat, openai_responses, anthropic, gemini}

-- A check that lets a value through, or ends the request with a status and a text.
pub data Verdict {ℓ} (A : Type ℓ) : Type ℓ where
  pass : A → Verdict A
  reject : (status : ℕ) → (text : String) → Verdict A

abbrev non_empty : String → Option String → Verdict String
non_empty text none = reject 400 text
non_empty text (some m) = if is_text m "" then reject 400 text else pass m

-- The model of a Gemini request is in its path. The text is the error's detail.
unfoldable pub extract_model : Protocol → Value → Option String → Verdict String
extract_model gemini body path_model = non_empty "Gemini 模型缺失" path_model
extract_model openai_chat body path_model = non_empty "model 缺失" (as_str (index body "model"))
extract_model openai_responses body path_model = non_empty "model 缺失" (as_str (index body "model"))
extract_model anthropic body path_model = non_empty "model 缺失" (as_str (index body "model"))

abbrev u64_of : Option Value → Option ℕ
u64_of none = none
u64_of (some v) = as_u64 v

abbrev or_get : Option Value → Option Value → Option Value
or_get none o = o
or_get (some v) o = some v

unfoldable pub extract_max_tokens : Protocol → Value → Option ℕ
extract_max_tokens openai_chat body =
    u64_of (or_get (get "max_tokens" body) (get "max_completion_tokens" body))
extract_max_tokens openai_responses body = u64_of (get "max_output_tokens" body)
extract_max_tokens anthropic body = u64_of (get "max_tokens" body)
extract_max_tokens gemini body = elim (get "generationConfig" body) [
  | none ↦ none
  | some g ↦ u64_of (get "maxOutputTokens" g)
]

pub record Alias : Type 0 where
  pub model : String
  pub enabled : Bool

-- The model in force, and the one that was asked for if they differ by an alias.
unfoldable pub resolve_alias : Table String Alias → String → String × Option String
resolve_alias aliases model = elim (lookup model aliases) [
  | none ↦ (model, none)
  | some a ↦ if a.enabled && not (is_blank a.model) then (a.model, some model) else (model, none)
]

abbrev some_items : Option (List Value) → Bool
some_items none = false
some_items (some []) = false
some_items (some (v ∷ vs)) = true

abbrev is_some {ℓ} : {A : Type ℓ} → Option A → Bool
is_some none = false
is_some (some _) = true

unfoldable pub is_image_part : Value → Bool
is_image_part p =
    (elim (as_str (index p "type")) [
      | none ↦ false
      | some t ↦ is_text t "image_url" || is_text t "input_image" || is_text t "image"
    ])
    || is_some (get "inline_data" p)
    || is_some (get "file_data" p)

abbrev any_item : (Value → Bool) → Option (List Value) → Bool
any_item p none = false
any_item p (some vs) = any p vs

unfoldable pub required_caps : Value → Bool → RequiredCaps
unfolding is_image_part
required_caps body stream = record {
  stream = stream;
  tools =
      some_items (as_array (index body "tools")) || some_items (as_array (index body "functions"));
  vision =
      any
        (λ key.
          any_item
            (λ it.
              any (λ sub. any_item is_image_part (as_array (index it sub)))
                ("content" ∷ "parts" ∷ []))
            (as_array (index body key)))
        ("messages" ∷ "input" ∷ "contents" ∷ []);
}

unfoldable pub is_stream : Value → Option Bool → Bool
is_stream body (some s) = s
is_stream body none = elim (as_bool (index body "stream")) [ none ↦ false | some b ↦ b ]
