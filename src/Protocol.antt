-- ===== src/Protocol.antt =====
-- src/protocol/ir.rs: `Protocol` and its names; src/entities.rs: the protocols of an upstream.
pub mod Ir
pub mod Chat
pub mod Anthropic
pub mod Gemini
pub mod Errors
pub mod Finish
use text.Mathlib.Text.{◌==◌ as is_text}
use nextapi.Base.{
  ◌≡◌, refl, String, Bool, true, false, ◌||◌, Option, none, some, List, [], ◌∷◌, if◌then◌else◌, Eq,
  arith, ◌↔◌,
}
use nextapi.Base.Json.{as_array, as_str, get}
use nextapi.Entities.{UpstreamRow}

pub data Protocol : Type 0 where
  openai_chat : Protocol
  openai_responses : Protocol
  anthropic : Protocol
  gemini : Protocol

unfoldable pub as_text : Protocol → String
as_text openai_chat = "openai_chat"
as_text openai_responses = "openai_responses"
as_text anthropic = "anthropic"
as_text gemini = "gemini"

-- `from_str`; `none` for an unknown name.
unfoldable pub from_text : String → Option Protocol
from_text s =
    if is_text s "openai_chat" || is_text s "openai"
    then some openai_chat
    else if is_text s "openai_responses" || is_text s "responses"
    then some openai_responses
    else if is_text s "anthropic"
    then some anthropic
    else if is_text s "gemini"
    then some gemini
    else none

abbrev pub same : Protocol → Protocol → Bool
same openai_chat openai_chat = true
same openai_responses openai_responses = true
same anthropic anthropic = true
same gemini gemini = true
same _ _ = false

pub same_iff : (p q : Protocol) → (same p q ≡ true) ↔ (p ≡ q)
same_iff p q = ground arith

instance abbrev pub Protocol_eq : Eq Protocol
Protocol_eq = record { test = same; test_iff = same_iff }

-- `filter_map`
abbrev pub filter_map {ℓ κ} : {A : Type ℓ} {B : Type κ} → (A → Option B) → List A → List B
filter_map f [] = []
filter_map f (x ∷ xs) = let rest = filter_map f xs in elim (f x) [ none ↦ rest | some y ↦ y ∷ rest ]

unfoldable pub protocol_list : UpstreamRow → List Protocol
protocol_list up = filter_map from_text up.protocols

abbrev pub custom_priority : UpstreamRow → List Protocol
custom_priority up = elim (get "protocol_priority" up.extra) [
  | none ↦ []
  | some v ↦ elim (as_array v) [ none ↦ [] | some xs ↦ filter_map from_text (filter_map as_str xs) ]
]

abbrev pub default_priority : List Protocol
default_priority = openai_chat ∷ anthropic ∷ gemini ∷ openai_responses ∷ []

-- An empty list of names gives the default.
unfoldable pub protocol_priority : UpstreamRow → List Protocol
protocol_priority up = elim (custom_priority up) [ [] ↦ default_priority | p ∷ ps ↦ p ∷ ps ]

-- A protocol is read back from its name.
pub from_text-as_text : (p : Protocol) → from_text (as_text p) ≡ some p
unfolding from_text as_text
from_text-as_text openai_chat = refl
from_text-as_text openai_responses = refl
from_text-as_text anthropic = refl
from_text-as_text gemini = refl
