-- ===== src/Upstream/Usage.antt =====
-- src/upstream/usage.rs: the tokens of a response that is passed through, by which it is billed.
pub mod Agree
pub mod Stream
use nextapi.Base.{
  ℕ, ℤ, pos, negsuc, ◌-◌, ◌^◌, not_below_zero, sat_add_z, sat_sub_z, String, Bool, true, false,
  ◌||◌, ◌&&◌, not, Option, none, some, List, [], ◌∷◌, any, if◌then◌else◌, is_text, is_empty_text,
  strip_text, trim, lines, first_of, or_empty, length,
}
use nextapi.Base.Json.{
  Value, bool, int, float, str, obj, Fields, no_fields, field, array, as_i64, as_u64, as_str,
  as_bool, as_f64, as_array, get, get_field, put_some, put_all, Serde,
}
use nextapi.Protocol.{Protocol, openai_chat, openai_responses, anthropic, gemini}
use nextapi.Protocol.Chat.Parts.{is_none}
use nextapi.Protocol.Chat.Tools.{on_some}

pub record Usage : Type 0 where
  pub prompt_tokens : Option ℤ
  pub completion_tokens : Option ℤ
  pub cache_write_tokens : Option ℤ
  pub cache_read_tokens : Option ℤ
  pub raw : Option Value

abbrev pub no_usage : Usage
no_usage = record {
  prompt_tokens = none;
  completion_tokens = none;
  cache_write_tokens = none;
  cache_read_tokens = none;
  raw = none;
}

-- `u as i64` for a number that is no `i64`.
abbrev wrapped : Option ℕ → Option ℤ
wrapped none = none
wrapped (some n) = some (negsuc (2 ^ 64 - n - 1))

unfoldable pub token : Value → Option ℤ
token v = first_of (as_i64 v) (wrapped (as_u64 v))

abbrev or_none_z : Option ℤ → ℤ
or_none_z none = pos 0
or_none_z (some z) = z

unfoldable pub uncached_prompt : Option ℤ → Option ℤ → Option ℤ
uncached_prompt none cached = none
uncached_prompt (some p) cached =
    some (not_below_zero (sat_sub_z p (not_below_zero (or_none_z cached))))

unfoldable pub total_tokens : Usage → ℤ
total_tokens u =
    sat_add_z
      (sat_add_z
        (sat_add_z (not_below_zero (or_none_z u.prompt_tokens))
          (not_below_zero (or_none_z u.completion_tokens)))
        (not_below_zero (or_none_z u.cache_read_tokens)))
      (not_below_zero (or_none_z u.cache_write_tokens))

-- `value.and_then(|v| v.get(key))` and `value.and_then(token)`.
abbrev pub at_key : String → Option Value → Option Value
at_key k none = none
at_key k (some v) = get k v

abbrev pub token_of : Option Value → Option ℤ
token_of none = none
token_of (some v) = token v

abbrev both_counts : Option ℤ → Option ℤ → Option ℤ
both_counts none none = none
both_counts (some c) none = some (sat_add_z c (pos 0))
both_counts none (some t) = some (sat_add_z (pos 0) t)
both_counts (some c) (some t) = some (sat_add_z c t)

-- A usage whose prompt includes what was read from the cache.
abbrev pub inclusive : (prompt completion cached : Option ℤ) → Option Value → Usage
inclusive prompt completion cached raw = record {
  prompt_tokens = uncached_prompt prompt cached;
  completion_tokens = completion;
  cache_write_tokens = none;
  cache_read_tokens = cached;
  raw = raw;
}

unfoldable pub extract_json_usage : Protocol → Value → Usage
unfolding token uncached_prompt
extract_json_usage openai_chat v =
    let usage = get "usage" v in
    inclusive (token_of (at_key "prompt_tokens" usage))
      (token_of (at_key "completion_tokens" usage))
      (token_of (at_key "cached_tokens" (at_key "prompt_tokens_details" usage))) usage
extract_json_usage openai_responses v =
    let usage = get "usage" v in
    inclusive (token_of (at_key "input_tokens" usage)) (token_of (at_key "output_tokens" usage))
      (token_of (at_key "cached_tokens" (at_key "input_tokens_details" usage))) usage
extract_json_usage anthropic v =
    let usage = get "usage" v in
    record {
      prompt_tokens = token_of (at_key "input_tokens" usage);
      completion_tokens = token_of (at_key "output_tokens" usage);
      cache_write_tokens = token_of (at_key "cache_creation_input_tokens" usage);
      cache_read_tokens = token_of (at_key "cache_read_input_tokens" usage);
      raw = usage;
    }
extract_json_usage gemini v =
    let usage = get "usageMetadata" v in
    inclusive (token_of (at_key "promptTokenCount" usage))
      (both_counts (token_of (at_key "candidatesTokenCount" usage))
        (token_of (at_key "thoughtsTokenCount" usage)))
      (token_of (at_key "cachedContentTokenCount" usage)) usage

abbrev read_data : Serde → String → Option Value
read_data serde data_ =
    if is_text data_ "[DONE]" || is_empty_text data_ then none else serde.read data_

unfoldable pub parse_sse_data : Serde → String → Option Value
parse_sse_data serde line = elim (strip_text "data:" (trim line)) [
  | none ↦ none
  | some rest ↦ read_data serde (trim rest)
]

-- The variables of the loop over the lines: `last`, and what Anthropic sends in several events.
pub record Seen : Type 0 where
  pub last : Usage
  pub a_input : Option ℤ
  pub a_output : Option ℤ
  pub a_cache_write : Option ℤ
  pub a_cache_read : Option ℤ

abbrev pub nothing_seen : Seen
nothing_seen = record {
  last = no_usage;
  a_input = none;
  a_output = none;
  a_cache_write = none;
  a_cache_read = none;
}

abbrev has_kind : String → Value → Bool
has_kind kind v = is_text (or_empty (elim (get "type" v) [ none ↦ none | some t ↦ as_str t ])) kind

abbrev at_start : Option Value → Seen → Seen
at_start none s = s
at_start (some usage) s = record s {
  a_input = token_of (get "input_tokens" usage);
  a_cache_write = token_of (get "cache_creation_input_tokens" usage);
  a_cache_read = token_of (get "cache_read_input_tokens" usage);
}

abbrev at_delta : Option ℤ → Seen → Seen
at_delta none s = s
at_delta (some t) s = record s { a_output = some t }

abbrev pub has_tokens : Usage → Bool
has_tokens u =
    not (is_none u.prompt_tokens)
    || not (is_none u.completion_tokens)
    || not (is_none u.cache_read_tokens)

abbrev keep_last : Bool → Usage → Seen → Seen
keep_last b u s = if b then record s { last = u } else s

abbrev in_response : Option Value → Seen → Seen
in_response none s = s
in_response (some r) s = record s { last = extract_json_usage openai_responses r }

-- One event of the stream.
unfoldable pub see : Protocol → Value → Seen → Seen
unfolding extract_json_usage
see anthropic v s =
    if has_kind "message_start" v
    then at_start (at_key "usage" (get "message" v)) s
    else if has_kind "message_delta" v
    then at_delta (token_of (at_key "output_tokens" (get "usage" v))) s
    else s
see gemini v s = keep_last (not (is_none (get "usageMetadata" v))) (extract_json_usage gemini v) s
see openai_responses v s =
    if has_kind "response.completed" v then in_response (get "response" v) s else s
see openai_chat v s =
    let u = extract_json_usage openai_chat v in
    keep_last (not (is_none (get "usage" v)) && has_tokens u) u s

abbrev pub see_line : Protocol → Option Value → Seen → Seen
see_line p none s = s
see_line p (some v) s = see p v s

unfoldable pub see_all : Serde → Protocol → List String → Seen → Seen
unfolding see parse_sse_data
see_all serde p [] s = s
see_all serde p (l ∷ ls) s = see_all serde p ls (see_line p (parse_sse_data serde l) s)

abbrev unless_empty : Fields → Option Value
unless_empty no_fields = none
unless_empty (field k v r) = some (obj (field k v r))

abbrev pub seen_usage : Protocol → Seen → Usage
seen_usage anthropic s = record {
  prompt_tokens = s.a_input;
  completion_tokens = s.a_output;
  cache_write_tokens = s.a_cache_write;
  cache_read_tokens = s.a_cache_read;
  raw = unless_empty (
      put_all
        (("input_tokens", on_some int s.a_input)
          ∷ ("output_tokens", on_some int s.a_output)
          ∷ ("cache_creation_input_tokens", on_some int s.a_cache_write)
          ∷ ("cache_read_input_tokens", on_some int s.a_cache_read)
          ∷ [])
        no_fields);
}
seen_usage openai_chat s = s.last
seen_usage openai_responses s = s.last
seen_usage gemini s = s.last

unfoldable pub extract_sse_usage : Serde → Protocol → String → Usage
unfolding see_all put_all
extract_sse_usage serde p text = seen_usage p (see_all serde p (lines text) nothing_seen)
