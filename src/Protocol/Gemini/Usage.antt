-- ===== src/Protocol/Gemini/Usage.antt =====
-- src/protocol/gemini.rs: the usage of a response. Gemini counts the cached tokens in the prompt and the thoughts beside the candidates.
pub mod Trip
use nextapi.Base.{
  ℕ, ◌+◌, ◌-◌, String, Bool, not, Option, none, some, List, [], ◌∷◌, any, if◌then◌else◌, is_text,
  ltb,
}
use nextapi.Base.Json.{Value, obj, Fields, no_fields, as_u64, get_field, put_field, put_all}
use nextapi.Protocol.Ir.{ConvCtx, degrade, IrUsage}
use nextapi.Protocol.Chat.Tools.{on_some}
use nextapi.Protocol.Chat.Usage.{or_zero, u64_value, add_absent, sat_add, without}
use nextapi.Protocol.Anthropic.Usage.{u64_at}

abbrev pub is_usage_extra : String → Bool
is_usage_extra k = not (
    any (λ j. is_text k j)
      ("promptTokenCount" ∷ "candidatesTokenCount" ∷ "cachedContentTokenCount" ∷ "totalTokenCount"
        ∷ "thoughtsTokenCount" ∷ []))

unfoldable pub thoughts_extra : ℕ → Fields
thoughts_extra n =
    if ltb 0 n
    then put_field "reasoning_tokens" (u64_value n)
        (put_field "thoughtsTokenCount" (u64_value n) no_fields)
    else no_fields

abbrev usage_extra : Value → Fields → Fields
usage_extra (obj o) e = add_absent is_usage_extra o e
usage_extra _ e = e

unfoldable pub parse_usage_metadata : Value → IrUsage
unfolding thoughts_extra add_absent
parse_usage_metadata u =
    let thoughts = or_zero (u64_at u "thoughtsTokenCount") in
    let cached = u64_at u "cachedContentTokenCount" in
    record {
      prompt_tokens = or_zero (u64_at u "promptTokenCount") - or_zero cached;
      completion_tokens = sat_add (or_zero (u64_at u "candidatesTokenCount")) thoughts;
      cache_read_tokens = cached;
      cache_write_tokens = none;
      total_tokens = u64_at u "totalTokenCount";
      extra = usage_extra u (thoughts_extra thoughts);
    }

abbrev u64_of : Option Value → Option ℕ
u64_of none = none
u64_of (some v) = as_u64 v

abbrev pub reasoning_of : IrUsage → Option ℕ
reasoning_of u = u64_of (get_field "reasoning_tokens" u.extra)

abbrev pub usage_fields : IrUsage → List (String × Option Value)
usage_fields u =
    ("promptTokenCount", some (u64_value (sat_add u.prompt_tokens (or_zero u.cache_read_tokens))))
    ∷ ("candidatesTokenCount", some (u64_value (u.completion_tokens - or_zero (reasoning_of u))))
    ∷ ("thoughtsTokenCount", on_some u64_value (reasoning_of u))
    ∷ ("totalTokenCount", on_some u64_value u.total_tokens)
    ∷ ("cachedContentTokenCount", on_some u64_value u.cache_read_tokens)
    ∷ []

abbrev note_cache_write : Option ℕ → ConvCtx → ConvCtx
note_cache_write none ctx = ctx
note_cache_write (some n) ctx =
    degrade "usage.cache_write_tokens" "Gemini 无 cache_write_tokens 对应字段" ctx

unfoldable pub usage_metadata_to_json : IrUsage → ConvCtx → ConvCtx × Value
unfolding put_all
usage_metadata_to_json u ctx = (
  note_cache_write u.cache_write_tokens ctx,
  obj (put_all (usage_fields u) (without "reasoning_tokens" u.extra)),
)
