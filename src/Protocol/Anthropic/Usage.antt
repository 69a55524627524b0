-- ===== src/Protocol/Anthropic/Usage.antt =====
-- src/protocol/anthropic.rs: the usage of a response. The input tokens of both forms are those not read from the cache.
pub mod Trip
use nextapi.Base.{ℕ, String, Bool, not, Option, none, some, List, [], ◌∷◌, any, first_of, is_text}
use nextapi.Base.Json.{Value, obj, Fields, no_fields, as_u64, index, put_all}
use nextapi.Protocol.Ir.{ConvCtx, degrade, IrUsage}
use nextapi.Protocol.Chat.Tools.{on_some}
use nextapi.Protocol.Chat.Usage.{or_zero, u64_value, add_absent}

abbrev pub is_usage_extra : String → Bool
is_usage_extra k = not (
    any (λ j. is_text k j)
      ("input_tokens" ∷ "output_tokens" ∷ "prompt_tokens" ∷ "completion_tokens" ∷ "total_tokens"
        ∷ "cache_read_input_tokens" ∷ "cache_read_tokens" ∷ "cache_creation_input_tokens"
        ∷ "cache_creation_tokens" ∷ []))

abbrev pub u64_at : Value → String → Option ℕ
u64_at v k = as_u64 (index v k)

abbrev usage_extra : Value → Fields
usage_extra (obj o) = add_absent is_usage_extra o no_fields
usage_extra _ = no_fields

-- The count under the first key, or the one under the second.
abbrev pub either_at : Value → (first second : String) → Option ℕ
either_at u first second = first_of (u64_at u first) (u64_at u second)

unfoldable pub parse_usage : Value → IrUsage
unfolding add_absent
parse_usage u = record {
  prompt_tokens = or_zero (either_at u "input_tokens" "prompt_tokens");
  completion_tokens = or_zero (either_at u "output_tokens" "completion_tokens");
  cache_read_tokens = either_at u "cache_read_input_tokens" "cache_read_tokens";
  cache_write_tokens = either_at u "cache_creation_input_tokens" "cache_creation_tokens";
  total_tokens = u64_at u "total_tokens";
  extra = usage_extra u;
}

abbrev pub usage_fields : IrUsage → List (String × Option Value)
usage_fields u =
    ("input_tokens", some (u64_value u.prompt_tokens))
    ∷ ("output_tokens", some (u64_value u.completion_tokens))
    ∷ ("cache_read_input_tokens", on_some u64_value u.cache_read_tokens)
    ∷ ("cache_creation_input_tokens", on_some u64_value u.cache_write_tokens)
    ∷ []

abbrev note_total : Option ℕ → ConvCtx → ConvCtx
note_total none ctx = ctx
note_total (some n) ctx = degrade "usage.total_tokens" "Anthropic 无 total_tokens" ctx

unfoldable pub usage_to_anthropic : IrUsage → ConvCtx → ConvCtx × Value
unfolding put_all
usage_to_anthropic u ctx = (note_total u.total_tokens ctx, obj (put_all (usage_fields u) u.extra))
