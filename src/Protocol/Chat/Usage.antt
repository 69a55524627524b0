-- ===== src/Protocol/Chat/Usage.antt =====
-- src/protocol/chat.rs: the usage of a response. `prompt_tokens` of the intermediate form are those not read from the cache.
pub mod Trip
use Prim.Native.Nat.{min}
use nextapi.Base.{
  ℕ, ◌+◌, ◌-◌, ◌^◌, String, Bool, true, false, ◌&&◌, not, Option, none, some, List, [], ◌∷◌, any,
  if◌then◌else◌, is_text, pos,
}
use nextapi.Base.Json.{
  Value, int, obj, Fields, no_fields, field, as_u64, get, get_field, index, put_field, put_some,
  put_all, keep_fields,
}
use nextapi.Protocol.Ir.{ConvCtx, degrade, IrUsage}
use nextapi.Protocol.Chat.Parts.{is_none}
use nextapi.Protocol.Chat.Tools.{on_some}

abbrev pub or_zero : Option ℕ → ℕ
or_zero none = 0
or_zero (some n) = n

abbrev pub is_usage_extra : String → Bool
is_usage_extra k = not (
    any (λ j. is_text k j)
      ("prompt_tokens" ∷ "completion_tokens" ∷ "total_tokens" ∷ "prompt_tokens_details"
        ∷ "completion_tokens_details" ∷ []))

abbrev pub cached_of : Option Value → Option ℕ
cached_of none = none
cached_of (some details) = as_u64 (index details "cached_tokens")

abbrev pub u64_value : ℕ → Value
u64_value n = int (pos n)

abbrev details_extra : Option Value → Fields
details_extra none = no_fields
details_extra (some details) = put_field "completion_tokens_details" details (
    put_some "reasoning_tokens" (on_some u64_value (as_u64 (index details "reasoning_tokens")))
      no_fields)

-- `entry(k).or_insert(v)` for every key that passes.
unfoldable pub add_absent : (String → Bool) → Fields → Fields → Fields
add_absent p no_fields e = e
add_absent p (field k v r) e =
    add_absent p r (if p k && is_none (get_field k e) then put_field k v e else e)

abbrev rest_of : Value → Fields → Fields
rest_of (obj o) e = add_absent is_usage_extra o e
rest_of _ e = e

unfoldable pub parse_usage : Value → IrUsage
unfolding add_absent
parse_usage u =
    let cached = cached_of (get "prompt_tokens_details" u) in
    record {
      prompt_tokens = or_zero (as_u64 (index u "prompt_tokens")) - or_zero cached;
      completion_tokens = or_zero (as_u64 (index u "completion_tokens"));
      cache_read_tokens = cached;
      cache_write_tokens = none;
      total_tokens = as_u64 (index u "total_tokens");
      extra = rest_of u (details_extra (get "completion_tokens_details" u));
    }

-- `map.remove(key)`
abbrev pub without : String → Fields → Fields
without k fs = keep_fields (λ j. not (is_text j k)) fs

-- The second removal is tried only if the first one found nothing.
unfoldable pub drop_details : Fields → Fields
drop_details fs =
    if is_none (get_field "output_tokens_details" fs)
    then without "input_tokens_details" fs
    else without "output_tokens_details" fs

abbrev had_details : Fields → Bool
had_details fs = not (
    is_none (get_field "output_tokens_details" fs) && is_none (get_field "input_tokens_details" fs))

-- `saturating_add` on 64 bits.
abbrev pub sat_add : ℕ → ℕ → ℕ
sat_add a b = min (a + b) (2 ^ 64 - 1)

abbrev fields_or_empty : Option Value → Fields
fields_or_empty none = no_fields
fields_or_empty (some (obj m)) = m
fields_or_empty (some _) = no_fields

abbrev pub cached_details : ℕ → Value
cached_details c = obj (field "cached_tokens" (u64_value c) no_fields)

unfoldable pub usage_fields : IrUsage → List (String × Option Value)
usage_fields u =
    ("prompt_tokens", some (u64_value (sat_add u.prompt_tokens (or_zero u.cache_read_tokens))))
    ∷ ("completion_tokens", some (u64_value u.completion_tokens))
    ∷ ("total_tokens", on_some u64_value u.total_tokens)
    ∷ ("prompt_tokens_details", on_some cached_details u.cache_read_tokens)
    ∷ []

-- The reasoning tokens go below the details of the completion.
unfoldable pub put_reasoning : Option Value → Fields → Fields
put_reasoning none out = out
put_reasoning (some rt) out =
    put_field "completion_tokens_details"
      (obj (
        put_field "reasoning_tokens" rt
          (fields_or_empty (get_field "completion_tokens_details" out))))
      (without "completion_tokens_details" out)

abbrev note_cache_write : Option ℕ → ConvCtx → ConvCtx
note_cache_write none ctx = ctx
note_cache_write (some n) ctx =
    degrade "usage.cache_write_tokens" "OpenAI Chat 无 cache_write_tokens" ctx

unfoldable pub usage_to_json : IrUsage → ConvCtx → ConvCtx × Value
unfolding drop_details usage_fields put_reasoning put_all
usage_to_json u ctx =
    let out = without "reasoning_tokens" u.extra in
    (
      note_cache_write u.cache_write_tokens (
          if had_details out
          then degrade "usage.details" "Responses 专属 usage details 已按 Chat 形状归一" ctx
          else ctx),
      obj (
          put_reasoning (get_field "reasoning_tokens" u.extra)
            (put_all (usage_fields u) (drop_details out))),
    )
