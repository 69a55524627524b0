-- ===== src/Protocol/Chat/Usage/Trip.antt =====
-- src/protocol/chat.rs: the counts of a usage that is written and read back.
use nextapi.Base.{
  ℕ, ◌+◌, ◌-◌, ◌^◌, String, true, false, not, Option, none, some, ◌≡◌, refl, ap, ◌∙◌, arith,
  is_text, ltb, Bool-cases, inl, inr,
}
use nextapi.Base.Json.{Value, null, Fields, as_u64, get, get_field, index, put_all}
use nextapi.Base.Json.Laws.{get-put_field, get-put_all, after_puts, only, get-only, get-keep_fields}
use nextapi.Protocol.Ir.{ConvCtx, IrUsage}
use nextapi.Protocol.Chat.Parts.{is_none}
use nextapi.Protocol.Chat.Tools.{on_some}
use nextapi.Protocol.Chat.Usage.{
  or_zero, u64_value, cached_details, is_usage_extra, cached_of, parse_usage, without, drop_details,
  sat_add, usage_fields, put_reasoning, usage_to_json,
}

-- No removal finds what is not there.
pub get-without :
    (k j : String) (fs : Fields) → get_field k fs ≡ none → get_field k (without j fs) ≡ none
get-without k j fs h = get-keep_fields (λ i. not (is_text i j)) k fs ∙ ground (arith, h)

get-drop_details :
    (k : String) (fs : Fields) → get_field k fs ≡ none → get_field k (drop_details fs) ≡ none
unfolding drop_details
get-drop_details k fs h = elim (Bool-cases (is_none (get_field "output_tokens_details" fs))) [
  | inl e ↦ rw e (get-without k "input_tokens_details" fs h)
  | inr e ↦ rw e (get-without k "output_tokens_details" fs h)
]

get-put_reasoning :
    (k : String) (rt : Option Value) (out : Fields)
    → is_text "completion_tokens_details" k ≡ false
    → is_text k "completion_tokens_details" ≡ false
    → get_field k (put_reasoning rt out) ≡ get_field k out
unfolding put_reasoning
get-put_reasoning k none out h q = refl
get-put_reasoning k (some rt) out h q =
    get-put_field k "completion_tokens_details" _ (without "completion_tokens_details" out)
    ∙ rw h (get-keep_fields (λ i. not (is_text i "completion_tokens_details")) k out ∙ rw q refl)

-- The field of a written usage is what was put there, unless it is the details of the completion.
usage-field :
    (u : IrUsage) (ctx : ConvCtx) (k : String)
    → only is_usage_extra u.extra ≡ true
    → is_usage_extra k ≡ false
    → is_text "completion_tokens_details" k ≡ false
    → is_text k "completion_tokens_details" ≡ false
    → get k (usage_to_json u ctx).1 ≡ after_puts k (usage_fields u) none
unfolding usage_to_json get
usage-field u ctx k h q c d =
    let out = drop_details (without "reasoning_tokens" u.extra) in
    let none_there : get_field k out ≡ none =
      get-drop_details k (without "reasoning_tokens" u.extra)
        (get-without k "reasoning_tokens" u.extra (get-only is_usage_extra k u.extra h q)) in
    get-put_reasoning k (get_field "reasoning_tokens" u.extra) (put_all (usage_fields u) out) c d
    ∙ get-put_all k (usage_fields u) out
    ∙ ap (λ o. after_puts k (usage_fields u) o) none_there

abbrev pub u64_of : Option Value → Option ℕ
u64_of none = none
u64_of (some v) = as_u64 v

as_u64-or_null : (o : Option Value) → as_u64 (elim o [ none ↦ null | some w ↦ w ]) ≡ u64_of o
as_u64-or_null none = refl
as_u64-or_null (some v) = refl

pub as_u64-index : (v : Value) (k : String) → as_u64 (index v k) ≡ u64_of (get k v)
unfolding index
as_u64-index v k = as_u64-or_null (get k v)

cached-trip : (o : Option ℕ) → cached_of (on_some cached_details o) ≡ o
unfolding index get get_field
cached-trip none = refl
cached-trip (some c) = refl

pub total-trip : (o : Option ℕ) → u64_of (on_some u64_value o) ≡ o
total-trip none = refl
total-trip (some n) = refl

pub sat_add-minus : (a b : ℕ) → ltb (a + b) (2 ^ 64) ≡ true → sat_add a b - b ≡ a
sat_add-minus a b h = grind arith

-- The counts by which a request is billed.
pub record Counts : Type 0 where
  pub fresh : ℕ
  pub cached : Option ℕ
  pub completion : ℕ
  pub total : Option ℕ

unfoldable pub counts : IrUsage → Counts
counts u = record {
  fresh = u.prompt_tokens;
  cached = u.cache_read_tokens;
  completion = u.completion_tokens;
  total = u.total_tokens;
}

-- A usage that keeps only unknown fields aside and whose input tokens fit 64 bits is read back from its written
-- form with the same uncached, cached, completion and total tokens: the cached tokens are added to the prompt once
-- and taken off once.
pub counts-usage_to_json :
    (u : IrUsage) (ctx : ConvCtx)
    → only is_usage_extra u.extra ≡ true
    → ltb (u.prompt_tokens + or_zero u.cache_read_tokens) (2 ^ 64) ≡ true
    → counts (parse_usage (usage_to_json u ctx).1) ≡ counts u
unfolding counts parse_usage usage_fields index
counts-usage_to_json u ctx h b =
    rw
      (
        usage-field u ctx "prompt_tokens_details" h refl refl refl,
        cached-trip u.cache_read_tokens,
        as_u64-index (usage_to_json u ctx).1 "prompt_tokens",
        usage-field u ctx "prompt_tokens" h refl refl refl,
        sat_add-minus u.prompt_tokens (or_zero u.cache_read_tokens) b,
        as_u64-index (usage_to_json u ctx).1 "completion_tokens",
        usage-field u ctx "completion_tokens" h refl refl refl,
        as_u64-index (usage_to_json u ctx).1 "total_tokens",
        usage-field u ctx "total_tokens" h refl refl refl,
        total-trip u.total_tokens,
      )
      refl
