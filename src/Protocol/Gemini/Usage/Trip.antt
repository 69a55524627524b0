-- ===== src/Protocol/Gemini/Usage/Trip.antt =====
-- src/protocol/gemini.rs: the counts of a usage that is written and read back.
use nextapi.Base.{
  ℕ, ◌+◌, ◌-◌, ◌^◌, ◌≤◌, String, Bool, true, false, ◌&&◌, ◌||◌, not, Option, none, some, ◌≡◌, refl,
  sym, ap, ◌∙◌, arith, ltb, is_text,
}
use nextapi.Base.Json.{Value, Fields, get, get_field}
use nextapi.Base.Json.Laws.{get-put_all, after_puts, or_else, only, get-keep_fields, get-only}
use nextapi.Protocol.Ir.{ConvCtx, IrUsage}
use nextapi.Protocol.Chat.Parts.{is_none}
use nextapi.Protocol.Chat.Tools.{on_some}
use nextapi.Protocol.Chat.Usage.{or_zero, u64_value, without, sat_add}
use nextapi.Protocol.Chat.Usage.Trip.{
  u64_of, as_u64-index, counts, sat_add-minus, get-without, total-trip,
}
use nextapi.Protocol.Anthropic.Usage.{u64_at}
use nextapi.Protocol.Gemini.Usage.{
  is_usage_extra, parse_usage_metadata, reasoning_of, usage_fields, usage_metadata_to_json,
}

-- What is kept aside: unknown fields, and the count of thoughts only beside the reasoning tokens that stand for it.
unfoldable pub is_carried : IrUsage → Bool
unfolding only
is_carried u =
    only is_usage_extra (without "thoughtsTokenCount" u.extra)
    && (not (is_none (reasoning_of u)) || is_none (get_field "thoughtsTokenCount" u.extra))

get-extra :
    (k : String) (fs : Fields)
    → only is_usage_extra (without "thoughtsTokenCount" fs) ≡ true
    → is_usage_extra k ≡ false
    → is_text k "thoughtsTokenCount" ≡ false
    → get_field k fs ≡ none
get-extra k fs h q t =
    sym (get-keep_fields (λ i. not (is_text i "thoughtsTokenCount")) k fs ∙ rw t refl)
    ∙ get-only is_usage_extra k (without "thoughtsTokenCount" fs) h q

usage-put :
    (u : IrUsage) (ctx : ConvCtx) (k : String) (d : Option Value)
    → get_field k (without "reasoning_tokens" u.extra) ≡ d
    → u64_at (usage_metadata_to_json u ctx).1 k ≡ u64_of (after_puts k (usage_fields u) d)
unfolding usage_metadata_to_json get
usage-put u ctx k d e =
    as_u64-index (usage_metadata_to_json u ctx).1 k
    ∙ ap u64_of (
        get-put_all k (usage_fields u) (without "reasoning_tokens" u.extra)
        ∙ ap (λ o. after_puts k (usage_fields u) o) e)

usage-field :
    (u : IrUsage) (ctx : ConvCtx) (k : String)
    → is_carried u ≡ true
    → is_usage_extra k ≡ false
    → is_text k "thoughtsTokenCount" ≡ false
    → u64_at (usage_metadata_to_json u ctx).1 k ≡ u64_of (after_puts k (usage_fields u) none)
unfolding is_carried
usage-field u ctx k h q t =
    usage-put u ctx k none
      (get-without k "reasoning_tokens" u.extra (get-extra k u.extra (ground (arith, h)) q t))

thoughts-put :
    (o : Option ℕ) (d : Option Value)
    → (not (is_none o) || is_none d) ≡ true
    → u64_of (or_else (on_some u64_value o) d) ≡ o
thoughts-put none none h = refl
thoughts-put none (some v) h = absurd (ground (arith, h))
thoughts-put (some n) none h = refl
thoughts-put (some n) (some v) h = refl

thoughts-back :
    (u : IrUsage) (ctx : ConvCtx)
    → is_carried u ≡ true
    → u64_at (usage_metadata_to_json u ctx).1 "thoughtsTokenCount" ≡ reasoning_of u
unfolding is_carried
thoughts-back u ctx h =
    usage-put u ctx "thoughtsTokenCount" (get_field "thoughtsTokenCount" u.extra)
      (get-keep_fields (λ i. not (is_text i "reasoning_tokens")) "thoughtsTokenCount" u.extra)
    ∙ thoughts-put (reasoning_of u) (get_field "thoughtsTokenCount" u.extra) (ground (arith, h))

candidates-back :
    (completion thoughts : ℕ)
    → ltb completion (2 ^ 64) ≡ true
    → thoughts ≤ completion
    → sat_add (completion - thoughts) thoughts ≡ completion
candidates-back c t h l = grind arith

-- A usage that keeps only unknown fields aside, and the count of thoughts only beside the reasoning tokens, whose input and completion tokens fit 64 bits and whose reasoning
-- tokens are no more than those of the completion is read back from its Gemini form with the same uncached, cached,
-- completion and total tokens: the cached tokens are added to the prompt once and taken off once, the thoughts are
-- taken off the candidates once and added once.
pub counts-usage_metadata_to_json :
    (u : IrUsage) (ctx : ConvCtx)
    → is_carried u ≡ true
    → ltb (u.prompt_tokens + or_zero u.cache_read_tokens) (2 ^ 64) ≡ true
    → ltb u.completion_tokens (2 ^ 64) ≡ true
    → or_zero (reasoning_of u) ≤ u.completion_tokens
    → counts (parse_usage_metadata (usage_metadata_to_json u ctx).1) ≡ counts u
unfolding counts parse_usage_metadata
counts-usage_metadata_to_json u ctx h b c r =
    rw
      (
        usage-field u ctx "cachedContentTokenCount" h refl refl,
        total-trip u.cache_read_tokens,
        usage-field u ctx "promptTokenCount" h refl refl,
        sat_add-minus u.prompt_tokens (or_zero u.cache_read_tokens) b,
        usage-field u ctx "candidatesTokenCount" h refl refl,
        thoughts-back u ctx h,
        candidates-back u.completion_tokens (or_zero (reasoning_of u)) c r,
        usage-field u ctx "totalTokenCount" h refl refl,
        total-trip u.total_tokens,
      )
      refl
