-- ===== src/Protocol/Anthropic/Usage/Trip.antt =====
-- src/protocol/anthropic.rs: the counts of a usage that is written and read back, also by way of Chat.
use nextapi.Base.{ℕ, String, true, false, Option, none, some, ◌≡◌, refl, ap, ◌∙◌, first_of}
use nextapi.Base.Json.{get}
use nextapi.Base.Json.Laws.{get-put_all, after_puts, only, get-only}
use nextapi.Protocol.Ir.{ConvCtx, IrUsage}
use nextapi.Protocol.Chat.Tools.{on_some}
use nextapi.Protocol.Chat.Usage.{u64_value}
use nextapi.Protocol.Chat.Usage.Trip.{u64_of, as_u64-index}
use nextapi.Protocol.Anthropic.Usage.{
  is_usage_extra, u64_at, parse_usage, usage_fields, usage_to_anthropic,
}

usage-field :
    (u : IrUsage) (ctx : ConvCtx) (k : String)
    → only is_usage_extra u.extra ≡ true
    → is_usage_extra k ≡ false
    → u64_at (usage_to_anthropic u ctx).1 k ≡ u64_of (after_puts k (usage_fields u) none)
unfolding usage_to_anthropic get
usage-field u ctx k h q =
    as_u64-index (usage_to_anthropic u ctx).1 k
    ∙ ap u64_of (
        get-put_all k (usage_fields u) u.extra
        ∙ ap (λ o. after_puts k (usage_fields u) o) (get-only is_usage_extra k u.extra h q))

opt-trip : (o : Option ℕ) → first_of (u64_of (on_some u64_value o)) none ≡ o
opt-trip none = refl
opt-trip (some n) = refl

-- The counts that an Anthropic client is told.
pub record Counts : Type 0 where
  pub fresh : ℕ
  pub completion : ℕ
  pub cache_read : Option ℕ
  pub cache_write : Option ℕ

unfoldable pub counts : IrUsage → Counts
counts u = record {
  fresh = u.prompt_tokens;
  completion = u.completion_tokens;
  cache_read = u.cache_read_tokens;
  cache_write = u.cache_write_tokens;
}

-- A usage that keeps only unknown fields aside is read back from its written form with the same uncached input,
-- output, cache-read and cache-write tokens.
pub counts-usage_to_anthropic :
    (u : IrUsage) (ctx : ConvCtx)
    → only is_usage_extra u.extra ≡ true
    → counts (parse_usage (usage_to_anthropic u ctx).1) ≡ counts u
unfolding counts parse_usage
counts-usage_to_anthropic u ctx h =
    rw
      (
        usage-field u ctx "input_tokens" h refl,
        usage-field u ctx "output_tokens" h refl,
        usage-field u ctx "cache_read_input_tokens" h refl,
        usage-field u ctx "cache_read_tokens" h refl,
        usage-field u ctx "cache_creation_input_tokens" h refl,
        usage-field u ctx "cache_creation_tokens" h refl,
        opt-trip u.cache_read_tokens,
        opt-trip u.cache_write_tokens,
      )
      refl
