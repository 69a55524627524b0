-- ===== src/Upstream/Usage/Agree.antt =====
-- src/upstream/usage.rs and src/protocol/chat.rs: a usage is counted alike on the way that passes it through and on
-- the way that converts it.
use nextapi.Base.{
  ℕ, ℤ, pos, negsuc, ◌-◌, ◌^◌, not_below_zero, sat_sub_z, Bool, true, false, Option, none, some,
  ◌≡◌, refl, ap, ltb, arith,
}
use nextapi.Base.Json.{Value, null, bool, int, float, str, arr, obj, get}
use nextapi.Protocol.{openai_chat}
use nextapi.Protocol.Ir.{IrUsage}
use nextapi.Protocol.Chat.Usage.{or_zero, cached_of, parse_usage}
use nextapi.Protocol.Chat.Usage.Trip.{u64_of, as_u64-index}
use nextapi.Upstream.Usage.{
  Usage, token, token_of, at_key, or_none_z, uncached_prompt, extract_json_usage,
}

-- Absent, or a number of tokens of 63 bits.
unfoldable pub is_count : Option Value → Bool
is_count none = true
is_count (some (int (pos n))) = ltb n (2 ^ 63)
is_count (some _) = false

abbrev pub as_signed : Option ℕ → Option ℤ
as_signed none = none
as_signed (some n) = some (pos n)

-- What both ways read of a usage: the prompt that was not in the cache, the completion, what was in the cache.
pub record Billed : Type 0 where
  pub fresh : ℤ
  pub completion : ℤ
  pub cached : Option ℤ

abbrev pub billed_passed : Usage → Billed
billed_passed u = record {
  fresh = or_none_z u.prompt_tokens;
  completion = or_none_z u.completion_tokens;
  cached = u.cache_read_tokens;
}

abbrev pub billed_converted : IrUsage → Billed
billed_converted u = record {
  fresh = pos u.prompt_tokens;
  completion = pos u.completion_tokens;
  cached = as_signed u.cache_read_tokens;
}

token_of-count : (o : Option Value) → is_count o ≡ true → token_of o ≡ as_signed (u64_of o)
unfolding is_count token
token_of-count none h = refl
token_of-count (some (int (pos n))) h = rw h refl
token_of-count (some (int (negsuc n))) h = ground (arith, h)
token_of-count (some null) h = ground (arith, h)
token_of-count (some (bool b)) h = ground (arith, h)
token_of-count (some (float s)) h = ground (arith, h)
token_of-count (some (str s)) h = ground (arith, h)
token_of-count (some (arr xs)) h = ground (arith, h)
token_of-count (some (obj fs)) h = ground (arith, h)

or_none_z-as_signed : (o : Option ℕ) → or_none_z (as_signed o) ≡ pos (or_zero o)
or_none_z-as_signed none = refl
or_none_z-as_signed (some n) = refl

bounded_count : (o : Option Value) → is_count o ≡ true → ltb (or_zero (u64_of o)) (2 ^ 63) ≡ true
unfolding is_count
bounded_count none h = refl
bounded_count (some (int (pos n))) h = h
bounded_count (some (int (negsuc n))) h = ground (arith, h)
bounded_count (some null) h = ground (arith, h)
bounded_count (some (bool b)) h = ground (arith, h)
bounded_count (some (float s)) h = ground (arith, h)
bounded_count (some (str s)) h = ground (arith, h)
bounded_count (some (arr xs)) h = ground (arith, h)
bounded_count (some (obj fs)) h = ground (arith, h)

pos_minus :
    (p c : ℕ) → ltb p (2 ^ 63) ≡ true → not_below_zero (sat_sub_z (pos p) (pos c)) ≡ pos (p - c)
pos_minus p c h = ground arith

uncached-count :
    (p c : Option ℕ)
    → ltb (or_zero p) (2 ^ 63) ≡ true
    → or_none_z (uncached_prompt (as_signed p) (as_signed c)) ≡ pos (or_zero p - or_zero c)
unfolding uncached_prompt
uncached-count none c h = ap pos (omega arith)
uncached-count (some p) none h = pos_minus p 0 h
uncached-count (some p) (some c) h = pos_minus p c h

cached_of-get : (o : Option Value) → cached_of o ≡ u64_of (at_key "cached_tokens" o)
cached_of-get none = refl
cached_of-get (some d) = as_u64-index d "cached_tokens"

-- The tokens of a Chat response are counted alike on the way that passes it through and on the way that converts
-- it: the same uncached prompt, completion and cached tokens, if the counts in it are absent or below 2^63.
pub extract_json_usage-parse_usage :
    (v u : Value)
    → get "usage" v ≡ some u
    → is_count (get "prompt_tokens" u) ≡ true
    → is_count (get "completion_tokens" u) ≡ true
    → is_count (at_key "cached_tokens" (get "prompt_tokens_details" u)) ≡ true
    → billed_passed (extract_json_usage openai_chat v) ≡ billed_converted (parse_usage u)
unfolding extract_json_usage parse_usage
extract_json_usage-parse_usage v u e p c d =
    let cached = at_key "cached_tokens" (get "prompt_tokens_details" u) in
    rw
      (
        e,
        token_of-count (get "prompt_tokens" u) p,
        token_of-count (get "completion_tokens" u) c,
        token_of-count cached d,
        uncached-count (u64_of (get "prompt_tokens" u)) (u64_of cached)
            (bounded_count (get "prompt_tokens" u) p),
        or_none_z-as_signed (u64_of (get "completion_tokens" u)),
        as_u64-index u "prompt_tokens",
        as_u64-index u "completion_tokens",
        cached_of-get (get "prompt_tokens_details" u),
      )
      refl
