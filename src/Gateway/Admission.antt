-- ===== src/Gateway/Admission.antt =====
-- src/gateway.rs: the checks of `run_gateway` before any upstream is called, in their order. Authentication and the
-- parsing of the body and of a Gemini path are inputs; metrics, logs and response headers are left out. The step
-- after them, the idempotency key, is in Idempotency.
pub mod Order
pub mod Sound
use nextapi.Base.{
  ℕ, ℤ, String, Bool, true, false, ◌&&◌, ◌||◌, not, Option, none, some, List, [], ◌∷◌, ◌++◌,
  if◌then◌else◌, Table, lookup, ℕ_eq, String_eq, if◌then◌else◌,
}
use nextapi.Base.Json.{Value}
use nextapi.Entities.{Uuid, Time, UpstreamRow, ModelRouteRow, ApiKeyRow}
use nextapi.Entities.Caps.{
  RequiredCaps, capabilities, missing, model_allowed, auto_disable_allowed_in,
}
use nextapi.ApiError.{Result, ok, err, ApiError, rate_limited}
use nextapi.Limit.{Windows, check_rpm, tpm_precheck}
use nextapi.Limit.Quota.{Query, QuotaCache, get_verdict, put_verdict, check_quota}
use nextapi.Protocol.{Protocol, gemini}
use nextapi.Routing.Breaker.{Breaker, allow}
use nextapi.Routing.Select.{match_routes}
use nextapi.Upstream.{AuthGuard, blocking}
use nextapi.Gateway.Candidates.{
  Candidate, Attempt, order_candidates, attempts_for, reorder_pinned_first,
}
use nextapi.Gateway.Request.{
  Verdict, pass, reject, extract_model, extract_max_tokens, Alias, resolve_alias, required_caps,
  is_stream,
}

-- The snapshot and the settings that one request sees.
pub record Config : Type 0 where
  pub routes : List ModelRouteRow
  pub upstreams : Table Uuid UpstreamRow
  pub aliases : Table String Alias
  pub default_rate_limit_rpm : ℕ
  pub quota_check_cache_secs : ℕ
  pub quota_exceed_action : String
  pub auto_disable_upstreams : Bool

-- The state that requests share.
pub record Shared : Type 0 where
  pub windows : Windows
  pub quota_cache : QuotaCache
  pub breaker : Breaker
  pub cred_guard : AuthGuard

-- What comes from outside with one request: the body if it is JSON, the path's model and stream flag if the entry is
-- Gemini and the path is well formed, the pin if routing is sticky, the database's answers, and the draws.
pub record Input : Type 0 where
  pub entry : Protocol
  pub body : Option Value
  pub action : Option (String × Bool)
  pub pin : Option Uuid
  pub missing_cost : Query ℕ
  pub usage : Query (Option ℤ)
  pub random : ℤ → ℕ → ℕ
  pub now : Time

-- Model, stream flag and body.
pub record Parsed : Type 0 where
  pub model : String
  pub stream : Bool
  pub body : Value

abbrev bad_action : Verdict Parsed
bad_action = reject 400 "无效 Gemini action（应为 model:generateContent 或 model:streamGenerateContent）"

-- Steps 3: `path` is none where the entry is not Gemini.
unfoldable pub parse_body :
    Config → Protocol → Option (String × Bool) → Option Value → Verdict Parsed
parse_body cfg entry path none = reject 400 "请求体不是合法 JSON"
parse_body cfg entry path (some body) =
    elim (extract_model entry body (elim path [ none ↦ none | some (m, s) ↦ some m ])) [
      | reject status text ↦ reject status text
      | pass m ↦ pass (record {
        model = (resolve_alias cfg.aliases m).0;
        stream = is_stream body (elim path [ none ↦ none | some (m', s) ↦ some s ]);
        body = body;
      })
    ]

unfoldable pub parse_request : Config → Input → Verdict Parsed
unfolding parse_body
parse_request cfg i = elim i.entry [
  | gemini ↦ elim i.action [ none ↦ bad_action | some a ↦ parse_body cfg i.entry (some a) i.body ]
  | _ ↦ parse_body cfg i.entry none i.body
]

-- The quota: from the cache of verdicts, else from the database. Only a verdict is cached, an error is not.
unfoldable pub quota_step :
    Config → Input → ApiKeyRow → QuotaCache → QuotaCache × Verdict (Unit {0})
quota_step cfg i key cache = elim (get_verdict key.id cfg.quota_check_cache_secs i.now cache) [
  | some exceeded ↦ (cache, if exceeded then reject 429 "请求过于频繁，请稍后再试" else pass tt)
  | none ↦ elim (check_quota key cfg.quota_exceed_action i.missing_cost i.usage) [
    | ok _ ↦ (put_verdict key.id false i.now cache, pass tt)
    | err e ↦ elim e [
      | rate_limited ↦ (put_verdict key.id true i.now cache, reject 429 "请求过于频繁，请稍后再试")
      | _ ↦ (cache, reject 503 "配额检查失败，请稍后重试")
    ]
  ]
]

-- Steps 4 and 5, whitelist, rate, tokens and quota. The caller answers a `rate_limited` with 429.
unfoldable pub check_limits :
    Config
    → Input
    → ApiKeyRow
    → Parsed
    → Windows
    → QuotaCache
    → Windows × QuotaCache × Verdict (Unit {0})
unfolding quota_step
check_limits cfg i key p windows cache =
    if not (model_allowed key p.model)
    then (windows, cache, reject 403 "禁止访问")
    else (let (windows₁, rate) = check_rpm key cfg.default_rate_limit_rpm i.now windows in
        elim rate [
          | err _ ↦ (windows₁, cache, reject 429 "请求过于频繁，请稍后再试")
          | ok _ ↦ elim (tpm_precheck key (extract_max_tokens i.entry p.body)) [
            | err _ ↦ (windows₁, cache, reject 429 "请求过于频繁，请稍后再试")
            | ok _ ↦ let (cache₁, quota) = quota_step cfg i key cache in (windows₁, cache₁, quota)
          ]
        ])

-- `auto_disable_active`
abbrev pub auto_disable : Config → UpstreamRow → Bool
auto_disable cfg up = cfg.auto_disable_upstreams && auto_disable_allowed_in up.extra

abbrev has_missing : UpstreamRow → RequiredCaps → Bool
has_missing up caps = elim (missing (capabilities up) caps) [ [] ↦ false | _ ∷ _ ↦ true ]

-- The capabilities and the credential, which the breaker is not asked about.
unfoldable pub is_skipped : RequiredCaps → Time → AuthGuard → UpstreamRow → Bool
is_skipped caps now guard up =
    has_missing up caps || (elim (blocking up.id now guard) [ none ↦ false | some _ ↦ true ])

-- One route: the breaker after it, the candidate if it is one, and whether it counts as skipped with a reason.
unfoldable pub consider :
    Config
    → RequiredCaps
    → Time
    → AuthGuard
    → ModelRouteRow
    → Breaker
    → Breaker × List Candidate × Bool
unfolding is_skipped
consider cfg caps now guard route b = elim (lookup route.upstream_id cfg.upstreams) [
  | none ↦ (b, [], false)
  | some up ↦
      if is_skipped caps now guard up
      then (b, [], true)
      else if up.enabled
      then (let (b₁, allowed) = allow up (auto_disable cfg up) now b in
          (b₁, (if allowed then (record { route = route; upstream = up }) ∷ [] else []), false))
      else (b, [], false)
]

unfoldable pub collect :
    Config
    → RequiredCaps
    → Time
    → AuthGuard
    → List ModelRouteRow
    → Breaker
    → Breaker × List Candidate × Bool
unfolding consider
collect cfg caps now guard [] b = (b, [], false)
collect cfg caps now guard (r ∷ rs) b =
    let (b₁, found, skipped) = consider cfg caps now guard r b in
    let (b₂, others, skipped₁) = collect cfg caps now guard rs b₁ in
    (b₂, found ++ others, skipped || skipped₁)

-- The pin, if there is one, on attempts that are in order.
unfoldable pub with_pin : Option Uuid → List Attempt → List Attempt
with_pin none attempts = attempts
with_pin (some pin) attempts = reorder_pinned_first pin attempts

-- Without candidates, the text says whether an upstream was skipped; the list of the reasons is left out.
abbrev no_candidates : Bool → Verdict (List Attempt)
no_candidates true = reject 503 "无可用上游（跳过）"
no_candidates false = reject 503 "无可用上游"

unfoldable pub from_attempts : Input → List Attempt → Verdict (List Attempt)
unfolding with_pin
from_attempts i [] = reject 503 "无可用上游"
from_attempts i (a ∷ rest) = pass (with_pin i.pin (a ∷ rest))

unfoldable pub from_candidates : Input → Bool → List Candidate → Verdict (List Attempt)
unfolding from_attempts
from_candidates i skipped [] = no_candidates skipped
from_candidates i skipped (c ∷ cs) =
    from_attempts i (attempts_for i.entry (order_candidates i.random (c ∷ cs)))

unfoldable pub from_routes :
    Config
    → Input
    → Parsed
    → AuthGuard
    → Breaker
    → List ModelRouteRow
    → Breaker × Verdict (List Attempt)
unfolding collect from_candidates
from_routes cfg i p guard b [] = (b, reject 404 "模型未配置路由")
from_routes cfg i p guard b (r ∷ rs) =
    let (b₁, candidates, skipped) =
      collect cfg (required_caps p.body p.stream) i.now guard (r ∷ rs) b in
    (b₁, from_candidates i skipped candidates)

-- Step 6: from the routes of the model to the attempts.
unfoldable pub plan :
    Config → Input → Parsed → AuthGuard → Breaker → Breaker × Verdict (List Attempt)
unfolding from_routes
plan cfg i p guard b = from_routes cfg i p guard b (match_routes p.model cfg.routes)

-- After the limits.
unfoldable pub after_limits :
    Config
    → Input
    → Parsed
    → Shared
    → Windows × QuotaCache × Verdict (Unit {0})
    → Shared × Verdict (List Attempt)
unfolding plan
after_limits cfg i p s (windows, cache, reject status text) =
    (record s { windows = windows; quota_cache = cache }, reject status text)
after_limits cfg i p s (windows, cache, pass _) =
    let (breaker, planned) = plan cfg i p s.cred_guard s.breaker in
    (record s { windows = windows; quota_cache = cache; breaker = breaker }, planned)

unfoldable pub after_parse :
    Config → Input → ApiKeyRow → Shared → Verdict Parsed → Shared × Verdict (List Attempt)
unfolding check_limits after_limits
after_parse cfg i key s (reject status text) = (s, reject status text)
after_parse cfg i key s (pass p) =
    after_limits cfg i p s (check_limits cfg i key p s.windows s.quota_cache)

-- All checks, for a key that was authenticated.
unfoldable pub admit : Config → Input → ApiKeyRow → Shared → Shared × Verdict (List Attempt)
unfolding parse_request after_parse
admit cfg i key s = after_parse cfg i key s (parse_request cfg i)
