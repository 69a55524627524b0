-- ===== src/Gateway/Admission/Order.antt =====
-- Which state a rejected request has touched.
use nextapi.Base.{◌≡◌, refl, Bool, true, false, not, arith}
use nextapi.Entities.{ApiKeyRow}
use nextapi.Entities.Caps.{model_allowed}
use nextapi.Limit.{Windows}
use nextapi.Limit.Quota.{QuotaCache}
use nextapi.Gateway.Request.{Verdict, pass, reject}
use nextapi.Gateway.Admission.{
  Config, Shared, Input, Parsed, parse_request, check_limits, admit, after_parse, after_limits,
}

-- The rejection comes from the parsing or from the whitelist.
unfoldable pub refused_early : ApiKeyRow → Verdict Parsed → Bool
refused_early key (reject _ _) = true
refused_early key (pass p) = not (model_allowed key p.model)

early :
    (cfg : Config) (i : Input) (key : ApiKeyRow) (s : Shared) (v : Verdict Parsed)
    → refused_early key v ≡ true
    → (after_parse cfg i key s v).0 ≡ s
unfolding after_parse check_limits refused_early after_limits
early cfg i key s (reject status text) h = refl
early cfg i key s (pass p) h =
    let e : model_allowed key p.model ≡ false = ground arith in
    rw (e, after_parse, check_limits) refl

-- A request whose body, path or model is bad, or whose key may not use the model, touches nothing: it takes no place
-- in the rate limit's window, leaves the quota's verdicts, and asks no breaker.
pub early-untouched :
    (cfg : Config) (i : Input) (key : ApiKeyRow) (s : Shared)
    → refused_early key (parse_request cfg i) ≡ true
    → (admit cfg i key s).0 ≡ s
unfolding admit
early-untouched cfg i key s h = early cfg i key s (parse_request cfg i) h

abbrev pub rejects {ℓ} : {A : Type ℓ} → Verdict A → Bool
rejects (reject _ _) = true
rejects (pass _) = false

limited :
    (cfg : Config) (i : Input) (p : Parsed) (s : Shared)
    (r : Windows × QuotaCache × Verdict (Unit {0}))
    → rejects r.2 ≡ true
    → ((after_limits cfg i p s r).0.breaker ≡ s.breaker)
      × (rejects (after_limits cfg i p s r).1 ≡ true)
unfolding after_limits
limited cfg i p s (w, c, reject status text) h = (refl, refl)
limited cfg i p s (w, c, pass _) h = absurd (cc)

-- A request over its rate, its tokens or its quota is rejected and asks no breaker, so it starts no probe.
pub limited-untouched :
    (cfg : Config) (i : Input) (key : ApiKeyRow) (s : Shared) (p : Parsed)
    → parse_request cfg i ≡ pass p
    → rejects (check_limits cfg i key p s.windows s.quota_cache).2 ≡ true
    → ((admit cfg i key s).0.breaker ≡ s.breaker) × (rejects (admit cfg i key s).1 ≡ true)
unfolding admit after_parse
limited-untouched cfg i key s p e h =
    rw (e, admit) (limited cfg i p s (check_limits cfg i key p s.windows s.quota_cache) h)
