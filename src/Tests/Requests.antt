-- ===== src/Tests/Requests.antt =====
-- The theorems on a request's way through the gateway, at concrete routes and upstreams.
use nextapi.Base.{
  ℕ, ℤ, pos, eq_z, ◌+◌, ◌*◌, ◌≤◌, ◌<◌, ◌≡◌, ◌↔◌, refl, Bool, true, false, ◌&&◌, ◌||◌, not, String,
  Option, none, some, List, [], ◌∷◌, ◌++◌, any, count, arith, lookup, insert, ℕ_eq, String_eq,
  sort_by, insert_by, if◌then◌else◌, eqb,
}
use nextapi.Base.Json.{Value, obj, field, no_fields, str, null, get, get_field, index}
use nextapi.Entities.{Uuid, Time, second, UpstreamRow, ModelRouteRow, ApiKeyRow}
use nextapi.Entities.Caps.{RequiredCaps, model_allowed}
use nextapi.Limit.Quota.{answer}
use nextapi.Protocol.{
  Protocol, openai_chat, anthropic, gemini, protocol_list, protocol_priority, Protocol_eq,
}
use nextapi.Upstream.{UpstreamError, timeout, status, retryable, client_causal, auth_failure}
use nextapi.Gateway.Candidates.{
  Candidate, Attempt, Mode, passthrough, convert, decide_mode, order_candidates, has_route,
  reorder_pinned_first, contains,
}
use nextapi.Gateway.Candidates.Grouped.{order_candidates_complete}
use nextapi.Gateway.Failover.{
  Setup, one_call, over_websocket, json, failure, run, start, retry_limit,
}
use nextapi.Gateway.Failover.Bounds.{run-calls, allowance, is_asked}
use nextapi.Gateway.Failover.Settle.{run-settles, settles, due_end}
use nextapi.Gateway.Failover.Stop.{served_end}
use nextapi.Gateway.Request.{
  Verdict, pass, reject, extract_model, resolve_alias, required_caps, is_stream,
}
use nextapi.Gateway.Admission.{
  Config, Shared, Input, Parsed, parse_request, parse_body, check_limits, plan, admit, quota_step,
}
use nextapi.Gateway.Admission.Sound.{plan-fit, unfit}
use nextapi.Tests.{upstream, route, locked_route}

abbrev candidate : ℕ → Candidate
candidate n = record { route = route n; upstream = upstream n }

abbrev attempt : ℕ → Attempt
attempt n = record { candidate = candidate n; mode = passthrough }

one_each : (i : Uuid) → count (has_route i) (candidate 2 ∷ candidate 1 ∷ []) ≤ 1
one_each i = ground arith

order_candidates_complete_example :
    count (has_route 1) (order_candidates (λ p total. 0) (candidate 2 ∷ candidate 1 ∷ []))
    ≡ count (has_route 1) (candidate 2 ∷ candidate 1 ∷ [])
order_candidates_complete_example =
    order_candidates_complete (λ p total. 0) (candidate 2 ∷ candidate 1 ∷ []) one_each (has_route 1)

-- Every call times out, over the websocket and over HTTP.
abbrev dead : Setup
dead = record {
  build = λ n a. none;
  channel = λ n idx. over_websocket true;
  websocket = λ n idx. failure timeout;
  one = λ n idx. failure timeout;
  sticky_routing = true;
  idem_rec = some 9;
}

-- The first candidate's calls fail as busy, the second candidate answers.
abbrev busy_first : Setup
busy_first = record {
  build = λ n a. none;
  channel = λ n idx. one_call;
  websocket = λ n idx. failure timeout;
  one = λ n idx. if eqb n 0 then failure (status 429 "busy") else json null;
  sticky_routing = true;
  idem_rec = some 9;
}

run-calls_example : count is_asked (run dead (attempt 1 ∷ attempt 2 ∷ []) start).0 ≤ 12
unfolding allowance retry_limit
run-calls_example = run-calls dead 2 (attempt 1 ∷ attempt 2 ∷ []) start (λ n i. omega arith)

-- The bound is reached: every call over a websocket that fails is made again over HTTP.
run-calls_tight : count is_asked (run dead (attempt 1 ∷ attempt 2 ∷ []) start).0 ≡ 12
unfolding run retryable client_causal auth_failure retry_limit
run-calls_tight = refl

run-settles_example :
    count settles (run busy_first (attempt 1 ∷ attempt 2 ∷ []) start).0
    ≡ due_end (run busy_first (attempt 1 ∷ attempt 2 ∷ []) start).1
run-settles_example = run-settles busy_first 9 refl (attempt 1 ∷ attempt 2 ∷ []) start

dead_fails : served_end (run dead (attempt 1 ∷ attempt 2 ∷ []) start).1 ≡ false
unfolding run retryable client_causal retry_limit
dead_fails = refl

abbrev locked : Attempt
locked = record {
  candidate = record { route = locked_route; upstream = upstream 1 };
  mode = passthrough;
}

abbrev config : Config
config = record {
  routes = route 2 ∷ route 1 ∷ [];
  upstreams = (1, upstream 1) ∷ (2, upstream 2) ∷ [];
  aliases = [];
  default_rate_limit_rpm = 60;
  quota_check_cache_secs = 30;
  quota_exceed_action = "block";
  auto_disable_upstreams = true;
}

abbrev question : Value
question = obj (field "model" (str "gpt-4o") no_fields)

abbrev input : Input
input = record {
  entry = openai_chat;
  body = some question;
  action = none;
  pin = none;
  missing_cost = answer 0;
  usage = answer (some (pos 40));
  random = λ p total. 0;
  now = 2 * second;
}

abbrev no_body : Input
no_body = record input { body = none }

abbrev idle : Shared
idle = record {
  windows = [];
  quota_cache = [];
  breaker = record { states = []; halfopen_since = [] };
  cred_guard = [];
}

-- The key's window is full.
abbrev busy : Shared
busy = record idle { windows = (7, second ∷ []) ∷ [] }

abbrev parsed : Parsed
parsed = record { model = "gpt-4o"; stream = false; body = question }

planned : (plan config input parsed [] idle.breaker).1 ≡ pass (attempt 1 ∷ attempt 2 ∷ [])
unfolding plan nextapi.Routing.Select.match_routes sort_by nextapi.Routing.Select.serves
    nextapi.Routing.Pattern.pattern_matches nextapi.Routing.Select.route_le lookup
    nextapi.Entities.Caps.missing required_caps index nextapi.Upstream.blocking
    nextapi.Routing.Breaker.allow nextapi.Entities.Caps.auto_disable_allowed_in
    mathlib.Core.Option.bind nextapi.Gateway.Candidates.attempts_for order_candidates insert
    nextapi.Routing.Select.weighted_pick nextapi.Base.remove get get_field insert_by
    nextapi.Entities.Caps.capabilities nextapi.Gateway.Admission.collect
    nextapi.Gateway.Admission.consider nextapi.Gateway.Admission.from_attempts
    nextapi.Gateway.Admission.from_candidates nextapi.Gateway.Admission.from_routes
    nextapi.Gateway.Admission.is_skipped nextapi.Gateway.Admission.with_pin
    nextapi.Gateway.Candidates.arrange nextapi.Gateway.Candidates.arrange_all decide_mode
    nextapi.Gateway.Candidates.find nextapi.Gateway.Candidates.first_supported
    nextapi.Gateway.Candidates.grouped nextapi.Gateway.Candidates.heavier
    nextapi.Gateway.Candidates.push nextapi.Gateway.Request.is_image_part nextapi.Protocol.from_text
    protocol_list protocol_priority nextapi.Routing.Select.sum_weights nextapi.Routing.Select.walk
    nextapi.Routing.Select.weight_of
planned = refl

plan-fit_example :
    count
      (λ a. unfit "gpt-4o" (required_caps question false) (2 * second) [] a.candidate)
      (attempt 1 ∷ attempt 2 ∷ [])
    ≡ 0
plan-fit_example = plan-fit config input parsed [] idle.breaker (attempt 1 ∷ attempt 2 ∷ []) planned
