-- ===== src/Tests.antt =====
-- Rows, routes and keys that the tests run on; each child applies the theorems of one part to them.
mod Routes
mod Limits
mod Sessions
mod Requests
mod Streams
mod Protocols
mod Messages
mod Contents
mod Bills
use nextapi.Base.{ℕ, pos, Bool, true, false, String, Option, none, some, List, [], ◌∷◌}
use nextapi.Base.Json.{Value, null, obj, no_fields}
use nextapi.Entities.{UpstreamRow, ModelRouteRow, ApiKeyRow}

abbrev pub upstream : ℕ → UpstreamRow
upstream n = record {
  id = n;
  name = "main";
  kind = "standard";
  protocols = "anthropic" ∷ "openai" ∷ [];
  enabled = true;
  breaker_threshold = pos 3;
  consecutive_failures = pos 0;
  disabled_by = none;
  cooldown_until = none;
  use_proxy = false;
  proxy_id = none;
  extra = obj no_fields;
}

abbrev pub route : ℕ → ModelRouteRow
route n = record {
  id = n;
  model_pattern = "gpt-*";
  upstream_id = n;
  override_model = none;
  priority = pos 1;
  weight = pos 2;
  enabled = true;
  retries = pos 2;
  retry_status_codes = pos 429 ∷ pos 503 ∷ [];
  lock_upstream = false;
  sort_order = pos n;
}

abbrev pub locked_route : ModelRouteRow
locked_route = record (route 1) { lock_upstream = true }

abbrev pub key : ApiKeyRow
key = record {
  id = 7;
  enabled = true;
  models = none;
  rpm = some (pos 1);
  tpm = none;
  quota_limit = some (pos 100);
  quota_unit = some "cost_usd";
  quota_window = some "day";
  expires_at = none;
  debug_enabled = false;
  debug_expires_at = none;
}
