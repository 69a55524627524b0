-- ===== src/Entities.antt =====
-- src/entities.rs: the rows that the gateway decides by, with the fields that its decisions read.
-- A `Uuid` is a number, a `DateTime<Utc>` and an `Instant` are nanoseconds since a fixed start.
pub mod Caps
use nextapi.Base.{ℕ, ℤ, String, Bool, Option, List}
use nextapi.Base.Json.{Value}

abbrev pub Uuid : Type 0
Uuid = ℕ

abbrev pub Time : Type 0
Time = ℕ

abbrev pub second : ℕ
second = 1000000000

pub record UpstreamRow : Type 0 where
  pub id : Uuid
  pub name : String
  pub kind : String
  pub protocols : List String
  pub enabled : Bool
  pub breaker_threshold : ℤ
  pub consecutive_failures : ℤ
  pub disabled_by : Option String
  pub cooldown_until : Option Time
  pub use_proxy : Bool
  pub proxy_id : Option Uuid
  pub extra : Value

pub record ModelRouteRow : Type 0 where
  pub id : Uuid
  pub model_pattern : String
  pub upstream_id : Uuid
  pub override_model : Option String
  pub priority : ℤ
  pub weight : ℤ
  pub enabled : Bool
  pub retries : ℤ
  pub retry_status_codes : List ℤ
  pub lock_upstream : Bool
  pub sort_order : ℤ

pub record ApiKeyRow : Type 0 where
  pub id : Uuid
  pub enabled : Bool
  pub models : Option (List String)
  pub rpm : Option ℤ
  pub tpm : Option ℤ
  pub quota_limit : Option ℤ
  pub quota_unit : Option String
  pub quota_window : Option String
  pub expires_at : Option Time
  pub debug_enabled : Bool
  pub debug_expires_at : Option Time
