-- ===== src/Upstream.antt =====
-- src/upstream/mod.rs: `UpstreamError`; src/upstream/cred.rs: failed credentials and their guard.
pub mod Guard
pub mod Usage
use Prim.Native.Char.{code}
use nextapi.Base.{
  ℕ, ℤ, pos, eq_z, ◌+◌, ◌-◌, ◌*◌, ◌/◌, String, Bool, true, false, ◌&&◌, ◌||◌, not, Option, none,
  some, List, [], ◌∷◌, map, any, codes, ltb, leb, eqb, if◌then◌else◌, ◌==◌, ℕ_eq, Table, lookup,
  insert, remove, take, String_eq,
}
use nextapi.Entities.{Uuid, Time, second}

pub data UpstreamError : Type 0 where
  timeout : UpstreamError
  connect : String → UpstreamError
  status : ℕ → String → UpstreamError
  auth_failed : ℕ → String → UpstreamError
  body_read : String → UpstreamError

-- `codes.contains(&(s as i32))`
abbrev has_code : ℕ → List ℤ → Bool
has_code s = any (λ z. eq_z z (pos s))

unfoldable pub retryable : List ℤ → UpstreamError → Bool
retryable codes timeout = true
retryable codes (connect _) = true
retryable codes (status s _) = has_code s codes
retryable codes (auth_failed _ _) = false
retryable codes (body_read _) = false

unfoldable pub client_causal : UpstreamError → Bool
client_causal (status s _) = eqb s 400 || eqb s 404 || eqb s 405 || eqb s 413 || eqb s 422
client_causal _ = false

abbrev auth_codes : List String
auth_codes =
    "unauthenticated" ∷ "invalid_token" ∷ "invalid token" ∷ "invalid api key" ∷ "invalid_api_key"
    ∷ "invalid api-key" ∷ "incorrect api key" ∷ "token expired" ∷ "token has expired"
    ∷ "access token expired" ∷ "expired token" ∷ "authentication_error" ∷ "invalid credentials" ∷ []

abbrev to_ascii_lowercase : List ℕ → List ℕ
to_ascii_lowercase = map (λ c. if leb 65 c && leb c 90 then c + 32 else c)

abbrev starts_with : List ℕ → List ℕ → Bool
starts_with [] text = true
starts_with (p ∷ ps) [] = false
starts_with (p ∷ ps) (c ∷ text) = eqb p c && starts_with ps text

abbrev contains : List ℕ → List ℕ → Bool
contains needle [] = starts_with needle []
contains needle (c ∷ text) = starts_with needle (c ∷ text) || contains needle text

abbrev first_code : List String → List ℕ → Option String
first_code [] low = none
first_code (c ∷ cs) low =
    let rest = first_code cs low in if contains (codes c) low then some c else rest

unfoldable pub classify : String → Option String
classify text = first_code auth_codes (to_ascii_lowercase (codes text))

abbrev code_or_default : String → String
code_or_default msg = elim (classify msg) [ none ↦ "unauthenticated" | some c ↦ c ]

-- Status, code and text of a credential that failed.
unfoldable pub auth_failure : UpstreamError → Option (ℕ × String × String)
unfolding classify
auth_failure (auth_failed s msg) = some (s, code_or_default msg, msg)
auth_failure (status s msg) =
    if eqb s 401 || eqb s 403
    then some (s, code_or_default msg, msg)
    else elim (classify msg) [ none ↦ none | some c ↦ some (s, c, msg) ]
auth_failure _ = none

abbrev pub auth_fail_ttl_secs : ℕ
auth_fail_ttl_secs = 300

-- The message is for display only, and is not kept here.
pub record AuthFailure : Type 0 where
  pub at : Time
  pub status_code : ℕ
  pub code_text : String

-- Whole seconds since the failure; before it there are none.
unfoldable pub blocked_at : AuthFailure → Time → Bool
blocked_at f now = ltb ((now - f.at) / second) auth_fail_ttl_secs

abbrev pub AuthGuard : Type 0
AuthGuard = Table Uuid AuthFailure

abbrev is_known : AuthFailure → Option AuthFailure → Bool
is_known f none = false
is_known f (some prev) = (prev.code_text == f.code_text) && blocked_at prev f.at

unfoldable pub mark : Uuid → AuthFailure → AuthGuard → AuthGuard × Bool
unfolding blocked_at
mark id f g = if is_known f (lookup id g) then (g, false) else (insert id f g, true)

unfoldable pub clear : Uuid → AuthGuard → AuthGuard × Bool
clear id g = (remove id g, elim (lookup id g) [ none ↦ false | some _ ↦ true ])

unfoldable pub blocking : Uuid → Time → AuthGuard → Option AuthFailure
unfolding blocked_at
blocking id now g = elim (lookup id g) [
  | none ↦ none
  | some f ↦ if blocked_at f now then some f else none
]
