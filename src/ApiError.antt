-- ===== src/ApiError.antt =====
-- src/error.rs: the errors of the API and the answers that they become.
use nextapi.Base.{ℕ, ◌≤◌, ◌<◌, ◌≡◌, refl, String, Option, none, some, arith, eqb, if◌then◌else◌}

pub data ApiError : Type 0 where
  unauthorized : ApiError
  forbidden : ApiError
  not_found : ApiError
  bad_request : String → ApiError
  conflict : String → ApiError
  rate_limited : ApiError
  totp_required : ApiError
  totp_invalid : ApiError
  bad_gateway : String → ApiError
  internal : String → ApiError

pub data Result {ℓ} (A : Type ℓ) : Type ℓ where
  ok : A → Result A
  err : ApiError → Result A

unfoldable pub status : ApiError → ℕ
status unauthorized = 401
status forbidden = 403
status not_found = 404
status (bad_request _) = 400
status (conflict _) = 409
status rate_limited = 429
status totp_required = 401
status totp_invalid = 401
status (bad_gateway _) = 502
status (internal _) = 500

-- The `Display` text: the words of the variant, then its detail.
unfoldable pub message : ApiError → String × String
message unauthorized = ("未授权", "")
message forbidden = ("禁止访问", "")
message not_found = ("资源不存在", "")
message (bad_request s) = ("参数错误: ", s)
message (conflict s) = ("冲突: ", s)
message rate_limited = ("请求过于频繁，请稍后再试", "")
message totp_required = ("需要二次验证码", "")
message totp_invalid = ("二次验证码错误", "")
message (bad_gateway s) = ("网关错误: ", s)
message (internal s) = ("内部错误: ", s)

-- The parts of the response that depend on the error: status, text, code, `retry-after`.
pub record Response : Type 0 where
  pub code_number : ℕ
  pub text : String × String
  pub code : Option String
  pub retry_after : Option ℕ

abbrev code_of : ApiError → Option String
code_of totp_required = some "totp_required"
code_of totp_invalid = some "totp_invalid"
code_of _ = none

-- The text of an internal error is replaced by its request id.
unfoldable pub into_response : String → ApiError → Response
unfolding status message
into_response request_id e = record {
  code_number = status e;
  text = if eqb (status e) 500 then ("内部错误", request_id) else message e;
  code = code_of e;
  retry_after = if eqb (status e) 429 then some 1 else none;
}

-- An internal error's detail never reaches the client: two internal errors answer alike. Every
-- answer is a client or a server error, and only a rate limit says when to come back.
pub into_response-hides :
    (request_id s t : String) (e : ApiError)
    → (into_response request_id (internal s) ≡ into_response request_id (internal t))
      × (400 ≤ (into_response request_id e).code_number)
      × ((into_response request_id e).code_number < 600)
      × ((into_response request_id e).retry_after ≡ some 1 → e ≡ rate_limited)
unfolding into_response
into_response-hides request_id s t unauthorized = (refl, omega arith, omega arith, λ h. cc)
into_response-hides request_id s t rate_limited = (refl, omega arith, omega arith, λ h. refl)
into_response-hides request_id s t e = (refl, omega arith, omega arith, λ h. cc)
