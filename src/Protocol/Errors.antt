-- ===== src/Protocol/Errors.antt =====
-- src/protocol/errors.rs: the error body of one protocol, its intermediate form, and the body of another protocol.
pub mod Laws
use nextapi.Base.{
  ℕ, String, Bool, true, false, ◌&&◌, ◌||◌, not, Option, none, some, List, [], ◌∷◌, all,
  if◌then◌else◌, or_empty, is_empty_text, codes, pos, leb, eqb, first_of,
}
use nextapi.Base.Json.{
  Value, null, bool, int, float, str, arr, obj, Fields, no_fields, field, as_str, as_i64, index,
  Serde,
}
use nextapi.Protocol.{Protocol, openai_chat, openai_responses, anthropic, gemini}

pub record IrError : Type 0 where
  pub status : ℕ
  pub message : String
  pub kind : Option String
  pub code : Option String

abbrev or_text : Option String → String → String
or_text none d = d
or_text (some s) d = s

-- The whole body where it has no message in the expected place.
unfoldable pub fallback_body_message : Serde → Value → String
fallback_body_message serde (str s) = s
fallback_body_message serde null = ""
fallback_body_message serde (bool b) = serde.print (bool b)
fallback_body_message serde (int z) = serde.print (int z)
fallback_body_message serde (float s) = serde.print (float s)
fallback_body_message serde (arr xs) = serde.print (arr xs)
fallback_body_message serde (obj fs) = serde.print (obj fs)

abbrev pub int_text_of : Serde → Value → Option String
int_text_of serde v = elim (as_i64 v) [ none ↦ none | some z ↦ some (serde.int_text z) ]

abbrev pub openai_error : Serde → ℕ → Value → IrError
openai_error serde status body =
    let e = index body "error" in
    record {
      status = status;
      message = or_text (as_str (index e "message")) (or_empty (as_str body));
      kind = as_str (index e "type");
      code = first_of (as_str (index e "code")) (int_text_of serde (index e "code"));
    }

unfoldable pub error_to_ir : Serde → Protocol → ℕ → Value → IrError
unfolding fallback_body_message
error_to_ir serde openai_chat status body = openai_error serde status body
error_to_ir serde openai_responses status body = openai_error serde status body
error_to_ir serde anthropic status body =
    let e = index body "error" in
    record {
      status = status;
      message = or_text (as_str (index e "message")) (fallback_body_message serde body);
      kind = as_str (index e "type");
      code = none;
    }
error_to_ir serde gemini status body =
    let e = index body "error" in
    record {
      status = status;
      message = or_text (as_str (index e "message")) (fallback_body_message serde body);
      kind = as_str (index e "status");
      code = int_text_of serde (index e "code");
    }

abbrev pub is_grpc_char : ℕ → Bool
is_grpc_char c = (leb b'A' c && leb c b'Z') || eqb c b'_'

-- The shape of a gRPC status.
abbrev pub is_grpc_name : String → Bool
is_grpc_name t = not (is_empty_text t) && all is_grpc_char (codes t)

unfoldable pub status_of_http : ℕ → String
status_of_http s =
    if eqb s 400
    then "INVALID_ARGUMENT"
    else if eqb s 401
    then "UNAUTHENTICATED"
    else if eqb s 403
    then "PERMISSION_DENIED"
    else if eqb s 404
    then "NOT_FOUND"
    else if eqb s 408 || eqb s 504
    then "DEADLINE_EXCEEDED"
    else if eqb s 409
    then "ABORTED"
    else if eqb s 413 || eqb s 429
    then "RESOURCE_EXHAUSTED"
    else if eqb s 499
    then "CANCELLED"
    else if eqb s 501
    then "UNIMPLEMENTED"
    else if eqb s 503 || eqb s 529
    then "UNAVAILABLE"
    else if leb 500 s
    then "INTERNAL"
    else "UNKNOWN"

abbrev pub grpc_kind : Option String → ℕ → String
grpc_kind none s = status_of_http s
grpc_kind (some t) s = if is_grpc_name t then t else status_of_http s

unfoldable pub gemini_status : IrError → String
unfolding status_of_http
gemini_status e = grpc_kind e.kind e.status

abbrev opt_or_null : Option String → Value
opt_or_null none = null
opt_or_null (some s) = str s

abbrev openai_body : IrError → Value
openai_body e = obj (
    field "error"
      (obj (
        field "message" (str e.message) (
          field "type" (str (or_text e.kind "server_error"))
            (field "code" (opt_or_null e.code) no_fields))))
      no_fields)

unfoldable pub error_from_ir : Protocol → IrError → Value
unfolding gemini_status
error_from_ir openai_chat e = openai_body e
error_from_ir openai_responses e = openai_body e
error_from_ir anthropic e = obj (
    field "type" (str "error") (
      field "error"
        (obj (
          field "type" (str (or_text e.kind "api_error"))
            (field "message" (str e.message) no_fields)))
        no_fields))
error_from_ir gemini e = obj (
    field "error"
      (obj (
        field "code" (int (pos e.status))
          (field "message" (str e.message) (field "status" (str (gemini_status e)) no_fields))))
      no_fields)
