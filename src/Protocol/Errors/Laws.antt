-- ===== src/Protocol/Errors/Laws.antt =====
-- src/protocol/errors.rs: what a translation of an error keeps.
use nextapi.Base.{
  ℕ, ◌^◌, String, Bool, true, false, ◌||◌, Option, none, some, ◌≡◌, refl, ap, arith, pos, ltb, leb,
  eqb, Bool-cases, inl, inr, if◌then◌else◌,
}
use nextapi.Base.Json.{Value, int, Serde, index, get, get_field, fits_i64}
use nextapi.Protocol.{Protocol, openai_chat, openai_responses, anthropic, gemini}
use nextapi.Protocol.Errors.{
  IrError, error_to_ir, error_from_ir, int_text_of, gemini_status, status_of_http, is_grpc_name,
  grpc_kind,
}

abbrev kind_or : Option String → String → Option String
kind_or none d = some d
kind_or (some s) d = some s

-- What a client of the protocol is told of an error.
unfoldable pub told : Serde → Protocol → IrError → IrError
unfolding gemini_status
told serde openai_chat e = record {
  status = e.status;
  message = e.message;
  kind = kind_or e.kind "server_error";
  code = e.code;
}
told serde openai_responses e = record {
  status = e.status;
  message = e.message;
  kind = kind_or e.kind "server_error";
  code = e.code;
}
told serde anthropic e = record {
  status = e.status;
  message = e.message;
  kind = kind_or e.kind "api_error";
  code = none;
}
told serde gemini e = record {
  status = e.status;
  message = e.message;
  kind = some (gemini_status e);
  code = some (serde.int_text (pos e.status));
}

int_text_of-pos :
    (serde : Serde) (n : ℕ)
    → fits_i64 (pos n) ≡ true
    → int_text_of serde (int (pos n)) ≡ some (serde.int_text (pos n))
int_text_of-pos serde n h = rw (h, int_text_of) refl

error-trip :
    (serde : Serde) (p : Protocol) (status : ℕ) (message : String) (kind code : Option String)
    → fits_i64 (pos status) ≡ true
    → let e : IrError = record { status = status; message = message; kind = kind; code = code } in
      error_to_ir serde p status (error_from_ir p e) ≡ told serde p e
unfolding error_to_ir error_from_ir told index get get_field gemini_status
error-trip serde openai_chat s m none none h = refl
error-trip serde openai_chat s m none (some c) h = refl
error-trip serde openai_chat s m (some k) none h = refl
error-trip serde openai_chat s m (some k) (some c) h = refl
error-trip serde openai_responses s m none none h = refl
error-trip serde openai_responses s m none (some c) h = refl
error-trip serde openai_responses s m (some k) none h = refl
error-trip serde openai_responses s m (some k) (some c) h = refl
error-trip serde anthropic s m none c h = refl
error-trip serde anthropic s m (some k) c h = refl
error-trip serde gemini s m k c h =
    ap (λ n. record { status = s; message = m; kind = some (grpc_kind k s); code = n })
      (int_text_of-pos serde s h)

pub error_to_ir-error_from_ir :
    (serde : Serde) (p : Protocol) (e : IrError)
    → ltb e.status (2 ^ 16) ≡ true
    → error_to_ir serde p e.status (error_from_ir p e) ≡ told serde p e
error_to_ir-error_from_ir serde p e h =
    error-trip serde p e.status e.message e.kind e.code (ground (arith, h))

either_grpc :
    (b : Bool) (x y : String)
    → is_grpc_name x ≡ true
    → is_grpc_name y ≡ true
    → is_grpc_name (if b then x else y) ≡ true
either_grpc true x y h k = h
either_grpc false x y h k = k

status_of_http-Grpc : (s : ℕ) → is_grpc_name (status_of_http s) ≡ true
unfolding status_of_http
status_of_http-Grpc s = either_grpc (eqb s 400) _ _ refl (
    either_grpc (eqb s 401) _ _ refl (
      either_grpc (eqb s 403) _ _ refl (
        either_grpc (eqb s 404) _ _ refl (
          either_grpc (eqb s 408 || eqb s 504) _ _ refl (
            either_grpc (eqb s 409) _ _ refl (
              either_grpc (eqb s 413 || eqb s 429) _ _ refl (
                either_grpc (eqb s 499) _ _ refl (
                  either_grpc (eqb s 501) _ _ refl (
                    either_grpc (eqb s 503 || eqb s 529) _ _ refl
                      (either_grpc (leb 500 s) _ _ refl refl))))))))))

grpc_kind-Grpc : (k : Option String) (s : ℕ) → is_grpc_name (grpc_kind k s) ≡ true
grpc_kind-Grpc none s = status_of_http-Grpc s
grpc_kind-Grpc (some t) s = elim (Bool-cases (is_grpc_name t)) [
  | inl e ↦ rw e e
  | inr e ↦ rw e (status_of_http-Grpc s)
]

-- The status in an error for a Gemini client is never empty and has only capital letters and underscores.
pub gemini_status-Grpc : (e : IrError) → is_grpc_name (gemini_status e) ≡ true
unfolding gemini_status
gemini_status-Grpc e = grpc_kind-Grpc e.kind e.status

message_kept :
    (serde : Serde) (p : Protocol) (status : ℕ) (e : IrError)
    → (error_to_ir serde p status (error_from_ir p e)).message ≡ e.message
unfolding error_to_ir error_from_ir index get get_field
message_kept serde openai_chat status e = refl
message_kept serde openai_responses status e = refl
message_kept serde anthropic status e = refl
message_kept serde gemini status e = refl

-- A body in any protocol, told to a client of any protocol: the message is that of the body, in full.
pub error_to_ir-message :
    (serde : Serde) (from to : Protocol) (status : ℕ) (body : Value)
    → (error_to_ir serde to status (error_from_ir to (error_to_ir serde from status body))).message
      ≡ (error_to_ir serde from status body).message
error_to_ir-message serde from to status body =
    message_kept serde to status (error_to_ir serde from status body)
