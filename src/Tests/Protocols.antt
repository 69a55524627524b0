-- ===== src/Tests/Protocols.antt =====
-- A request, a response and an error that the theorems on the protocols are applied to.
use nextapi.Base.{
  trims_to, if◌then◌else◌, is_text, strip_text, cut_at, pos, true, none, some, [], ◌∷◌, ◌≡◌, refl,
}
use nextapi.Base.Json.{get, get_field, Value, str, int, obj, field, no_fields, Serde}
use nextapi.Base.Json.Laws.{only}
use nextapi.Protocol.{openai_chat, anthropic, gemini}
use nextapi.Protocol.Ir.{
  degrade, done, and_then, user, assistant, text, image_inline, image_url, file, parts, plain,
  IrMessage, IrRequest, max_completion_tokens_field, IrUsage, IrResponse, IrChunk,
}
use nextapi.Protocol.Finish.{normalize_finish_reason}
use nextapi.Protocol.Chat.Request.{request_to_ir, request_from_ir, degrade_ext}
use nextapi.Protocol.Chat.Message.Trip.{note_role}
use nextapi.Protocol.Chat.Request.Trip.{request_to_ir-request_from_ir, without_ext, normal_request}
use nextapi.Protocol.Chat.Response.{response_to_ir, response_from_ir, write_usage, usage_of}
use nextapi.Protocol.Chat.Response.Trip.{
  response_to_ir-response_from_ir, with_usage, normal_response,
}
use nextapi.Protocol.Chat.Usage.{parse_usage, usage_to_json}
use nextapi.Protocol.Chat.Usage.Trip.{counts, counts-usage_to_json}
use nextapi.Protocol.Chat.Chunk.{chunk_to_ir, chunk_body}
use nextapi.Protocol.Chat.Chunk.Line.{
  chunk_to_ir-chunk_body, normal_chunk, with_usage as with_chunk_usage,
}
use nextapi.Protocol.Chat.Chunk.Trip.{normal_chunk_choice}
use nextapi.Protocol.Errors.{IrError, error_to_ir, error_from_ir, is_grpc_name, gemini_status}
use nextapi.Protocol.Errors.Laws.{
  error_to_ir-error_from_ir, error_to_ir-message, told, gemini_status-Grpc,
}
use nextapi.Upstream.Usage.{extract_json_usage}
use nextapi.Upstream.Usage.Agree.{
  is_count, billed_passed, billed_converted, extract_json_usage-parse_usage,
}

abbrev serde : Serde
serde = record {
  print = λ v. "{}";
  read = λ s. none;
  read_error = λ s. "EOF";
  float_of_int = λ z. "1.0";
  int_text = λ z. "400";
}

abbrev question : IrMessage
question = record {
  role = user;
  content = some (
      parts (
        text "what is this?"
        ∷ image_url "https://example.com/a.png"
        ∷ image_inline "image/png" "AAAA"
        ∷ file "" none (some "aGVsbG8=")
        ∷ []));
  name = none;
  tool_calls = [];
  tool_call_id = none;
  reasoning_content = none;
}

abbrev answer : IrMessage
answer = record {
  role = assistant;
  content = some (plain "a cat");
  name = none;
  tool_calls = record { id = "call_1"; name = "look"; arguments = "{}" } ∷ [];
  tool_call_id = none;
  reasoning_content = some "it has whiskers";
}

abbrev request : IrRequest
request = record {
  model = "gpt-4o";
  messages = question ∷ answer ∷ [];
  tools = record { name = "look"; description = none; parameters = obj no_fields } ∷ [];
  tool_choice = some (str "auto");
  temperature = some "0.7";
  top_p = none;
  max_tokens = some 100;
  max_tokens_name = some max_completion_tokens_field;
  stop = some ("END" ∷ []);
  stream = true;
  stream_include_usage = true;
  response_format = none;
  seed = some (pos 7);
  user_name = some "u";
  n = some 1;
  ext = record {
    thinking = none;
    web_search = none;
    cache_control = none;
    top_k = some 40;
    service_tier = none;
    extra = no_fields;
  };
  extra = field "logit_bias" (obj no_fields) no_fields;
}

request_to_ir-request_from_ir_example :
    and_then (request_from_ir request []) (request_to_ir serde) ≡ (
      degrade "message.role" "未知角色，按 user 处理: user" (degrade_ext request.ext []),
      done (without_ext request),
    )
unfolding normal_request strip_text cut_at only note_role
request_to_ir-request_from_ir_example = request_to_ir-request_from_ir serde request [] refl

abbrev usage : IrUsage
usage = record {
  prompt_tokens = 7;
  completion_tokens = 5;
  cache_read_tokens = some 3;
  cache_write_tokens = none;
  total_tokens = some 15;
  extra = field "reasoning_tokens" (int (pos 2)) no_fields;
}

abbrev response : IrResponse
response = record {
  id = "chatcmpl-x";
  model = "gpt-4o";
  created = pos 123;
  choices = record { index = 0; message = answer; finish_reason = some "stop" } ∷ [];
  usage = some usage;
  system_fingerprint = some "fp_1";
  extra = no_fields;
}

response_to_ir-response_from_ir_example :
    and_then (response_from_ir response []) (response_to_ir serde) ≡ (
      (write_usage response.usage []).0,
      done (with_usage (usage_of (write_usage response.usage []).1) response),
    )
unfolding normal_response normalize_finish_reason only note_role usage_to_json
response_to_ir-response_from_ir_example = response_to_ir-response_from_ir serde response [] refl

counts-usage_to_json_example : counts (parse_usage (usage_to_json usage []).1) ≡ counts usage
unfolding only
counts-usage_to_json_example = counts-usage_to_json usage [] refl refl

abbrev overloaded : IrError
overloaded = record {
  status = 529;
  message = "Overloaded";
  kind = some "overloaded_error";
  code = none;
}

error_to_ir-error_from_ir_example :
    error_to_ir serde gemini 529 (error_from_ir gemini overloaded) ≡ told serde gemini overloaded
error_to_ir-error_from_ir_example = error_to_ir-error_from_ir serde gemini overloaded refl

abbrev refused : Value
refused = str "upstream refused"

error_to_ir-message_example :
    (error_to_ir serde gemini 400
      (error_from_ir gemini (error_to_ir serde anthropic 400 refused))).message
    ≡ (error_to_ir serde anthropic 400 refused).message
error_to_ir-message_example = error_to_ir-message serde anthropic gemini 400 refused

gemini_status-Grpc_example : is_grpc_name (gemini_status overloaded) ≡ true
gemini_status-Grpc_example = gemini_status-Grpc overloaded

abbrev usage_body : Value
usage_body = obj (
    field "prompt_tokens" (int (pos 10)) (
      field "completion_tokens" (int (pos 5)) (
        field "prompt_tokens_details" (obj (field "cached_tokens" (int (pos 3)) no_fields))
          no_fields)))

abbrev response_body : Value
response_body = obj (field "usage" usage_body no_fields)

extract_json_usage-parse_usage_example :
    billed_passed (extract_json_usage openai_chat response_body)
    ≡ billed_converted (parse_usage usage_body)
unfolding get get_field is_count
extract_json_usage-parse_usage_example =
    extract_json_usage-parse_usage response_body usage_body refl refl refl refl

-- A reader that knows one text.
abbrev knows : Serde
knows = record serde { read = λ s. if is_text s "{..}" then some response_body else none }

abbrev chunk : IrChunk
chunk = record {
  id = "chatcmpl-x";
  model = "gpt-4o";
  created = pos 123;
  choices =
      record {
        index = 0;
        delta = record {
          role = some assistant;
          content = some "hi";
          reasoning_content = none;
          tool_calls =
              record { index = 1; id = some "call_1"; name = some "look"; arguments = some "{" }
              ∷ [];
        };
        finish_reason = none;
      }
      ∷ [];
  usage = some usage;
  extra = no_fields;
}

-- A reader that knows the written chunk.
abbrev knows_chunk : Serde
knows_chunk = record serde {
  read = λ s. if is_text s "{..}" then some (chunk_body chunk []).1 else none;
}

chunk_to_ir-chunk_body_example :
    chunk_to_ir knows_chunk "{..}" []
    ≡ ([], done (some (with_chunk_usage (usage_of (write_usage chunk.usage []).1) chunk)))
unfolding normal_chunk normal_chunk_choice only trims_to note_role
chunk_to_ir-chunk_body_example = chunk_to_ir-chunk_body knows_chunk chunk "{..}" [] refl refl refl
