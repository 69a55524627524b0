-- ===== src/Protocol/Chat/Request.antt =====
-- src/protocol/chat.rs: the request, to and from the intermediate representation.
pub mod Trip
use nextapi.Base.{
  ◌+++◌, ℕ, ◌^◌, ℤ, pos, String, Bool, true, false, ◌&&◌, ◌||◌, not, Option, none, some, List, [],
  ◌∷◌, map, any, if◌then◌else◌, or_empty, is_text, ltb,
}
use nextapi.Base.Json.{
  Value, null, bool, int, float, str, arr, obj, Fields, no_fields, field, as_str, as_bool, as_u64,
  as_i64, as_f64, as_array, items, get, get_field, index, put_field, put_all, keep_fields, array,
  is_null, Serde,
}
use nextapi.Protocol.Chat.Parts.{text_at, is_none, parse_each, opt_str, tagged}
use nextapi.Protocol.Chat.Message.{parse_message, message_to_json}
use nextapi.Protocol.Chat.Tools.{
  parse_tools, tools_of, on_some, on_items, tool_to_json, chat_tool_choice,
}
use nextapi.Protocol.Ir.{
  ConvCtx, degrade, ConvertError, parse, Conv, done, failed, IrTool, IrMessage, IrExt, IrRequest,
  MaxTokensField, max_tokens_field, max_completion_tokens_field, no_ext,
}

abbrev pub known_request_fields : List String
known_request_fields =
    "model" ∷ "messages" ∷ "tools" ∷ "tool_choice" ∷ "temperature" ∷ "top_p" ∷ "max_tokens"
    ∷ "max_completion_tokens" ∷ "stop" ∷ "stream" ∷ "stream_options" ∷ "response_format" ∷ "seed"
    ∷ "user" ∷ "n" ∷ []

abbrev pub is_unknown : String → Bool
is_unknown k = not (any (λ j. is_text k j) known_request_fields)

unfoldable pub messages_of : Serde → Option Value → ConvCtx → ConvCtx × Conv (List IrMessage)
unfolding parse_each
messages_of serde none ctx = (ctx, done [])
messages_of serde (some (arr xs)) ctx = parse_each (parse_message serde) (items xs) ctx
messages_of serde (some _) ctx = (ctx, failed (parse "messages 不是数组"))

-- There, and not null.
abbrev pub is_set : Option Value → Bool
is_set none = false
is_set (some v) = not (is_null v)

abbrev u64_of : Option Value → Option ℕ
u64_of none = none
u64_of (some v) = as_u64 v

-- The values of max_tokens and of max_completion_tokens.
unfoldable pub max_conflict : (mt mct : Option Value) → ConvCtx → ConvCtx
max_conflict mt mct ctx =
    if is_set mt && is_set mct
    then degrade "max_tokens" "max_tokens 与 max_completion_tokens 并存，取 max_completion_tokens" ctx
    else ctx

unfoldable pub max_tokens_of : (mt mct : Option Value) → Option ℕ × Option MaxTokensField
max_tokens_of mt mct =
    if is_set mct
    then (u64_of mct, some max_completion_tokens_field)
    else if is_set mt
    then (u64_of mt, some max_tokens_field)
    else (none, none)

abbrev pub keep_texts : List Value → List String
keep_texts [] = []
keep_texts (v ∷ vs) = elim (as_str v) [ none ↦ keep_texts vs | some s ↦ s ∷ keep_texts vs ]

unfoldable pub parse_stop : Option Value → Option (List String)
parse_stop none = none
parse_stop (some (str s)) = some (s ∷ [])
parse_stop (some (arr xs)) = some (keep_texts (items xs))
parse_stop (some _) = none

abbrev or_false : Option Bool → Bool
or_false none = false
or_false (some b) = b

abbrev bool_of : Option Value → Option Bool
bool_of none = none
bool_of (some v) = as_bool v

abbrev pub include_usage_of : Option Value → Bool
include_usage_of none = false
include_usage_of (some (obj o)) = or_false (bool_of (get_field "include_usage" o))
include_usage_of (some _) = false

-- `u32::try_from`
abbrev pub to_u32 : Option ℕ → Option ℕ
to_u32 none = none
to_u32 (some n) = if ltb n (2 ^ 32) then some n else none

abbrev pub request_of : Serde → Fields → List IrMessage → List IrTool → IrRequest
request_of serde o ms ts =
    let v = obj o in
    let limit = max_tokens_of (get "max_tokens" v) (get "max_completion_tokens" v) in
    record {
      model = or_empty (text_at v "model");
      messages = ms;
      tools = ts;
      tool_choice = get "tool_choice" v;
      temperature = as_f64 serde (index v "temperature");
      top_p = as_f64 serde (index v "top_p");
      max_tokens = limit.0;
      max_tokens_name = limit.1;
      stop = parse_stop (get "stop" v);
      stream = or_false (as_bool (index v "stream"));
      stream_include_usage = include_usage_of (get "stream_options" v);
      response_format = get "response_format" v;
      seed = as_i64 (index v "seed");
      user_name = text_at v "user";
      n = to_u32 (as_u64 (index v "n"));
      ext = no_ext;
      extra = keep_fields is_unknown o;
    }

abbrev pub with_tools :
    Serde → Fields → List IrMessage → ConvCtx × Conv (List IrTool) → ConvCtx × Conv IrRequest
with_tools serde o ms (ctx, failed e) = (ctx, failed e)
with_tools serde o ms (ctx, done ts) = (ctx, done (request_of serde o ms ts))

abbrev pub with_messages :
    Serde → Fields → ConvCtx × Conv (List IrMessage) → ConvCtx × Conv IrRequest
with_messages serde o (ctx, failed e) = (ctx, failed e)
with_messages serde o (ctx, done ms) = with_tools serde o ms (
    tools_of (get "tools" (obj o))
      (max_conflict (get "max_tokens" (obj o)) (get "max_completion_tokens" (obj o)) ctx))

unfoldable pub request_to_ir : Serde → Value → ConvCtx → ConvCtx × Conv IrRequest
unfolding messages_of parse_tools max_conflict max_tokens_of parse_stop
request_to_ir serde (obj o) ctx =
    with_messages serde o (messages_of serde (get "messages" (obj o)) ctx)
request_to_ir serde _ ctx = (ctx, failed (parse "请求体不是对象"))

abbrev note {ℓ} : {A : Type ℓ} → Option A → String → ConvCtx → ConvCtx
note none item ctx = ctx
note (some _) item ctx = degrade item "OpenAI Chat 无对应字段" ctx

abbrev note_keys : Fields → ConvCtx → ConvCtx
note_keys no_fields ctx = ctx
note_keys (field k v r) ctx = note_keys r (degrade k "OpenAI Chat 无对应字段" ctx)

unfoldable pub degrade_ext : IrExt → ConvCtx → ConvCtx
degrade_ext e ctx = note_keys e.extra (
    note e.service_tier "ext.service_tier" (
      note e.top_k "ext.top_k" (
        note e.cache_control "ext.cache_control"
          (note e.web_search "ext.web_search" (note e.thinking "ext.thinking" ctx)))))

-- The limit is written under the name it came with, else as max_tokens: what each of the names gets.
abbrev pub as_max_tokens : Option MaxTokensField → Option ℕ → Option Value
as_max_tokens (some max_completion_tokens_field) o = none
as_max_tokens (some max_tokens_field) o = on_some (λ n. int (pos n)) o
as_max_tokens none o = on_some (λ n. int (pos n)) o

abbrev pub as_max_completion : Option MaxTokensField → Option ℕ → Option Value
as_max_completion (some max_completion_tokens_field) o = on_some (λ n. int (pos n)) o
as_max_completion (some max_tokens_field) o = none
as_max_completion none o = none

abbrev pub include_usage : Bool → Option Value
include_usage true = some (obj (field "include_usage" (bool true) no_fields))
include_usage false = none

unfoldable pub request_fields : IrRequest → List (String × Option Value)
unfolding tool_to_json chat_tool_choice
request_fields req =
    ("model", some (str req.model))
    ∷ ("messages", some (array (map message_to_json req.messages)))
    ∷ ("tools", on_items tool_to_json req.tools)
    ∷ ("tool_choice", on_some chat_tool_choice req.tool_choice)
    ∷ ("temperature", on_some float req.temperature)
    ∷ ("top_p", on_some float req.top_p)
    ∷ ("max_tokens", as_max_tokens req.max_tokens_name req.max_tokens)
    ∷ ("max_completion_tokens", as_max_completion req.max_tokens_name req.max_tokens)
    ∷ ("stop", on_some (λ l. array (map str l)) req.stop)
    ∷ ("stream", some (bool req.stream))
    ∷ ("stream_options", include_usage req.stream_include_usage)
    ∷ ("response_format", req.response_format)
    ∷ ("seed", on_some int req.seed)
    ∷ ("user", opt_str req.user_name)
    ∷ ("n", on_some (λ k. int (pos k)) req.n)
    ∷ []

-- The fields that the request was given beyond the known ones come first; a field of the same name replaces one of them.
unfoldable pub request_from_ir : IrRequest → ConvCtx → ConvCtx × Conv Value
unfolding request_fields degrade_ext put_all
request_from_ir req ctx =
    (degrade_ext req.ext ctx, done (obj (put_all (request_fields req) req.extra)))
