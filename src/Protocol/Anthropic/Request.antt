-- ===== src/Protocol/Anthropic/Request.antt =====
-- src/protocol/anthropic.rs: the body of a request to the intermediate representation.
use nextapi.Base.{
  ◌+++◌, ℕ, ◌^◌, String, Bool, false, not, Option, none, some, List, [], ◌∷◌, ◌++◌, any,
  if◌then◌else◌, or_empty, is_text, ltb,
}
use nextapi.Base.Json.{
  Value, arr, obj, Fields, no_fields, field, as_bool, as_f64, items, get, index, keep_fields, Serde,
}
use nextapi.Protocol.Chat.Parts.{text_at}
use nextapi.Protocol.Chat.Request.{parse_stop}
use nextapi.Protocol.Ir.{
  ConvCtx, degrade, parse, Conv, done, failed, and_then, IrMessage, IrTool, IrRequest,
}
use nextapi.Protocol.Anthropic.Message.{parse_system, parse_anth_message}
use nextapi.Protocol.Anthropic.Tools.{parse_tools, tools_of, parse_tool_choice, choice_of}
use nextapi.Protocol.Anthropic.Usage.{u64_at}

abbrev pub known_request_fields : List String
known_request_fields =
    "model" ∷ "system" ∷ "messages" ∷ "tools" ∷ "tool_choice" ∷ "temperature" ∷ "top_p" ∷ "top_k"
    ∷ "stop_sequences" ∷ "max_tokens" ∷ "stream" ∷ "metadata" ∷ "thinking" ∷ []

abbrev pub is_unknown : String → Bool
is_unknown k = not (any (λ j. is_text k j) known_request_fields)

abbrev pub system_part : Option Value → ConvCtx → ConvCtx × (Option Value × List IrMessage)
system_part none ctx = (ctx, (none, []))
system_part (some v) ctx = parse_system v ctx

-- The messages so far, and what the extensions keep.
abbrev pub Kept : Type 0
Kept = Fields × List IrMessage

abbrev behind : List IrMessage → ConvCtx × Conv Kept → ConvCtx × Conv Kept
behind ms (ctx, failed e) = (ctx, failed e)
behind ms (ctx, done (extra, rest)) = (ctx, done (extra, ms ++ rest))

unfoldable pub parse_messages : Serde → List Value → Fields → ConvCtx → ConvCtx × Conv Kept
unfolding parse_anth_message
parse_messages serde [] extra ctx = (ctx, done (extra, []))
parse_messages serde (v ∷ vs) extra ctx =
    let (ctx₁, r) = parse_anth_message serde v extra ctx in
    elim r [
      | failed e ↦ (ctx₁, failed e)
      | done (extra₁, ms) ↦ behind ms (parse_messages serde vs extra₁ ctx₁)
    ]

abbrev pub messages_of : Serde → Option Value → ConvCtx → ConvCtx × Conv Kept
messages_of serde none ctx = (ctx, done (no_fields, []))
messages_of serde (some (arr xs)) ctx = parse_messages serde (items xs) no_fields ctx
messages_of serde (some v) ctx = (ctx, failed (parse "messages 不是数组"))

-- A `top_k` beyond 32 bits is dropped.
unfoldable pub top_k_of : Option ℕ → ConvCtx → ConvCtx × Option ℕ
top_k_of none ctx = (ctx, none)
top_k_of (some k) ctx =
    if ltb k (2 ^ 32) then (ctx, some k) else (degrade "top_k" "超出 u32 范围，丢弃" ctx, none)

abbrev note_metadata_keys : Fields → ConvCtx → ConvCtx
note_metadata_keys no_fields ctx = ctx
note_metadata_keys (field k v r) ctx = note_metadata_keys r (
    if is_text k "user_id"
    then ctx
    else degrade ("metadata." +++ k) "metadata 仅 user_id 有 IR 槽位，其余键丢弃" ctx)

abbrev pub note_metadata : Option Value → ConvCtx → ConvCtx
note_metadata (some (obj o)) ctx = note_metadata_keys o ctx
note_metadata _ ctx = ctx

abbrev or_false : Option Bool → Bool
or_false none = false
or_false (some b) = b

abbrev pub request_of :
    Serde
    → Fields
    → (cache : Option Value) → Option ℕ
    → Fields
    → List IrMessage
    → List IrTool
    → IrRequest
request_of serde o cache top_k extra ms ts =
    let v = obj o in
    record {
      model = or_empty (text_at v "model");
      messages = ms;
      tools = ts;
      tool_choice = choice_of (get "tool_choice" v);
      temperature = as_f64 serde (index v "temperature");
      top_p = as_f64 serde (index v "top_p");
      max_tokens = u64_at v "max_tokens";
      max_tokens_name = none;
      stop = parse_stop (get "stop_sequences" v);
      stream = or_false (as_bool (index v "stream"));
      stream_include_usage = false;
      response_format = none;
      seed = none;
      user_name = text_at (index v "metadata") "user_id";
      n = none;
      ext = record {
        thinking = get "thinking" v;
        web_search = none;
        cache_control = cache;
        top_k = top_k;
        service_tier = none;
        extra = extra;
      };
      extra = keep_fields is_unknown o;
    }

unfoldable pub request_to_ir : Serde → Value → ConvCtx → ConvCtx × Conv IrRequest
unfolding parse_messages parse_system top_k_of parse_tools parse_tool_choice parse_stop
request_to_ir serde (obj o) ctx =
    let v = obj o in
    let (ctx₁, (cache, first)) = system_part (get "system" v) ctx in
    and_then (messages_of serde (get "messages" v) ctx₁) (λ kept ctx₂.
      let (extra, ms) = kept in
      let (ctx₃, top_k) = top_k_of (u64_at v "top_k") ctx₂ in
      and_then (tools_of (get "tools" v) ctx₃) (λ ts ctx₄. (
        note_metadata (get "metadata" v) ctx₄,
        done (request_of serde o cache top_k extra (first ++ ms) ts),
      )))
request_to_ir serde v ctx = (ctx, failed (parse "请求体不是对象"))
