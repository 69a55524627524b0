-- ===== src/Protocol/Chat/Message.antt =====
-- src/protocol/chat.rs: messages, their parts and tool calls, to and from the intermediate representation.
pub mod Trip
use nextapi.Base.{
  ◌+++◌, ℕ, String, Bool, true, false, ◌&&◌, ◌||◌, not, Option, none, some, List, [], ◌∷◌, map,
  if◌then◌else◌, cut_at, strip_text, or_empty, first_of, is_empty_text, is_text,
}
use nextapi.Base.Json.{
  Value, null, str, arr, obj, Fields, no_fields, as_str, as_array, items, get, get_field, index,
  put_field, put_all, array, is_object, is_null, Serde,
}
use nextapi.Protocol.Chat.Parts.{
  text_at, is_none, parse_all, parse_content, opt_str, opt_content, tagged, content_to_json,
}
use nextapi.Protocol.Ir.{
  ConvCtx, degrade, ConvertError, parse, Conv, done, failed, IrRole, system, user, assistant, tool,
  IrPart, text, image_url, image_inline, input_audio, file, IrContent, plain, parts, IrToolCall,
  IrMessage,
}

unfoldable pub parse_role : Option String → ConvCtx → ConvCtx × IrRole
parse_role none ctx = (ctx, user)
parse_role (some r) ctx =
    if is_text r "system" || is_text r "developer"
    then (ctx, system)
    else if is_text r "assistant"
    then (ctx, assistant)
    else if is_text r "tool"
    then (ctx, tool)
    else (degrade "message.role" ("未知角色，按 user 处理: " +++ r) ctx, user)

abbrev arguments_of : Serde → Value → String
arguments_of serde (str s) = s
arguments_of serde null = ""
arguments_of serde v = serde.print v

unfoldable pub parse_tool_call : Serde → Value → ConvCtx → ConvCtx × Option IrToolCall
parse_tool_call serde tc ctx =
    if not (is_object tc) then (degrade "tool_calls" "tool_call 非对象" ctx, none) else (
      ctx,
      some (record {
        id = or_empty (text_at tc "id");
        name = or_empty (text_at (index tc "function") "name");
        arguments = arguments_of serde (index (index tc "function") "arguments");
      }),
    )

-- The fields of a message that have no place, each noted where it is not null.
unfoldable pub degrade_fields : List String → Value → ConvCtx → ConvCtx
degrade_fields [] v ctx = ctx
degrade_fields (k ∷ ks) v ctx = degrade_fields ks v (elim (get k v) [
  | none ↦ ctx
  | some x ↦
      if is_null x
      then ctx
      else degrade ("message." +++ k) ("message 级字段 " +++ k +++ " 无 IR 槽位，丢弃") ctx
])

abbrev pub array_or_empty : Option Value → List Value
array_or_empty none = []
array_or_empty (some v) = elim (as_array v) [ none ↦ [] | some vs ↦ vs ]

unfoldable pub parse_message : Serde → Value → ConvCtx → ConvCtx × Conv IrMessage
unfolding parse_role parse_content parse_all parse_tool_call degrade_fields
parse_message serde v ctx =
    if not (is_object v)
    then (ctx, failed (parse "message 不是对象"))
    else (let (ctx₁, role) = parse_role (text_at v "role") ctx in
        let (ctx₂, content) = parse_content (get "content" v) ctx₁ in
        let (ctx₃, calls) =
          parse_all (parse_tool_call serde) (array_or_empty (get "tool_calls" v)) ctx₂ in
        (
          degrade_fields ("refusal" ∷ "annotations" ∷ "audio" ∷ "function_call" ∷ []) v ctx₃,
          done (record {
            role = role;
            content = content;
            name = text_at v "name";
            tool_calls = calls;
            tool_call_id = text_at v "tool_call_id";
            reasoning_content = text_at v "reasoning_content";
          }),
        ))

unfoldable pub role_to_text : IrRole → String
role_to_text system = "system"
role_to_text user = "user"
role_to_text assistant = "assistant"
role_to_text tool = "tool"

unfoldable pub tool_call_to_json : IrToolCall → Value
unfolding put_field
tool_call_to_json tc =
    let f = put_field "arguments" (str tc.arguments) (put_field "name" (str tc.name) no_fields) in
    tagged "function" (put_field "function" (obj f) (put_field "id" (str tc.id) no_fields))

abbrev pub calls_value : List IrToolCall → Option Value
calls_value [] = none
calls_value (c ∷ cs) = some (array (map tool_call_to_json (c ∷ cs)))

unfoldable pub message_fields : IrMessage → List (String × Option Value)
unfolding role_to_text
message_fields m =
    ("role", some (str (role_to_text m.role)))
    ∷ ("content", opt_content m.content)
    ∷ ("name", opt_str m.name)
    ∷ ("tool_calls", calls_value m.tool_calls)
    ∷ ("tool_call_id", opt_str m.tool_call_id)
    ∷ ("reasoning_content", opt_str m.reasoning_content)
    ∷ []

unfoldable pub message_to_json : IrMessage → Value
unfolding message_fields put_all
message_to_json m = obj (put_all (message_fields m) no_fields)
