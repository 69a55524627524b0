-- ===== src/Protocol/Chat/Tools.antt =====
-- src/protocol/chat.rs: the tools and the tool choice of a request, to and from the intermediate representation.
pub mod Trip
use nextapi.Base.{
  ◌+++◌, ℕ, ◌^◌, ℤ, pos, String, Bool, true, false, ◌&&◌, ◌||◌, not, Option, none, some, List, [],
  ◌∷◌, map, any, if◌then◌else◌, or_empty, is_text, ltb,
}
use nextapi.Base.Json.{
  Value, null, bool, int, float, str, arr, obj, Fields, no_fields, field, as_str, as_bool, as_u64,
  as_i64, as_f64, as_array, items, get, get_field, index, put_field, put_all, keep_fields, array,
  is_null, Serde,
}
use nextapi.Protocol.Chat.Parts.{text_at, is_none, parse_each, opt_str, tagged}
use nextapi.Protocol.Chat.Message.{parse_message, message_to_json}
use nextapi.Protocol.Ir.{
  ConvCtx, degrade, ConvertError, parse, Conv, done, failed, IrTool, IrMessage, IrExt, IrRequest,
  MaxTokensField, max_tokens_field, max_completion_tokens_field, no_ext,
}

abbrev json_object : Value
json_object = obj no_fields

abbrev or_object : Option Value → Value
or_object none = json_object
or_object (some v) = v

abbrev pub parse_tool : Value → IrTool
parse_tool f = record {
  name = or_empty (text_at f "name");
  description = text_at f "description";
  parameters = or_object (get "parameters" f);
}

-- The loop over the tools: a tool that is no function is dropped.
unfoldable pub parse_tool_list : List Value → ConvCtx → ConvCtx × List IrTool
parse_tool_list [] ctx = (ctx, [])
parse_tool_list (t ∷ ts) ctx =
    let kind = or_empty (text_at t "type") in
    let is_function = is_text kind "function" in
    let (ctx₁, rest) =
      parse_tool_list ts
        (if is_function then ctx else degrade "tools" ("非 function 类型工具定义，丢弃: " +++ kind) ctx) in
    (ctx₁, if is_function then parse_tool (index t "function") ∷ rest else rest)

abbrev tools_done : ConvCtx × List IrTool → ConvCtx × Conv (List IrTool)
tools_done (ctx, ts) = (ctx, done ts)

unfoldable pub parse_tools : Value → ConvCtx → ConvCtx × Conv (List IrTool)
unfolding parse_tool_list
parse_tools (arr xs) ctx = tools_done (parse_tool_list (items xs) ctx)
parse_tools _ ctx = (ctx, failed (parse "tools 不是数组"))

-- A field that may be absent.
abbrev pub tools_of : Option Value → ConvCtx → ConvCtx × Conv (List IrTool)
tools_of none ctx = (ctx, done [])
tools_of (some v) ctx = parse_tools v ctx

abbrev pub on_some {ℓ} : {A : Type ℓ} → (A → Value) → Option A → Option Value
on_some f none = none
on_some f (some a) = some (f a)

-- Nothing is written for an empty sequence.
abbrev pub on_items {ℓ} : {A : Type ℓ} → (A → Value) → List A → Option Value
on_items f [] = none
on_items f (x ∷ xs) = some (array (map f (x ∷ xs)))

abbrev pub function_of : IrTool → Value
function_of t = obj (
    put_all
      (("name", some (str t.name))
        ∷ ("description", opt_str t.description)
        ∷ ("parameters", some t.parameters)
        ∷ [])
      no_fields)

unfoldable pub tool_to_json : IrTool → Value
unfolding put_all put_field
tool_to_json t = tagged "function" (put_field "function" (function_of t) no_fields)

-- A choice of a function in the shape of the Responses protocol.
abbrev is_function_kind : Option String → Bool
is_function_kind none = false
is_function_kind (some s) = is_text s "function"

abbrev pub is_named : Fields → Bool
is_named o =
    is_function_kind (text_at (obj o) "type")
    && is_none (get_field "function" o)
    && not (is_none (get_field "name" o))

abbrev or_null : Option Value → Value
or_null none = null
or_null (some v) = v

unfoldable pub chat_tool_choice : Value → Value
chat_tool_choice (obj o) =
    if is_named o
    then obj (
        field "type" (str "function") (
          field "function" (obj (field "name" (or_null (get_field "name" o)) no_fields)) no_fields))
    else obj o
chat_tool_choice null = null
chat_tool_choice (bool b) = bool b
chat_tool_choice (int z) = int z
chat_tool_choice (float s) = float s
chat_tool_choice (str s) = str s
chat_tool_choice (arr xs) = arr xs
