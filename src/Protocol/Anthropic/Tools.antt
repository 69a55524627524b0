-- ===== src/Protocol/Anthropic/Tools.antt =====
-- src/protocol/anthropic.rs: the tools and the tool choice, to and from the intermediate representation.
use nextapi.Base.{
  String, Bool, true, false, Option, none, some, List, [], ◌∷◌, if◌then◌else◌, or_empty, is_text,
}
use nextapi.Base.Json.{Value, null, str, arr, obj, no_fields, items, get, index, json, put_all}
use nextapi.Protocol.Chat.Parts.{text_at, opt_str}
use nextapi.Protocol.Ir.{ConvCtx, degrade, parse, Conv, done, failed, IrTool}

abbrev or_object : Option Value → Value
or_object none = obj no_fields
or_object (some v) = v

abbrev pub parse_tool : Value → IrTool
parse_tool t = record {
  name = or_empty (text_at t "name");
  description = text_at t "description";
  parameters = or_object (get "input_schema" t);
}

abbrev note_cache : Option Value → ConvCtx → ConvCtx
note_cache none ctx = ctx
note_cache (some v) ctx = degrade "tools.cache_control" "工具级 cache_control 不支持，丢弃" ctx

-- What is no object is skipped.
unfoldable pub parse_tool_list : List Value → ConvCtx → ConvCtx × List IrTool
parse_tool_list [] ctx = (ctx, [])
parse_tool_list (obj o ∷ ts) ctx =
    let (ctx₁, rest) = parse_tool_list ts (note_cache (get "cache_control" (obj o)) ctx) in
    (ctx₁, parse_tool (obj o) ∷ rest)
parse_tool_list (t ∷ ts) ctx = parse_tool_list ts ctx

abbrev tools_done : ConvCtx × List IrTool → ConvCtx × Conv (List IrTool)
tools_done (ctx, ts) = (ctx, done ts)

unfoldable pub parse_tools : Value → ConvCtx → ConvCtx × Conv (List IrTool)
unfolding parse_tool_list
parse_tools (arr xs) ctx = tools_done (parse_tool_list (items xs) ctx)
parse_tools v ctx = (ctx, failed (parse "tools 不是数组"))

abbrev pub tools_of : Option Value → ConvCtx → ConvCtx × Conv (List IrTool)
tools_of none ctx = (ctx, done [])
tools_of (some v) ctx = parse_tools v ctx

abbrev pub function_choice : String → Value
function_choice name =
    json (("type", str "function") ∷ ("function", json (("name", str name) ∷ [])) ∷ [])

abbrev choice_of_kind : String → Value → Value
choice_of_kind kind tc =
    if is_text kind "auto"
    then str "auto"
    else if is_text kind "any"
    then str "required"
    else if is_text kind "none"
    then str "none"
    else if is_text kind "tool"
    then function_choice (or_empty (text_at tc "name"))
    else tc

abbrev is_not_null : Value → Bool
is_not_null null = false
is_not_null v = true

unfoldable pub parse_tool_choice : Value → Option Value
parse_tool_choice tc =
    if is_not_null tc then some (choice_of_kind (or_empty (text_at tc "type")) tc) else none

abbrev pub choice_of : Option Value → Option Value
choice_of none = none
choice_of (some v) = parse_tool_choice v

abbrev kind_value : String → Value
kind_value kind = json (("type", str kind) ∷ [])

abbrev is_function : Option String → Bool
is_function none = false
is_function (some s) = is_text s "function"

unfoldable pub tool_choice_to_anthropic : Value → Value
tool_choice_to_anthropic (str s) =
    if is_text s "auto"
    then kind_value "auto"
    else if is_text s "required"
    then kind_value "any"
    else kind_value "auto"
tool_choice_to_anthropic (obj o) =
    if is_function (text_at (obj o) "type")
    then json (
        ("type", str "tool")
        ∷ ("name", str (or_empty (text_at (index (obj o) "function") "name")))
        ∷ [])
    else obj o
tool_choice_to_anthropic v = kind_value "auto"

unfoldable pub tool_to_json : IrTool → Value
unfolding put_all
tool_to_json t = obj (
    put_all
      (("name", some (str t.name))
        ∷ ("description", opt_str t.description)
        ∷ ("input_schema", some t.parameters)
        ∷ [])
      no_fields)
