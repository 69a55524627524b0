-- ===== src/Protocol/Gemini/Body.antt =====
-- src/protocol/gemini.rs: the body of a request from the intermediate representation.
use nextapi.Base.{
  String, Bool, true, false, Option, none, some, List, [], ◌∷◌, ◌++◌, map, if◌then◌else◌, or_empty,
  first_of, is_empty_text, is_blank, is_text,
}
use nextapi.Base.Json.{
  Value, null, str, float, obj, Fields, no_fields, field, get, json, put_all, array, Serde,
}
use nextapi.Protocol.Chat.Parts.{text_at, opt_str}
use nextapi.Protocol.Chat.Tools.{on_some}
use nextapi.Protocol.Chat.Usage.{u64_value, without}
use nextapi.Protocol.Ir.{
  ConvCtx, degrade, Conv, done, IrRole, system, user, assistant, tool, IrPart, text, image_url,
  image_inline, input_audio, file, IrContent, plain, parts, IrTool, IrMessage, IrRequest,
}
use nextapi.Protocol.Gemini.Parts.{role_to_text, content_parts, opt_thought}
use nextapi.Protocol.Gemini.Response.{call_parts}

unfoldable pub tool_to_json : IrTool → Value
unfolding put_all
tool_to_json t = obj (
    put_all
      (("name", some (str t.name))
        ∷ ("description", opt_str t.description)
        ∷ ("parameters", some t.parameters)
        ∷ [])
      no_fields)

-- What a text of a response stands for; an empty one is null.
unfoldable pub response_value : Serde → String → ConvCtx → ConvCtx × Value
response_value serde s ctx = if is_blank s then (ctx, null) else elim (serde.read s) [
  | some v ↦ (ctx, v)
  | none ↦ (degrade "tool_response_json" "functionResponse 内容非合法 JSON，按字符串携带" ctx, str s)
]

-- `content_text` is the text that serde gives of a content with parts.
unfoldable pub response_content_to_value :
    Serde → (content_text : List IrPart → String) → Option IrContent → ConvCtx → ConvCtx × Value
unfolding response_value
response_content_to_value serde content_text none ctx = response_value serde "" ctx
response_content_to_value serde content_text (some (plain s)) ctx = response_value serde s ctx
response_content_to_value serde content_text (some (parts ps)) ctx =
    response_value serde (content_text ps)
      (degrade "tool_response_content" "functionResponse 内容非纯文本，序列化处理" ctx)

abbrev note_name : Option String → ConvCtx → ConvCtx
note_name (some s) ctx = ctx
note_name none ctx =
    degrade "tool_response_name" "Gemini functionResponse 需函数名，使用 tool_call_id 代替" ctx

abbrev response_part : String → Value → Value
response_part name response =
    json (("functionResponse", json (("name", str name) ∷ ("response", response) ∷ [])) ∷ [])

-- The parts of a message by its role.
unfoldable pub message_parts :
    Serde → (List IrPart → String) → IrRole → IrMessage → ConvCtx → ConvCtx × List Value
unfolding response_content_to_value content_parts call_parts
message_parts serde content_text system m ctx = (ctx, [])
message_parts serde content_text tool m ctx =
    let (ctx₁, response) =
      response_content_to_value serde content_text m.content (note_name m.name ctx) in
    (ctx₁, response_part (or_empty (first_of m.name m.tool_call_id)) response ∷ [])
message_parts serde content_text user m ctx =
    let (ctx₁, content) = content_parts m.content ctx in
    let (ctx₂, calls) = call_parts serde m.tool_calls ctx₁ in
    (ctx₂, content ++ opt_thought m.reasoning_content ++ calls)
message_parts serde content_text assistant m ctx =
    let (ctx₁, content) = content_parts m.content ctx in
    let (ctx₂, calls) = call_parts serde m.tool_calls ctx₁ in
    (ctx₂, content ++ opt_thought m.reasoning_content ++ calls)

-- A message without parts is dropped.
abbrev content_with : IrRole → List Value → List Value
content_with role [] = []
content_with role (p ∷ ps) =
    json (("role", str (role_to_text role)) ∷ ("parts", array (p ∷ ps)) ∷ []) ∷ []

unfoldable pub contents_to_json :
    Serde → (List IrPart → String) → List IrMessage → ConvCtx → ConvCtx × List Value
unfolding message_parts role_to_text
contents_to_json serde content_text [] ctx = (ctx, [])
contents_to_json serde content_text (m ∷ ms) ctx =
    let (ctx₁, ps) = message_parts serde content_text m.role m ctx in
    let (ctx₂, rest) = contents_to_json serde content_text ms ctx₁ in
    (ctx₂, content_with m.role ps ++ rest)

abbrev text_parts : String → List Value
text_parts s = if is_empty_text s then [] else json (("text", str s) ∷ []) ∷ []

abbrev note_part : ConvCtx → ConvCtx
note_part ctx = degrade "systemInstruction.part" "系统提示含非文本 part，忽略" ctx

unfoldable pub system_parts : List IrPart → ConvCtx → ConvCtx × List Value
system_parts [] ctx = (ctx, [])
system_parts (text s ∷ ps) ctx =
    let (ctx₁, rest) = system_parts ps ctx in (ctx₁, text_parts s ++ rest)
system_parts (image_url url ∷ ps) ctx = system_parts ps (note_part ctx)
system_parts (image_inline media payload ∷ ps) ctx = system_parts ps (note_part ctx)
system_parts (input_audio payload format ∷ ps) ctx = system_parts ps (note_part ctx)
system_parts (file name url payload ∷ ps) ctx = system_parts ps (note_part ctx)

unfoldable pub system_msg_to_instruction_parts : IrMessage → ConvCtx → ConvCtx × List Value
unfolding system_parts
system_msg_to_instruction_parts m ctx = elim m.content [
  | none ↦ (ctx, [])
  | some (plain s) ↦ (ctx, text_parts s)
  | some (parts ps) ↦ system_parts ps ctx
]

abbrev if_system : IrRole → ConvCtx × List Value → ConvCtx → ConvCtx × List Value
if_system system r ctx = r
if_system user r ctx = (ctx, [])
if_system assistant r ctx = (ctx, [])
if_system tool r ctx = (ctx, [])

unfoldable pub instruction_parts : List IrMessage → ConvCtx → ConvCtx × List Value
unfolding system_msg_to_instruction_parts
instruction_parts [] ctx = (ctx, [])
instruction_parts (m ∷ ms) ctx =
    let (ctx₁, ps) = if_system m.role (system_msg_to_instruction_parts m ctx) ctx in
    let (ctx₂, rest) = instruction_parts ms ctx₁ in (ctx₂, ps ++ rest)

abbrev some_array : List Value → Option Value
some_array [] = none
some_array (v ∷ vs) = some (array (v ∷ vs))

abbrev instruction : List Value → Option Value
instruction [] = none
instruction (p ∷ ps) = some (json (("parts", array (p ∷ ps)) ∷ []))

abbrev some_object : Fields → Option Value
some_object no_fields = none
some_object (field k v r) = some (obj (field k v r))

abbrev bare_of : Value → Value
bare_of s = elim (get "schema" s) [ none ↦ s | some inner ↦ inner ]

abbrev kind_is : Option Value → String → Bool
kind_is none kind = false
kind_is (some rf) kind = elim (text_at rf "type") [ none ↦ false | some s ↦ is_text s kind ]

abbrev schema_in : Option Value → Option Value
schema_in none = none
schema_in (some rf) = elim (get "json_schema" rf) [ none ↦ none | some s ↦ some (bare_of s) ]

-- The type of the answer, and the bare schema.
unfoldable pub format_fields : Option Value → List (String × Option Value)
format_fields rf =
    let is_schema = kind_is rf "json_schema" in
    let mime = some (str "application/json") in
    (
      "responseMimeType",
      if kind_is rf "json_object" then mime else if is_schema then mime else none,
    )
    ∷ ("responseSchema", if is_schema then schema_in rf else none)
    ∷ []

abbrev pub config_fields : IrRequest → List (String × Option Value)
config_fields req =
    ("maxOutputTokens", on_some u64_value req.max_tokens)
    ∷ ("temperature", on_some float req.temperature)
    ∷ ("topP", on_some float req.top_p)
    ∷ ("topK", on_some u64_value req.ext.top_k)
    ∷ ("stopSequences", on_some (λ l. array (map str l)) req.stop)
    ∷ format_fields req.response_format

abbrev tools_value : List IrTool → Option Value
tools_value [] = none
tools_value (t ∷ ts) =
    some (array (json (("functionDeclarations", array (map tool_to_json (t ∷ ts))) ∷ []) ∷ []))

abbrev note {ℓ} : {A : Type ℓ} → Option A → (item reason : String) → ConvCtx → ConvCtx
note none item reason ctx = ctx
note (some x) item reason ctx = degrade item reason ctx

abbrev note_keys : Fields → ConvCtx → ConvCtx
note_keys no_fields ctx = ctx
note_keys (field k v r) ctx = note_keys r (degrade k "Gemini 无对应字段" ctx)

abbrev note_stream : Bool → ConvCtx → ConvCtx
note_stream false ctx = ctx
note_stream true ctx = degrade "stream" "Gemini 流式经独立端点（streamGenerateContent），body 不含 stream" ctx

unfoldable pub degrade_request : IrRequest → ConvCtx → ConvCtx
degrade_request req ctx = note_keys req.ext.extra (
    note_stream req.stream (
      note req.user_name "user" "Gemini 无 user 字段，忽略" (
        note req.n "n" "Gemini 无 n 字段，忽略" (
          note req.seed "seed" "Gemini 无 seed 字段，忽略"
            (note req.tool_choice "tool_choice" "Gemini 无 tool_choice 字段，忽略" ctx)))))

unfoldable pub request_from_ir :
    Serde → (List IrPart → String) → IrRequest → ConvCtx → ConvCtx × Conv Value
unfolding degrade_request instruction_parts contents_to_json format_fields tool_to_json put_all
request_from_ir serde content_text req ctx =
    let (ctx₁, instructions) = instruction_parts req.messages (degrade_request req ctx) in
    let (ctx₂, contents) = contents_to_json serde content_text req.messages ctx₁ in
    (
      ctx₂,
      done (
          obj (
            put_all
              (("systemInstruction", instruction instructions)
                ∷ ("contents", some_array contents)
                ∷ ("generationConfig", some_object (put_all (config_fields req) no_fields))
                ∷ ("tools", tools_value req.tools)
                ∷ [])
              (without "model" req.extra))),
    )
