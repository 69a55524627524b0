-- ===== src/Protocol/Gemini/Request.antt =====
-- src/protocol/gemini.rs: the body of a request to the intermediate representation. The model stands in the path of the request.
use nextapi.Base.{
  ◌+++◌, ℕ, ◌^◌, String, Bool, false, not, Option, none, some, List, [], ◌∷◌, ◌++◌, any,
  if◌then◌else◌, or_empty, is_empty_text, is_text, ltb,
}
use nextapi.Base.Json.{
  Value, str, arr, obj, Fields, no_fields, field, as_i64, as_f64, items, get, index, json,
  put_field, Serde,
}
use nextapi.Protocol.Chat.Parts.{text_at, is_none}
use nextapi.Protocol.Chat.Request.{keep_texts}
use nextapi.Protocol.Anthropic.Message.{system_message}
use nextapi.Protocol.Anthropic.Usage.{u64_at}
use nextapi.Protocol.Ir.{
  ConvCtx, degrade, parse, Conv, done, failed, and_then, IrMessage, IrTool, IrRequest, no_ext,
}
use nextapi.Protocol.Gemini.Contents.{CallIds, parse_content}

abbrev pub known_request_fields : List String
known_request_fields =
    "systemInstruction" ∷ "contents" ∷ "generationConfig" ∷ "tools" ∷ "safetySettings" ∷ []

abbrev pub is_unknown : String → Bool
is_unknown k = not (any (λ j. is_text k j) known_request_fields)

-- A number of 32 bits; a larger one is noted.
abbrev pub u32_or_note : (item reason : String) → Option ℕ → ConvCtx → ConvCtx × Option ℕ
u32_or_note item reason none ctx = (ctx, none)
u32_or_note item reason (some k) ctx =
    if ltb k (2 ^ 32) then (ctx, some k) else (degrade item reason ctx, none)

abbrev stop_of : Option Value → ConvCtx → ConvCtx × Option (List String)
stop_of none ctx = (ctx, none)
stop_of (some (arr xs)) ctx = (ctx, some (keep_texts (items xs)))
stop_of (some v) ctx = (degrade "generationConfig.stopSequences" "stopSequences 非数组，忽略" ctx, none)

abbrev unmapped : List String
unmapped =
    "presencePenalty" ∷ "frequencyPenalty" ∷ "responseLogprobs" ∷ "logprobs" ∷ "topLogprobs"
    ∷ "thinkingConfig" ∷ "mediaResolution" ∷ []

unfoldable pub note_unmapped : List String → Value → ConvCtx → ConvCtx
note_unmapped [] gc ctx = ctx
note_unmapped (k ∷ ks) gc ctx = note_unmapped ks gc (
    if is_none (get k gc)
    then ctx
    else degrade ("generationConfig." +++ k) ("generationConfig." +++ k +++ " 无 IR 槽位，丢弃") ctx)

abbrev schema_format : Option Value → Value
schema_format none = json (("type", str "json_object") ∷ [])
schema_format (some s) = json (
    ("type", str "json_schema")
    ∷ ("json_schema", json (("name", str "response") ∷ ("schema", s) ∷ []))
    ∷ [])

abbrev is_json : Option String → Bool
is_json none = false
is_json (some s) = is_text s "application/json"

unfoldable pub format_of : Value → Option Value
format_of gc =
    if is_json (text_at gc "responseMimeType")
    then some (schema_format (get "responseSchema" gc))
    else none

unfoldable pub parse_generation_config : Serde → Value → IrRequest → ConvCtx → ConvCtx × IrRequest
unfolding note_unmapped format_of
parse_generation_config serde (obj o) req ctx =
    let gc = obj o in
    let (ctx₁, top_k) =
      u32_or_note "generationConfig.topK" "topK 超出 u32 范围，丢弃" (u64_at gc "topK") ctx in
    let (ctx₂, stop) = stop_of (get "stopSequences" gc) ctx₁ in
    let (ctx₃, n) =
      u32_or_note "generationConfig.candidateCount" "超出 u32 范围，丢弃" (u64_at gc "candidateCount")
        ctx₂ in
    (
      note_unmapped unmapped gc ctx₃,
      record req {
        max_tokens = u64_at gc "maxOutputTokens";
        temperature = as_f64 serde (index gc "temperature");
        top_p = as_f64 serde (index gc "topP");
        ext = record no_ext { top_k = top_k };
        stop = stop;
        n = n;
        seed = as_i64 (index gc "seed");
        response_format = format_of gc;
      },
    )
parse_generation_config serde v req ctx =
    (degrade "generationConfig" "generationConfig 非对象，忽略" ctx, req)

abbrev or_object : Option Value → Value
or_object none = obj no_fields
or_object (some v) = v

abbrev functions : List Value → List IrTool
functions [] = []
functions (f ∷ fs) =
    record {
      name = or_empty (text_at f "name");
      description = text_at f "description";
      parameters = or_object (get "parameters" f);
    }
    ∷ functions fs

abbrev tools_in : Value → Option Value → ConvCtx → ConvCtx × List IrTool
tools_in t (some (arr xs)) ctx = (ctx, functions (items xs))
tools_in t _ ctx =
    (degrade "tools" ("非 functionDeclarations 工具，丢弃: " +++ or_empty (text_at t "type")) ctx, [])

unfoldable pub parse_tool_list : List Value → ConvCtx → ConvCtx × List IrTool
parse_tool_list [] ctx = (ctx, [])
parse_tool_list (t ∷ ts) ctx =
    let (ctx₁, here) = tools_in t (get "functionDeclarations" t) ctx in
    let (ctx₂, rest) = parse_tool_list ts ctx₁ in (ctx₂, here ++ rest)

unfoldable pub parse_tools : Value → ConvCtx → ConvCtx × Conv (List IrTool)
unfolding parse_tool_list
parse_tools (arr xs) ctx = let (ctx₁, ts) = parse_tool_list (items xs) ctx in (ctx₁, done ts)
parse_tools v ctx = (ctx, failed (parse "tools 不是数组"))

unfoldable pub system_texts : List Value → ConvCtx → ConvCtx × String
system_texts [] ctx = (ctx, "")
system_texts (p ∷ ps) ctx = elim (text_at p "text") [
  | some s ↦ let (ctx₁, rest) = system_texts ps ctx in (ctx₁, s +++ rest)
  | none ↦ system_texts ps (degrade "systemInstruction.part" "非 text part，忽略" ctx)
]

unfoldable pub collect_system_text : Value → ConvCtx → ConvCtx × String
unfolding system_texts
collect_system_text (arr xs) ctx = system_texts (items xs) ctx
collect_system_text v ctx = (ctx, or_empty (text_at v "text"))

abbrev instruction_text : Value → Option Value → ConvCtx → ConvCtx × String
instruction_text si none ctx = (ctx, or_empty (text_at si "text"))
instruction_text si (some ps) ctx = collect_system_text ps ctx

abbrev system_part : Option Value → ConvCtx → ConvCtx × List IrMessage
system_part none ctx = (ctx, [])
system_part (some si) ctx =
    let (ctx₁, s) = instruction_text si (get "parts" si) ctx in
    (ctx₁, if is_empty_text s then [] else system_message s)

abbrev behind : List IrMessage → ConvCtx × Conv (List IrMessage) → ConvCtx × Conv (List IrMessage)
behind ms (ctx, failed e) = (ctx, failed e)
behind ms (ctx, done rest) = (ctx, done (ms ++ rest))

-- The contents one after the other, with the identifiers that wait.
unfoldable pub parse_contents :
    Serde → List Value → CallIds → ConvCtx → ConvCtx × Conv (List IrMessage)
unfolding parse_content
parse_contents serde [] ids ctx = (ctx, done [])
parse_contents serde (c ∷ cs) ids ctx =
    let (ctx₁, r) = parse_content serde c ids ctx in
    elim r [
      | failed e ↦ (ctx₁, failed e)
      | done (ids₁, ms) ↦ behind ms (parse_contents serde cs ids₁ ctx₁)
    ]

abbrev contents_of : Serde → Option Value → ConvCtx → ConvCtx × Conv (List IrMessage)
contents_of serde none ctx = (ctx, done [])
contents_of serde (some (arr xs)) ctx = parse_contents serde (items xs) [] ctx
contents_of serde (some v) ctx = (ctx, failed (parse "contents 不是数组"))

abbrev tools_of : Option Value → ConvCtx → ConvCtx × Conv (List IrTool)
tools_of none ctx = (ctx, done [])
tools_of (some v) ctx = parse_tools v ctx

abbrev config_of : Serde → Option Value → IrRequest → ConvCtx → ConvCtx × IrRequest
config_of serde none req ctx = (ctx, req)
config_of serde (some gc) req ctx = parse_generation_config serde gc req ctx

-- `insert` of every field that passes.
unfoldable pub put_unknown : Fields → Fields → Fields
put_unknown no_fields e = e
put_unknown (field k v r) e = put_unknown r (if is_unknown k then put_field k v e else e)

abbrev safety : Option Value → Fields
safety none = no_fields
safety (some v) = put_field "safetySettings" v no_fields

abbrev start : List IrMessage → IrRequest
start ms = record {
  model = "";
  messages = ms;
  tools = [];
  tool_choice = none;
  temperature = none;
  top_p = none;
  max_tokens = none;
  max_tokens_name = none;
  stop = none;
  stream = false;
  stream_include_usage = false;
  response_format = none;
  seed = none;
  user_name = none;
  n = none;
  ext = no_ext;
  extra = no_fields;
}

unfoldable pub request_to_ir : Serde → Value → ConvCtx → ConvCtx × Conv IrRequest
unfolding collect_system_text parse_contents parse_generation_config parse_tools put_unknown
request_to_ir serde (obj o) ctx =
    let v = obj o in
    let (ctx₁, first) = system_part (get "systemInstruction" v) ctx in
    and_then (contents_of serde (get "contents" v) ctx₁) (λ ms ctx₂.
      let (ctx₃, req) = config_of serde (get "generationConfig" v) (start (first ++ ms)) ctx₂ in
      and_then (tools_of (get "tools" v) ctx₃) (λ ts ctx₄. (
        ctx₄,
        done (record req { tools = ts; extra = put_unknown o (safety (get "safetySettings" v)) }),
      )))
request_to_ir serde v ctx = (ctx, failed (parse "请求体不是对象"))
