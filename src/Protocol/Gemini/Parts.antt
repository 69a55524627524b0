-- ===== src/Protocol/Gemini/Parts.antt =====
-- src/protocol/gemini.rs: the parts of a content, to and from the intermediate representation.
use nextapi.Base.{
  ◌+++◌, String, Bool, true, false, Option, none, some, List, [], ◌∷◌, ◌++◌, map, if◌then◌else◌,
  strip_text, or_empty, is_empty_text, is_blank, is_text,
}
use nextapi.Base.Json.{
  Value, null, bool, str, obj, Fields, no_fields, index, as_bool, json, put_field, put_all, Serde,
}
use nextapi.Protocol.Chat.Parts.{text_at, opt_str}
use nextapi.Protocol.Ir.{
  ConvCtx, degrade, IrRole, system, user, assistant, tool, IrPart, text, image_url, image_inline,
  input_audio, file, IrContent, plain, parts,
}

unfoldable pub args_to_string : Serde → Value → String
args_to_string serde null = ""
args_to_string serde v = serde.print v

unfoldable pub args_string_to_value : Serde → String → (item : String) → ConvCtx → ConvCtx × Value
args_string_to_value serde args item ctx =
    if is_blank args then (ctx, obj no_fields) else elim (serde.read args) [
      | some v ↦ (ctx, v)
      | none ↦ (degrade item "arguments 非合法 JSON，按字符串携带" ctx, str args)
    ]

unfoldable pub parse_role : Option String → ConvCtx → ConvCtx × IrRole
parse_role none ctx = (ctx, user)
parse_role (some r) ctx =
    if is_text r "user"
    then (ctx, user)
    else if is_text r "model"
    then (ctx, assistant)
    else if is_text r "system"
    then (ctx, assistant)
    else if is_text r "assistant"
    then (ctx, assistant)
    else (degrade "content.role" ("未知角色按 user 处理: " +++ r) ctx, user)

unfoldable pub role_to_text : IrRole → String
role_to_text assistant = "model"
role_to_text user = "user"
role_to_text tool = "user"
role_to_text system = "user"

abbrev pub is_thought : Value → Bool
is_thought p = elim (as_bool (index p "thought")) [ none ↦ false | some b ↦ b ]

-- An image, or nothing for what is of another type.
unfoldable pub image_of : (item : String) → Value → ConvCtx → ConvCtx × List IrPart
image_of item id ctx =
    let mime = or_empty (text_at id "mimeType") in
    let found = image_inline mime (or_empty (text_at id "data")) ∷ [] in
    if is_empty_text mime then (ctx, found) else elim (strip_text "image/" mime) [
      | some rest ↦ (ctx, found)
      | none ↦ (degrade item ("非图片 inlineData（" +++ mime +++ "）无 IR 槽位，丢弃") ctx, [])
    ]

abbrev non_empty : String → Option String
non_empty s = if is_empty_text s then none else some s

unfoldable pub file_of : Value → IrPart
file_of fd =
    file (or_empty (text_at fd "displayName")) (non_empty (or_empty (text_at fd "fileUri")))
      (text_at fd "data")

-- A single text becomes a plain content.
unfoldable pub content_of : List String → List IrPart → Option IrContent
content_of [] [] = none
content_of (s ∷ []) [] = some (plain s)
content_of ts media = some (parts (map text ts ++ media))

abbrev text_part : String → Value
text_part s = json (("text", str s) ∷ [])

abbrev pub thought_part : String → Value
thought_part s = json (("text", str s) ∷ ("thought", bool true) ∷ [])

abbrev pub call_part : String → Value → Value
call_part name args = json (("functionCall", json (("name", str name) ∷ ("args", args) ∷ [])) ∷ [])

abbrev file_part : Fields → Value
file_part fd = json (("fileData", obj fd) ∷ [])

unfoldable pub part_to_json : IrPart → ConvCtx → ConvCtx × Option Value
unfolding put_field put_all
part_to_json (text s) ctx = (ctx, some (text_part s))
part_to_json (image_inline media payload) ctx = (
  ctx,
  some (json (("inlineData", json (("mimeType", str media) ∷ ("data", str payload) ∷ [])) ∷ [])),
)
part_to_json (image_url url) ctx = (
  degrade "image_url" "Gemini 需内联数据，URL 图片需上层受控下载" ctx,
  some (json (("fileData", json (("fileUri", str url) ∷ [])) ∷ [])),
)
part_to_json (file name url payload) ctx = (
  ctx,
  some (
      file_part (
        put_all
          (("fileUri", opt_str url)
            ∷ ("data", opt_str payload)
            ∷ ("displayName", opt_str (non_empty name))
            ∷ [])
          no_fields)),
)
part_to_json (input_audio payload format) ctx = (degrade "input_audio" "Gemini 不支持音频" ctx, none)

abbrev cons_part : Option Value → List Value → List Value
cons_part none ps = ps
cons_part (some p) ps = p ∷ ps

unfoldable pub parts_to_json : List IrPart → ConvCtx → ConvCtx × List Value
unfolding part_to_json
parts_to_json [] ctx = (ctx, [])
parts_to_json (p ∷ ps) ctx =
    let (ctx₁, one) = part_to_json p ctx in
    let (ctx₂, rest) = parts_to_json ps ctx₁ in (ctx₂, cons_part one rest)

-- An empty text has no part.
unfoldable pub content_parts : Option IrContent → ConvCtx → ConvCtx × List Value
unfolding parts_to_json
content_parts none ctx = (ctx, [])
content_parts (some (plain s)) ctx = (ctx, if is_empty_text s then [] else text_part s ∷ [])
content_parts (some (parts ps)) ctx = parts_to_json ps ctx

abbrev pub opt_thought : Option String → List Value
opt_thought none = []
opt_thought (some s) = thought_part s ∷ []
