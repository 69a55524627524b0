-- ===== src/Protocol/Chat/Parts.antt =====
-- src/protocol/chat.rs: the parts of a message's content, to and from the intermediate representation.
pub mod Trip
use nextapi.Base.{
  ◌+++◌, ℕ, String, Bool, true, false, ◌&&◌, ◌||◌, not, Option, none, some, List, [], ◌∷◌, map,
  if◌then◌else◌, cut_at, strip_text, or_empty, first_of, is_empty_text, is_text,
}
use nextapi.Base.Json.{
  Value, null, str, arr, obj, Fields, no_fields, as_str, as_array, items, get, get_field, index,
  put_field, put_some, array, is_object, is_null, Serde,
}
use nextapi.Protocol.Ir.{
  ConvCtx, degrade, ConvertError, parse, Conv, done, failed, IrRole, system, user, assistant, tool,
  IrPart, text, image_url, image_inline, input_audio, file, IrContent, plain, parts, IrToolCall,
  IrMessage,
}

abbrev pub media_default : String
media_default = "application/octet-stream"

abbrev after_comma : String → String → String × String
after_comma media s = elim (cut_at b',' s) [
  | none ↦ (media, s)
  | some (x, payload) ↦ (media, payload)
]

unfoldable pub split_data_url : String → String × String
split_data_url rest = elim (cut_at b';' rest) [
  | some (media, after) ↦ after_comma media after
  | none ↦ after_comma media_default rest
]

-- The part that a URL stands for.
unfoldable pub image_of : String → ConvCtx → ConvCtx × Option IrPart
unfolding split_data_url
image_of url ctx =
    if is_empty_text url
    then (degrade "content.image_url" "image_url 缺 url" ctx, none)
    else elim (strip_text "data:" url) [
      | some rest ↦
          let (media, payload) = split_data_url rest in (ctx, some (image_inline media payload))
      | none ↦ (ctx, some (image_url url))
    ]

abbrev has_detail : Fields → Bool
has_detail o = elim (get_field "detail" o) [ none ↦ false | some d ↦ not (is_null d) ]

abbrev text_of : Option Value → Option String
text_of none = none
text_of (some v) = as_str v

unfoldable pub parse_image_url : Value → ConvCtx → ConvCtx × Option IrPart
unfolding image_of
parse_image_url (str s) ctx = image_of s ctx
parse_image_url (obj o) ctx =
    image_of (or_empty (text_of (get_field "url" o)))
      (if has_detail o then degrade "content.image_url.detail" "image detail 不支持，丢弃" ctx else ctx)
parse_image_url v ctx = (degrade "content.image_url" "image_url 既非字符串也非对象" ctx, none)

abbrev pub text_at : Value → String → Option String
text_at v k = as_str (index v k)

abbrev pub is_none {ℓ} : {A : Type ℓ} → Option A → Bool
is_none none = true
is_none (some _) = false

unfoldable pub parse_file : Value → ConvCtx → ConvCtx × Option IrPart
parse_file f ctx =
    if not (is_object f)
    then (degrade "content.file" "file part 非对象" ctx, none)
    else (let name = or_empty (
          first_of (first_of (text_at f "file_name") (text_at f "filename"))
            (text_at f "file_id")) in
        let url = first_of (text_at f "file_url") (text_at f "url") in
        let payload = first_of (text_at f "file_data") (text_at f "data") in
        if is_empty_text name && is_none url && is_none payload
        then (degrade "content.file" "file part 无内容" ctx, none)
        else (ctx, some (file name url payload)))

unfoldable pub parse_part : Value → ConvCtx → ConvCtx × Option IrPart
unfolding parse_image_url parse_file
parse_part p ctx =
    if not (is_object p)
    then (degrade "content.part" "content part 非对象" ctx, none)
    else (let kind = or_empty (text_at p "type") in
        if is_text kind "text"
        then (ctx, some (text (or_empty (text_at p "text"))))
        else if is_text kind "image_url"
        then parse_image_url (index p "image_url") ctx
        else if is_text kind "input_audio"
        then (let audio = index p "input_audio" in
            (
              ctx,
              some (
                  input_audio (or_empty (text_at audio "data"))
                    (or_empty (text_at audio "format"))),
            ))
        else if is_text kind "file"
        then parse_file (index p "file") ctx
        else (degrade "content.part.type" ("未知 part 类型: " +++ kind) ctx, none))

abbrev cons_some {ℓ} : {A : Type ℓ} → Option A → List A → List A
cons_some none xs = xs
cons_some (some x) xs = x ∷ xs

-- The loops that push what a parser gives.
unfoldable pub parse_all {ℓ} :
    {A : Type ℓ} → (Value → ConvCtx → ConvCtx × Option A) → List Value → ConvCtx → ConvCtx × List A
parse_all f [] ctx = (ctx, [])
parse_all f (v ∷ vs) ctx =
    let (ctx₁, one) = f v ctx in
    let (ctx₂, rest) = parse_all f vs ctx₁ in (ctx₂, cons_some one rest)

abbrev cons_done {ℓ} : {A : Type ℓ} → A → ConvCtx × Conv (List A) → ConvCtx × Conv (List A)
cons_done x (ctx, done xs) = (ctx, done (x ∷ xs))
cons_done x (ctx, failed e) = (ctx, failed e)

-- The loops that push what a parser gives and end at the first that fails.
unfoldable pub parse_each {ℓ} :
    {A : Type ℓ}
    → (Value → ConvCtx → ConvCtx × Conv A)
    → List Value
    → ConvCtx
    → ConvCtx × Conv (List A)
parse_each f [] ctx = (ctx, done [])
parse_each f (v ∷ vs) ctx =
    let (ctx₁, r) = f v ctx in
    elim r [ failed e ↦ (ctx₁, failed e) | done x ↦ cons_done x (parse_each f vs ctx₁) ]

abbrev pub non_empty_parts : List IrPart → Option IrContent
non_empty_parts [] = none
non_empty_parts (p ∷ ps) = some (parts (p ∷ ps))

unfoldable pub parse_content : Option Value → ConvCtx → ConvCtx × Option IrContent
unfolding parse_part parse_all
parse_content none ctx = (ctx, none)
parse_content (some null) ctx = (ctx, none)
parse_content (some (str s)) ctx = (ctx, some (plain s))
parse_content (some (arr vs)) ctx =
    let (ctx₁, ps) = parse_all parse_part (items vs) ctx in (ctx₁, non_empty_parts ps)
parse_content (some v) ctx = (degrade "message.content" "未知内容结构，丢弃" ctx, none)

abbrev pub tagged : String → Fields → Value
tagged kind fs = obj (put_field "type" (str kind) fs)

abbrev pub opt_str : Option String → Option Value
opt_str none = none
opt_str (some s) = some (str s)

unfoldable pub part_to_json : IrPart → Value
unfolding put_field
part_to_json (text s) = tagged "text" (put_field "text" (str s) no_fields)
part_to_json (image_url url) =
    tagged "image_url" (put_field "image_url" (obj (put_field "url" (str url) no_fields)) no_fields)
part_to_json (image_inline media payload) =
    tagged "image_url"
      (put_field "image_url" (str ("data:" +++ media +++ ";base64," +++ payload)) no_fields)
part_to_json (input_audio payload format) = tagged "input_audio" (
    put_field "input_audio"
      (obj (put_field "format" (str format) (put_field "data" (str payload) no_fields))) no_fields)
part_to_json (file name url payload) =
    let f₀ = if is_empty_text name then no_fields else put_field "file_name" (str name) no_fields in
    let f₁ = put_some "file_data" (opt_str payload) (put_some "file_url" (opt_str url) f₀) in
    tagged "file" (put_field "file" (obj f₁) no_fields)

unfoldable pub content_to_json : IrContent → Value
unfolding part_to_json
content_to_json (plain s) = str s
content_to_json (parts ps) = array (map part_to_json ps)

abbrev pub opt_content : Option IrContent → Option Value
opt_content none = none
opt_content (some c) = some (content_to_json c)
