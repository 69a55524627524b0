-- ===== src/Protocol/Anthropic/Blocks.antt =====
-- src/protocol/anthropic.rs: the blocks of a content, to and from the intermediate representation.
use nextapi.Base.{◌+++◌, String, Option, none, some, List, [], ◌∷◌, ◌++◌, map, or_empty}
use nextapi.Base.Json.{
  Value, null, str, arr, obj, Fields, no_fields, as_str, items, get_field, json, field, put_some,
  array, Serde,
}
use nextapi.Protocol.Chat.Parts.{text_at, opt_str}
use nextapi.Protocol.Ir.{
  ConvCtx, degrade, IrPart, text, image_url, image_inline, input_audio, file, IrContent, plain,
  parts, IrToolCall, IrMessage,
}

-- A single text becomes a plain content.
unfoldable pub parts_content : List IrPart → Option IrContent
parts_content [] = none
parts_content (text s ∷ []) = some (plain s)
parts_content ps = some (parts ps)

unfoldable pub input_to_arguments : Serde → Value → String
input_to_arguments serde (str s) = s
input_to_arguments serde null = ""
input_to_arguments serde v = serde.print v

-- The texts of the blocks, one behind the other.
unfoldable pub joined_texts : List Value → String
joined_texts [] = ""
joined_texts (b ∷ bs) = or_empty (text_at b "text") +++ joined_texts bs

unfoldable pub tool_result_text : Option Value → String
unfolding joined_texts
tool_result_text (some (str s)) = s
tool_result_text (some (arr xs)) = joined_texts (items xs)
tool_result_text _ = ""

abbrev pub text_block : String → Value
text_block s = json (("type", str "text") ∷ ("text", str s) ∷ [])

abbrev image_block : Value → Value
image_block source = json (("type", str "image") ∷ ("source", source) ∷ [])

unfoldable pub part_to_anth_block : IrPart → ConvCtx → ConvCtx × Option Value
part_to_anth_block (text s) ctx = (ctx, some (text_block s))
part_to_anth_block (image_url url) ctx =
    (ctx, some (image_block (json (("type", str "url") ∷ ("url", str url) ∷ []))))
part_to_anth_block (image_inline media payload) ctx = (
  ctx,
  some (
      image_block
        (json (("type", str "base64") ∷ ("media_type", str media) ∷ ("data", str payload) ∷ []))),
)
part_to_anth_block (input_audio payload format) ctx =
    (degrade "content.input_audio" "Anthropic 不支持音频" ctx, none)
part_to_anth_block (file name url payload) ctx =
    (degrade "content.file" "Anthropic 不支持文件" ctx, none)

abbrev cons_block : Option Value → List Value → List Value
cons_block none bs = bs
cons_block (some b) bs = b ∷ bs

-- The parts that have a block.
unfoldable pub part_blocks : List IrPart → ConvCtx → ConvCtx × List Value
unfolding part_to_anth_block
part_blocks [] ctx = (ctx, [])
part_blocks (p ∷ ps) ctx =
    let (ctx₁, b) = part_to_anth_block p ctx in
    let (ctx₂, bs) = part_blocks ps ctx₁ in (ctx₂, cons_block b bs)

unfoldable pub content_to_anthropic_blocks : IrContent → ConvCtx → ConvCtx × List Value
unfolding part_blocks
content_to_anthropic_blocks (plain s) ctx = (ctx, text_block s ∷ [])
content_to_anthropic_blocks (parts ps) ctx = part_blocks ps ctx

-- A content that may be absent.
abbrev pub opt_blocks : Option IrContent → ConvCtx → ConvCtx × List Value
opt_blocks none ctx = (ctx, [])
opt_blocks (some c) ctx = content_to_anthropic_blocks c ctx

abbrev pub signature_in : Fields → Option String
signature_in extra = elim (get_field "thinking_signature" extra) [ none ↦ none | some v ↦ as_str v ]

-- With the signature that was kept aside.
unfoldable pub thinking_block : String → (extra : Fields) → Value
thinking_block thought extra = obj (
    put_some "signature" (opt_str (signature_in extra))
      (field "type" (str "thinking") (field "thinking" (str thought) no_fields)))

abbrev pub opt_thinking : Option String → Fields → List Value
opt_thinking none extra = []
opt_thinking (some thought) extra = thinking_block thought extra ∷ []

-- The arguments as a value; as their text where they are none.
abbrev pub input_of : Serde → String → Value
input_of serde arguments = elim (serde.read arguments) [ none ↦ str arguments | some v ↦ v ]

abbrev pub tool_use_block : Serde → IrToolCall → Value
tool_use_block serde tc = json (
    ("type", str "tool_use")
    ∷ ("id", str tc.id)
    ∷ ("name", str tc.name)
    ∷ ("input", input_of serde tc.arguments)
    ∷ [])

abbrev result_content : Option IrContent → ConvCtx → ConvCtx × Value
result_content none ctx = (ctx, str "")
result_content (some (plain s)) ctx = (ctx, str s)
result_content (some (parts ps)) ctx = let (ctx₁, bs) = part_blocks ps ctx in (ctx₁, array bs)

unfoldable pub tool_result_block : IrMessage → ConvCtx → ConvCtx × Value
unfolding part_blocks
tool_result_block m ctx =
    let (ctx₁, content) = result_content m.content ctx in
    (
      ctx₁,
      json (
          ("type", str "tool_result")
          ∷ ("tool_use_id", str (or_empty m.tool_call_id))
          ∷ ("content", content)
          ∷ []),
    )

-- The blocks of an assistant: the reasoning, the content, the tool calls.
unfoldable pub assistant_blocks :
    Serde → IrMessage → (extra : Fields) → ConvCtx → ConvCtx × List Value
unfolding thinking_block content_to_anthropic_blocks
assistant_blocks serde m extra ctx =
    let (ctx₁, bs) = opt_blocks m.content ctx in
    (
      ctx₁,
      opt_thinking m.reasoning_content extra
          ++ bs
          ++ map (λ tc. tool_use_block serde tc) m.tool_calls,
    )
