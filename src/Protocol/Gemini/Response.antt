-- ===== src/Protocol/Gemini/Response.antt =====
-- src/protocol/gemini.rs: the response that comes whole, to and from the intermediate representation.
use Prim.Native.Char.{Char}
use nextapi.Base.{
  ◌+++◌, ℕ, suc, ◌%◌, ◌^◌, pos, String, Bool, not, Option, none, some, List, [], ◌∷◌, ◌++◌, any,
  if◌then◌else◌, or_empty, is_text, eqb,
}
use nextapi.Base.Json.{
  Value, str, arr, obj, Fields, no_fields, field, as_u64, items, get, index, put_some, put_field,
  array, Serde,
}
use nextapi.Protocol.Finish.{lower_by, letters, normalize_finish_reason}
use nextapi.Protocol.Chat.Parts.{text_at}
use nextapi.Protocol.Chat.Request.{to_u32}
use nextapi.Protocol.Chat.Usage.{u64_value, without}
use nextapi.Protocol.Chat.Response.{no_message}
use nextapi.Protocol.Ir.{
  ConvCtx, degrade, parse, Conv, done, failed, assistant, IrPart, IrToolCall, IrMessage, IrUsage,
  IrChoice, IrResponse,
}
use nextapi.Protocol.Gemini.Parts.{
  args_to_string, args_string_to_value, is_thought, image_of, content_of, content_parts,
  opt_thought, call_part,
}
use nextapi.Protocol.Gemini.Usage.{parse_usage_metadata, usage_metadata_to_json}

-- `to_ascii_uppercase`
abbrev swapped : List (Char × Char) → List (Char × Char)
swapped [] = []
swapped ((u, l) ∷ r) = (l, u) ∷ swapped r

unfoldable pub to_upper : String → String
unfolding lower_by
to_upper String.[] = String.[]
to_upper (String.◌∷◌ c s) = String.◌∷◌ (lower_by (swapped letters) c) (to_upper s)

unfoldable pub reverse_finish_reason : String → String
unfolding to_upper
reverse_finish_reason fr =
    if is_text fr "stop"
    then "STOP"
    else if is_text fr "length"
    then "MAX_TOKENS"
    else if is_text fr "tool_calls"
    then "STOP"
    else if is_text fr "content_filter"
    then "SAFETY"
    else to_upper fr

-- What the loop over the parts of a candidate gathers.
pub record Found : Type 0 where
  pub texts : List String
  pub media : List IrPart
  pub calls : List IrToolCall
  pub reasoning : Option String
  pub seq : ℕ

abbrev add_text : Value → String → Found → Found
add_text p s g =
    if is_thought p
    then record g { reasoning = some s }
    else record g { texts = g.texts ++ (s ∷ []) }

abbrev add_call : Serde → Value → Found → Found
add_call serde fc g =
    let name = or_empty (text_at fc "name") in
    record g {
      seq = suc g.seq % 2 ^ 32;
      calls =
          g.calls
          ++ (record {
            id = name +++ "_" +++ serde.int_text (pos g.seq);
            name = name;
            arguments = args_to_string serde (index fc "args");
          }
              ∷ []);
    }

abbrev add_image : ConvCtx × List IrPart → Found → ConvCtx × Found
add_image (ctx, found) g = (ctx, record g { media = g.media ++ found })

abbrev add_other : Serde → (image call : Option Value) → Found → ConvCtx → ConvCtx × Found
add_other serde (some id) call g ctx = add_image (image_of "response.content.inlineData" id ctx) g
add_other serde none (some fc) g ctx = (ctx, add_call serde fc g)
add_other serde none none g ctx = (degrade "response.content.part" "未知响应 part 结构，丢弃" ctx, g)

abbrev add_known : Serde → Value → Option String → Found → ConvCtx → ConvCtx × Found
add_known serde p (some s) g ctx = (ctx, add_text p s g)
add_known serde p none g ctx = add_other serde (get "inlineData" p) (get "functionCall" p) g ctx

unfoldable pub add_response_parts : Serde → List Value → Found → ConvCtx → ConvCtx × Found
unfolding image_of args_to_string
add_response_parts serde [] g ctx = (ctx, g)
add_response_parts serde (p ∷ ps) g ctx =
    let (ctx₁, g₁) = add_known serde p (text_at p "text") g ctx in
    add_response_parts serde ps g₁ ctx₁

abbrev parts_of : Option Value → List Value
parts_of (some (arr xs)) = items xs
parts_of _ = []

abbrev no_found : Found
no_found = record { texts = []; media = []; calls = []; reasoning = none; seq = 0 }

unfoldable pub parse_response_content : Serde → Value → ConvCtx → ConvCtx × IrMessage
unfolding add_response_parts content_of
parse_response_content serde content ctx =
    let (ctx₁, g) = add_response_parts serde (parts_of (get "parts" content)) no_found ctx in
    (
      ctx₁,
      record no_message {
        role = assistant;
        content = content_of g.texts g.media;
        tool_calls = g.calls;
        reasoning_content = g.reasoning;
      },
    )

-- A candidate without content is an empty message of the assistant.
abbrev message_of : Serde → Option Value → ConvCtx → ConvCtx × IrMessage
message_of serde none ctx = (ctx, record no_message { role = assistant })
message_of serde (some content) ctx = parse_response_content serde content ctx

abbrev finish_at : Option String → Option String
finish_at none = none
finish_at (some s) = some (normalize_finish_reason s)

abbrev or_place : ℕ → Option ℕ → ℕ
or_place i none = i
or_place i (some n) = n

abbrev keep_finish : ℕ → Option String → Fields → Fields
keep_finish i none extra = extra
keep_finish i (some s) extra =
    if eqb i 0 then put_field "gemini_finish_reason" (str s) extra else extra

-- The candidates, with their place as the index where they have none.
unfoldable pub parse_candidates :
    Serde → List Value → (place : ℕ) → Fields → ConvCtx → ConvCtx × (Fields × List IrChoice)
unfolding parse_response_content
parse_candidates serde [] i extra ctx = (ctx, (extra, []))
parse_candidates serde (c ∷ cs) i extra ctx =
    let reason = text_at c "finishReason" in
    let (ctx₁, m) = message_of serde (get "content" c) ctx in
    let (ctx₂, (extra₁, rest)) =
      parse_candidates serde cs (suc i) (keep_finish i reason extra) ctx₁ in
    let index = or_place (i % 2 ^ 32) (to_u32 (as_u64 (index c "index"))) in
    (ctx₂, (extra₁, record { index = index; message = m; finish_reason = finish_at reason } ∷ rest))

abbrev candidates_of : Serde → Option Value → ConvCtx → ConvCtx × Conv (Fields × List IrChoice)
candidates_of serde none ctx = (ctx, done (no_fields, []))
candidates_of serde (some (arr xs)) ctx =
    let (ctx₁, r) = parse_candidates serde (items xs) 0 no_fields ctx in (ctx₁, done r)
candidates_of serde (some v) ctx = (ctx, failed (parse "candidates 不是数组"))

abbrev pub is_other : String → Bool
is_other k = not (any (λ j. is_text k j) ("candidates" ∷ "usageMetadata" ∷ []))

-- `insert` of every field that passes.
unfoldable pub put_other : Fields → Fields → Fields
put_other no_fields e = e
put_other (field k v r) e = put_other r (if is_other k then put_field k v e else e)

abbrev pub usage_of : Option Value → Option IrUsage
usage_of none = none
usage_of (some u) = some (parse_usage_metadata u)

abbrev with_candidates :
    Fields → ConvCtx × Conv (Fields × List IrChoice) → ConvCtx × Conv IrResponse
with_candidates o (ctx, failed e) = (ctx, failed e)
with_candidates o (ctx, done (extra, cs)) = (
  ctx,
  done (record {
    id = "";
    model = "";
    created = pos 0;
    choices = cs;
    usage = usage_of (get "usageMetadata" (obj o));
    system_fingerprint = none;
    extra = put_other o extra;
  }),
)

unfoldable pub response_to_ir : Serde → Value → ConvCtx → ConvCtx × Conv IrResponse
unfolding parse_candidates put_other parse_usage_metadata
response_to_ir serde (obj o) ctx =
    with_candidates o (candidates_of serde (get "candidates" (obj o)) ctx)
response_to_ir serde v ctx = (ctx, failed (parse "响应体不是对象"))

-- The calls of a message as parts.
unfoldable pub call_parts : Serde → List IrToolCall → ConvCtx → ConvCtx × List Value
unfolding args_string_to_value
call_parts serde [] ctx = (ctx, [])
call_parts serde (tc ∷ tcs) ctx =
    let (ctx₁, args) = args_string_to_value serde tc.arguments "tool_call.arguments" ctx in
    let (ctx₂, rest) = call_parts serde tcs ctx₁ in (ctx₂, call_part tc.name args ∷ rest)

unfoldable pub message_to_response_parts : Serde → IrMessage → ConvCtx → ConvCtx × List Value
unfolding content_parts call_parts
message_to_response_parts serde m ctx =
    let (ctx₁, content) = content_parts m.content ctx in
    let (ctx₂, calls) = call_parts serde m.tool_calls ctx₁ in
    (ctx₂, opt_thought m.reasoning_content ++ content ++ calls)

abbrev some_parts : List Value → Option Value
some_parts [] = none
some_parts (p ∷ ps) = some (array (p ∷ ps))

abbrev opt_finish : Option String → Option Value
opt_finish none = none
opt_finish (some fr) = some (str (reverse_finish_reason fr))

abbrev candidate : IrChoice → List Value → Value
candidate ch ps = obj (
    put_some "finishReason" (opt_finish ch.finish_reason) (
      put_field "index" (u64_value ch.index) (
        put_field "content"
          (obj (put_some "parts" (some_parts ps) (put_field "role" (str "model") no_fields)))
          no_fields)))

unfoldable pub candidates_to_json : Serde → List IrChoice → ConvCtx → ConvCtx × List Value
unfolding message_to_response_parts reverse_finish_reason put_field
candidates_to_json serde [] ctx = (ctx, [])
candidates_to_json serde (ch ∷ chs) ctx =
    let (ctx₁, ps) = message_to_response_parts serde ch.message ctx in
    let (ctx₂, rest) = candidates_to_json serde chs ctx₁ in (ctx₂, candidate ch ps ∷ rest)

abbrev write_usage : Option IrUsage → ConvCtx → ConvCtx × Option Value
write_usage none ctx = (ctx, none)
write_usage (some u) ctx = let (ctx₁, v) = usage_metadata_to_json u ctx in (ctx₁, some v)

unfoldable pub response_from_ir : Serde → IrResponse → ConvCtx → ConvCtx × Conv Value
unfolding candidates_to_json usage_metadata_to_json put_field
response_from_ir serde r ctx =
    let (ctx₁, cs) = candidates_to_json serde r.choices ctx in
    let (ctx₂, usage) = write_usage r.usage ctx₁ in
    (
      ctx₂,
      done (
          obj (
            put_some "usageMetadata" usage
              (put_field "candidates" (array cs) (without "gemini_finish_reason" r.extra)))),
    )
