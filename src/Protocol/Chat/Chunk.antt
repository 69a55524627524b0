-- ===== src/Protocol/Chat/Chunk.antt =====
-- src/protocol/chat.rs: the chunks of a streamed response, to and from the intermediate representation.
pub mod Trip
pub mod Line
use nextapi.Base.{
  String, Bool, not, Option, none, some, List, [], ◌∷◌, map, any, or_empty, is_text, if◌then◌else◌,
  trims_to,
}
use nextapi.Base.Json.{
  Value, int, str, obj, Fields, no_fields, get, index, put_field, put_all, keep_fields, array,
  is_object, Serde,
}
use nextapi.Protocol.Chat.Parts.{text_at, opt_str, tagged, parse_all, parse_each}
use nextapi.Protocol.Chat.Message.{parse_role, role_to_text, array_or_empty}
use nextapi.Protocol.Chat.Request.{is_set}
use nextapi.Protocol.Chat.Tools.{on_some, on_items}
use nextapi.Protocol.Chat.Usage.{u64_value, parse_usage}
use nextapi.Protocol.Chat.Response.{finish_of, index_of, i64_of, usage_of, write_usage}
use nextapi.Protocol.Ir.{
  ConvCtx, degrade, parse, Conv, done, failed, IrRole, IrUsage, IrToolCallDelta, IrDelta,
  IrChunkChoice, IrChunk,
}

unfoldable pub parse_tool_call_delta : Value → ConvCtx → ConvCtx × Option IrToolCallDelta
parse_tool_call_delta tc ctx =
    if not (is_object tc) then (degrade "chunk.tool_calls" "工具调用增量非对象" ctx, none) else (
      ctx,
      some (record {
        index = index_of tc;
        id = text_at tc "id";
        name = text_at (index tc "function") "name";
        arguments = text_at (index tc "function") "arguments";
      }),
    )

abbrev pub role_of : Option String → ConvCtx → ConvCtx × Option IrRole
role_of none ctx = (ctx, none)
role_of (some s) ctx = let (ctx₁, r) = parse_role (some s) ctx in (ctx₁, some r)

unfoldable pub parse_delta : Value → ConvCtx → ConvCtx × IrDelta
unfolding parse_role parse_all parse_tool_call_delta
parse_delta d ctx =
    let (ctx₁, role) = role_of (text_at d "role") ctx in
    let (ctx₂, calls) =
      parse_all parse_tool_call_delta (array_or_empty (get "tool_calls" d)) ctx₁ in
    (
      ctx₂,
      record {
        role = role;
        content = text_at d "content";
        reasoning_content = text_at d "reasoning_content";
        tool_calls = calls;
      },
    )

abbrev pub no_delta : IrDelta
no_delta = record { role = none; content = none; reasoning_content = none; tool_calls = [] }

abbrev pub delta_of : Option Value → ConvCtx → ConvCtx × IrDelta
delta_of none ctx = (ctx, no_delta)
delta_of (some d) ctx = parse_delta d ctx

unfoldable pub parse_chunk_choice : Value → ConvCtx → ConvCtx × Conv IrChunkChoice
unfolding parse_delta
parse_chunk_choice (obj o) ctx =
    let (ctx₁, d) = delta_of (get "delta" (obj o)) ctx in
    (ctx₁, done (record { index = index_of (obj o); delta = d; finish_reason = finish_of (obj o) }))
parse_chunk_choice _ ctx = (ctx, failed (parse "chunk choice 不是对象"))

abbrev pub is_chunk_extra : String → Bool
is_chunk_extra k =
    not (any (λ j. is_text k j) ("id" ∷ "model" ∷ "created" ∷ "choices" ∷ "usage" ∷ []))

-- A null usage is none.
abbrev pub usage_unless_null : Option Value → Option IrUsage
usage_unless_null o = if is_set o then usage_of o else none

abbrev pub with_choices :
    Fields → ConvCtx × Conv (List IrChunkChoice) → ConvCtx × Conv (Option IrChunk)
with_choices o (ctx, failed e) = (ctx, failed e)
with_choices o (ctx, done cs) =
    let v = obj o in
    (
      ctx,
      done (
          some (record {
            id = or_empty (text_at v "id");
            model = or_empty (text_at v "model");
            created = i64_of (index v "created");
            choices = cs;
            usage = usage_unless_null (get "usage" v);
            extra = keep_fields is_chunk_extra o;
          })),
    )

abbrev pub chunk_of : Value → ConvCtx → ConvCtx × Conv (Option IrChunk)
chunk_of (obj o) ctx =
    with_choices o (parse_each parse_chunk_choice (array_or_empty (get "choices" (obj o))) ctx)
chunk_of _ ctx = (ctx, failed (parse "chunk 不是对象"))

abbrev pub read_chunk : Option Value → String → ConvCtx → ConvCtx × Conv (Option IrChunk)
read_chunk none error ctx = (ctx, failed (parse error))
read_chunk (some v) error ctx = chunk_of v ctx

-- `none` for the end of the stream. The state of a Chat stream is empty.
unfoldable pub chunk_to_ir : Serde → String → ConvCtx → ConvCtx × Conv (Option IrChunk)
unfolding parse_chunk_choice parse_each parse_usage
chunk_to_ir serde text ctx =
    if trims_to text "[DONE]"
    then (ctx, done none)
    else read_chunk (serde.read text) (serde.read_error text) ctx

unfoldable pub tool_call_delta_to_json : IrToolCallDelta → Value
unfolding put_field put_all
tool_call_delta_to_json t =
    let f =
      put_all (("name", opt_str t.name) ∷ ("arguments", opt_str t.arguments) ∷ []) no_fields in
    tagged "function" (
      put_all
        (("index", some (u64_value t.index))
          ∷ ("id", opt_str t.id)
          ∷ ("function", some (obj f))
          ∷ [])
        no_fields)

abbrev pub delta_fields : IrDelta → List (String × Option Value)
delta_fields d =
    ("role", on_some (λ r. str (role_to_text r)) d.role)
    ∷ ("content", opt_str d.content)
    ∷ ("reasoning_content", opt_str d.reasoning_content)
    ∷ ("tool_calls", on_items tool_call_delta_to_json d.tool_calls)
    ∷ []

unfoldable pub delta_to_json : IrDelta → Value
unfolding role_to_text tool_call_delta_to_json put_all
delta_to_json d = obj (put_all (delta_fields d) no_fields)

abbrev pub chunk_choice_fields : IrChunkChoice → List (String × Option Value)
chunk_choice_fields c =
    ("index", some (u64_value c.index))
    ∷ ("delta", some (delta_to_json c.delta))
    ∷ ("finish_reason", opt_str c.finish_reason)
    ∷ []

unfoldable pub chunk_choice_to_json : IrChunkChoice → Value
unfolding delta_to_json put_all
chunk_choice_to_json c = obj (put_all (chunk_choice_fields c) no_fields)

abbrev pub chunk_fields : IrChunk → Option Value → List (String × Option Value)
chunk_fields c usage =
    ("id", some (str c.id))
    ∷ ("model", some (str c.model))
    ∷ ("created", some (int c.created))
    ∷ ("choices", some (array (map chunk_choice_to_json c.choices)))
    ∷ ("usage", usage)
    ∷ []

unfoldable pub chunk_body : IrChunk → ConvCtx → ConvCtx × Value
unfolding chunk_choice_to_json put_all
chunk_body c ctx =
    let (ctx₁, usage) = write_usage c.usage ctx in
    (ctx₁, obj (put_all (chunk_fields c usage) c.extra))

unfoldable pub chunk_from_ir : Serde → IrChunk → ConvCtx → ConvCtx × Conv (List String)
unfolding chunk_body
chunk_from_ir serde c ctx = let (ctx₁, v) = chunk_body c ctx in (ctx₁, done (serde.print v ∷ []))

unfoldable pub stream_end : ConvCtx → ConvCtx × Conv (List String)
stream_end ctx = (ctx, done ("[DONE]" ∷ []))
