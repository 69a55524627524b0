-- ===== src/Protocol/Anthropic/Response.antt =====
-- src/protocol/anthropic.rs: the response that comes whole, to and from the intermediate representation.
pub mod Spoken
pub mod Trip
use nextapi.Base.{
  ◌+++◌, ℤ, pos, String, Bool, true, false, not, Option, none, some, List, [], ◌∷◌, ◌++◌, any,
  length, if◌then◌else◌, or_empty, is_empty_text, is_text,
}
use nextapi.Base.Json.{
  Value, null, str, arr, obj, Fields, no_fields, field, as_str, items, get, get_field, index,
  put_field, put_all, array, Serde,
}
use nextapi.Protocol.Finish.{normalize_finish_reason}
use nextapi.Protocol.Chat.Parts.{text_at, opt_str}
use nextapi.Protocol.Chat.Usage.{without}
use nextapi.Protocol.Chat.Response.{no_message, i64_of}
use nextapi.Protocol.Ir.{
  ConvCtx, degrade, parse, Conv, done, failed, assistant, IrPart, text, IrMessage, IrUsage,
  IrChoice, IrResponse,
}
use nextapi.Protocol.Anthropic.Blocks.{parts_content, assistant_blocks}
use nextapi.Protocol.Anthropic.Message.{Gathered, call_of, keep_signature, add_thinking}
use nextapi.Protocol.Anthropic.Usage.{parse_usage, usage_to_anthropic}
use nextapi.Protocol.Anthropic.Events.{reverse_finish_reason}

abbrev pub known_response_fields : List String
known_response_fields =
    "id" ∷ "type" ∷ "role" ∷ "content" ∷ "model" ∷ "stop_reason" ∷ "stop_sequence" ∷ "usage" ∷ []

abbrev pub is_unknown : String → Bool
is_unknown k = not (any (λ j. is_text k j) known_response_fields)

-- A response has no images and no results of tools.
unfoldable pub add_response_kind : Serde → String → Value → Gathered → ConvCtx → ConvCtx × Gathered
add_response_kind serde kind b g ctx =
    if is_text kind "text"
    then (ctx, record g { found = g.found ++ (text (or_empty (text_at b "text")) ∷ []) })
    else if is_text kind "tool_use"
    then (ctx, record g { calls = g.calls ++ (call_of serde b ∷ []) })
    else if is_text kind "thinking"
    then (ctx, add_thinking b g)
    else (degrade "content.block.type" ("未知响应块类型: " +++ kind) ctx, g)

unfoldable pub add_response_blocks : Serde → List Value → Gathered → ConvCtx → ConvCtx × Gathered
unfolding add_response_kind
add_response_blocks serde [] g ctx = (ctx, g)
add_response_blocks serde (obj o ∷ bs) g ctx =
    let (ctx₁, g₁) = add_response_kind serde (or_empty (text_at (obj o) "type")) (obj o) g ctx in
    add_response_blocks serde bs g₁ ctx₁
add_response_blocks serde (b ∷ bs) g ctx = add_response_blocks serde bs g ctx

abbrev pub nothing : Gathered
nothing = record { found = []; calls = []; reasoning = none; results = []; extra = no_fields }

abbrev pub message_from : Gathered → IrMessage
message_from g = record no_message {
  role = assistant;
  content = parts_content g.found;
  tool_calls = g.calls;
  reasoning_content = g.reasoning;
}

-- The message, and what is kept aside; a content that is no array counts as an empty message.
unfoldable pub response_message : Serde → Value → ConvCtx → ConvCtx × (Fields × IrMessage)
unfolding add_response_blocks
response_message serde (arr xs) ctx =
    let (ctx₁, g) = add_response_blocks serde (items xs) nothing ctx in
    (ctx₁, (g.extra, message_from g))
response_message serde v ctx = (degrade "content" "响应 content 解析失败，置空" ctx, (no_fields, no_message))

abbrev pub finish_at : Option String → Option String
finish_at none = none
finish_at (some s) = some (normalize_finish_reason s)

abbrev choice_of : Option String → IrMessage → List IrChoice
choice_of reason m = record { index = 0; message = m; finish_reason = finish_at reason } ∷ []

unfoldable pub choices_of :
    Serde → Option Value → Option String → ConvCtx → ConvCtx × (Fields × List IrChoice)
unfolding response_message
choices_of serde none reason ctx = (ctx, (no_fields, []))
choices_of serde (some content) reason ctx =
    let (ctx₁, (extra, m)) = response_message serde content ctx in
    (ctx₁, (extra, choice_of reason m))

abbrev usage_of : Option Value → Option IrUsage
usage_of none = none
usage_of (some u) = some (parse_usage u)

-- The stop reason as it came.
abbrev pub keep_reason : Option String → Fields → Fields
keep_reason none extra = extra
keep_reason (some s) extra = put_field "anthropic_stop_reason" (str s) extra

-- `insert` of every field that passes.
unfoldable pub put_unknown : Fields → Fields → Fields
put_unknown no_fields e = e
put_unknown (field k v r) e = put_unknown r (if is_unknown k then put_field k v e else e)

unfoldable pub response_to_ir : Serde → Value → ConvCtx → ConvCtx × Conv IrResponse
unfolding choices_of put_unknown parse_usage
response_to_ir serde (obj o) ctx =
    let v = obj o in
    let reason = text_at v "stop_reason" in
    let (ctx₁, (extra, cs)) = choices_of serde (get "content" v) reason ctx in
    (
      ctx₁,
      done (record {
        id = or_empty (text_at v "id");
        model = or_empty (text_at v "model");
        created = i64_of (index v "created");
        choices = cs;
        usage = usage_of (get "usage" v);
        system_fingerprint = none;
        extra = put_unknown o (keep_reason reason extra);
      }),
    )
response_to_ir serde v ctx = (ctx, failed (parse "响应体不是对象"))

abbrev pub raw_reason : Option Value → Option String
raw_reason none = none
raw_reason (some v) = elim (as_str v) [
  | none ↦ none
  | some s ↦ if is_empty_text s then none else some s
]

abbrev pub first_choice : List IrChoice → IrMessage × Option String
first_choice [] = (no_message, none)
first_choice (c ∷ cs) = (c.message, c.finish_reason)

abbrev note_choices : Serde → List IrChoice → ConvCtx → ConvCtx
note_choices serde [] ctx = ctx
note_choices serde (c ∷ []) ctx = ctx
note_choices serde (c ∷ (d ∷ cs)) ctx =
    let count = serde.int_text (pos (length (c ∷ (d ∷ cs)))) in
    degrade "choices" ("多候选（" +++ count +++ "）仅取首个，其余丢弃") ctx

abbrev pub reversed : Option String → Option String
reversed none = none
reversed (some fr) = some (reverse_finish_reason fr)

-- The stop reason as it came, else from the finish reason; with no invented end of a turn.
unfoldable pub stop_reason_of : (raw finish : Option String) → ConvCtx → ConvCtx × Option String
stop_reason_of none finish ctx = (ctx, reversed finish)
stop_reason_of (some raw) finish ctx = (
  if is_text raw "stop_sequence"
      then degrade "stop_sequence" "stop_sequence 原始值未保留，stop_sequence 字段回写为 null" ctx
      else ctx,
  some raw,
)

abbrev pub str_or_null : Option String → Value
str_or_null none = null
str_or_null (some s) = str s

abbrev pub write_usage : Option IrUsage → ConvCtx → ConvCtx × Option Value
write_usage none ctx = (ctx, none)
write_usage (some u) ctx = let (ctx₁, v) = usage_to_anthropic u ctx in (ctx₁, some v)

abbrev pub response_fields :
    IrResponse → List Value → Option String → Option Value → List (String × Option Value)
response_fields r blocks reason usage =
    ("id", some (str r.id))
    ∷ ("type", some (str "message"))
    ∷ ("role", some (str "assistant"))
    ∷ ("content", some (array blocks))
    ∷ ("model", some (str r.model))
    ∷ ("stop_reason", some (str_or_null reason))
    ∷ ("stop_sequence", some null)
    ∷ ("usage", usage)
    ∷ []

-- What is kept aside for the way back is not sent.
abbrev pub sent_extra : Fields → Fields
sent_extra e = without "thinking_signature" (without "anthropic_stop_reason" e)

unfoldable pub response_from_ir : Serde → IrResponse → ConvCtx → ConvCtx × Conv Value
unfolding assistant_blocks stop_reason_of usage_to_anthropic put_all
response_from_ir serde r ctx =
    let (m, finish) = first_choice r.choices in
    let (ctx₁, blocks) = assistant_blocks serde m r.extra (note_choices serde r.choices ctx) in
    let (ctx₂, reason) =
      stop_reason_of (raw_reason (get_field "anthropic_stop_reason" r.extra)) finish ctx₁ in
    let (ctx₃, usage) = write_usage r.usage ctx₂ in
    (ctx₃, done (obj (put_all (response_fields r blocks reason usage) (sent_extra r.extra))))
