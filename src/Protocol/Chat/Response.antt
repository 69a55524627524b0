-- ===== src/Protocol/Chat/Response.antt =====
-- src/protocol/chat.rs: the response that comes whole, to and from the intermediate representation.
pub mod Trip
use nextapi.Base.{
  ℕ, ℤ, pos, String, Bool, true, false, not, Option, none, some, List, [], ◌∷◌, map, any, or_empty,
  is_text,
}
use nextapi.Base.Json.{
  Value, null, int, str, arr, obj, Fields, no_fields, as_str, as_u64, as_i64, items, get, index,
  put_all, keep_fields, array, is_object, Serde,
}
use nextapi.Protocol.Finish.{normalize_finish_reason}
use nextapi.Protocol.Chat.Parts.{text_at, opt_str, parse_each}
use nextapi.Protocol.Chat.Message.{parse_message, message_to_json}
use nextapi.Protocol.Chat.Request.{to_u32}
use nextapi.Protocol.Chat.Usage.{or_zero, u64_value, parse_usage, usage_to_json}
use nextapi.Protocol.Ir.{
  ConvCtx, ConvertError, parse, Conv, done, failed, user, IrMessage, IrUsage, IrChoice, IrResponse,
}

abbrev pub no_message : IrMessage
no_message = record {
  role = user;
  content = none;
  name = none;
  tool_calls = [];
  tool_call_id = none;
  reasoning_content = none;
}

abbrev pub finish_of : Value → Option String
finish_of c = elim (text_at c "finish_reason") [
  | none ↦ none
  | some s ↦ some (normalize_finish_reason s)
]

abbrev pub index_of : Value → ℕ
index_of c = or_zero (to_u32 (as_u64 (index c "index")))

abbrev pub message_of : Serde → Option Value → ConvCtx → ConvCtx × Conv IrMessage
message_of serde none ctx = (ctx, done no_message)
message_of serde (some v) ctx = parse_message serde v ctx

abbrev pub choice_with : Value → ConvCtx × Conv IrMessage → ConvCtx × Conv IrChoice
choice_with c (ctx, failed e) = (ctx, failed e)
choice_with c (ctx, done m) =
    (ctx, done (record { index = index_of c; message = m; finish_reason = finish_of c }))

unfoldable pub parse_choice : Serde → Value → ConvCtx → ConvCtx × Conv IrChoice
parse_choice serde (obj o) ctx = choice_with (obj o) (message_of serde (get "message" (obj o)) ctx)
parse_choice serde _ ctx = (ctx, failed (parse "choice 不是对象"))

unfoldable pub choices_of : Serde → Option Value → ConvCtx → ConvCtx × Conv (List IrChoice)
unfolding parse_choice parse_each
choices_of serde none ctx = (ctx, done [])
choices_of serde (some (arr xs)) ctx = parse_each (parse_choice serde) (items xs) ctx
choices_of serde (some _) ctx = (ctx, failed (parse "choices 不是数组"))

abbrev pub is_response_extra : String → Bool
is_response_extra k = not (
    any (λ j. is_text k j)
      ("id" ∷ "model" ∷ "created" ∷ "choices" ∷ "usage" ∷ "system_fingerprint" ∷ []))

abbrev pub i64_of : Value → ℤ
i64_of v = elim (as_i64 v) [ none ↦ pos 0 | some z ↦ z ]

abbrev pub usage_of : Option Value → Option IrUsage
usage_of none = none
usage_of (some v) = some (parse_usage v)

abbrev pub response_of : Fields → List IrChoice → IrResponse
response_of o cs =
    let v = obj o in
    record {
      id = or_empty (text_at v "id");
      model = or_empty (text_at v "model");
      created = i64_of (index v "created");
      choices = cs;
      usage = usage_of (get "usage" v);
      system_fingerprint = text_at v "system_fingerprint";
      extra = keep_fields is_response_extra o;
    }

abbrev pub with_choices : Fields → ConvCtx × Conv (List IrChoice) → ConvCtx × Conv IrResponse
with_choices o (ctx, failed e) = (ctx, failed e)
with_choices o (ctx, done cs) = (ctx, done (response_of o cs))

unfoldable pub response_to_ir : Serde → Value → ConvCtx → ConvCtx × Conv IrResponse
unfolding choices_of parse_usage
response_to_ir serde (obj o) ctx = with_choices o (choices_of serde (get "choices" (obj o)) ctx)
response_to_ir serde _ ctx = (ctx, failed (parse "响应体不是对象"))

unfoldable pub choice_fields : IrChoice → List (String × Option Value)
choice_fields c =
    ("index", some (u64_value c.index))
    ∷ ("message", some (message_to_json c.message))
    ∷ ("finish_reason", opt_str c.finish_reason)
    ∷ []

unfoldable pub choice_to_json : IrChoice → Value
unfolding choice_fields put_all
choice_to_json c = obj (put_all (choice_fields c) no_fields)

-- A usage, where there is one, with what it notes.
abbrev pub write_usage : Option IrUsage → ConvCtx → ConvCtx × Option Value
write_usage none ctx = (ctx, none)
write_usage (some u) ctx = let (ctx₁, v) = usage_to_json u ctx in (ctx₁, some v)

unfoldable pub response_fields : IrResponse → Option Value → List (String × Option Value)
unfolding choice_to_json
response_fields r usage =
    ("id", some (str r.id))
    ∷ ("model", some (str r.model))
    ∷ ("created", some (int r.created))
    ∷ ("system_fingerprint", opt_str r.system_fingerprint)
    ∷ ("choices", some (array (map choice_to_json r.choices)))
    ∷ ("usage", usage)
    ∷ []

unfoldable pub response_from_ir : IrResponse → ConvCtx → ConvCtx × Conv Value
unfolding response_fields usage_to_json put_all
response_from_ir r ctx =
    let (ctx₁, usage) = write_usage r.usage ctx in
    (ctx₁, done (obj (put_all (response_fields r usage) r.extra)))
