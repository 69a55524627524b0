-- ===== src/Protocol/Chat/Message/Trip.antt =====
-- src/protocol/chat.rs: what is read back from a message that was written.
use nextapi.Base.{
  ◌+++◌, String, Bool, true, Option, none, some, List, [], ◌∷◌, map, ◌≡◌, refl, ap, ◌∙◌,
}
use nextapi.Base.Json.{
  Value, null, Fields, no_fields, get_field, put_all, put_field, index, get, obj, as_str, is_object,
  Serde,
}
use nextapi.Base.Json.Laws.{items-to_items, get-put_all, after_puts}
use nextapi.Protocol.Ir.{
  ConvCtx, degrade, done, IrRole, system, user, assistant, tool, IrToolCall, IrMessage,
}
use nextapi.Protocol.Chat.Parts.{parse_all, text_at, opt_str, opt_content}
use nextapi.Protocol.Chat.Parts.Trip.{normal_content, content-trip}
use nextapi.Protocol.Chat.Message.{
  parse_role, parse_tool_call, parse_message, degrade_fields, role_to_text, message_fields,
  message_to_json, tool_call_to_json, calls_value, array_or_empty,
}

-- The content of the message can be carried.
unfoldable pub normal_message : IrMessage → Bool
unfolding normal_content
normal_message m = normal_content m.content

-- What reading a written role notes: `user` is read like a role that is not known.
unfoldable pub note_role : IrRole → ConvCtx → ConvCtx
note_role system ctx = ctx
note_role user ctx = degrade "message.role" "未知角色，按 user 处理: user" ctx
note_role assistant ctx = ctx
note_role tool ctx = ctx

-- What reading a written message notes.
abbrev pub note_message : IrMessage → ConvCtx → ConvCtx
note_message m ctx = note_role m.role ctx

pub role-trip :
    (r : IrRole) (ctx : ConvCtx) → parse_role (some (role_to_text r)) ctx ≡ (note_role r ctx, r)
unfolding parse_role role_to_text note_role ◌+++◌
role-trip system ctx = refl
role-trip user ctx = refl
role-trip assistant ctx = refl
role-trip tool ctx = refl

tool_call-trip :
    (serde : Serde) (tc : IrToolCall) (ctx : ConvCtx)
    → parse_tool_call serde (tool_call_to_json tc) ctx ≡ (ctx, some tc)
unfolding parse_tool_call tool_call_to_json index get get_field put_field
tool_call-trip serde tc ctx = refl

parse_all-calls :
    (serde : Serde) (cs : List IrToolCall) (ctx : ConvCtx)
    → parse_all (parse_tool_call serde) (map tool_call_to_json cs) ctx ≡ (ctx, cs)
unfolding parse_all
parse_all-calls serde [] ctx = refl
parse_all-calls serde (c ∷ cs) ctx =
    rw (tool_call-trip serde c ctx) (rw (parse_all-calls serde cs ctx) refl)

calls-trip :
    (serde : Serde) (cs : List IrToolCall) (ctx : ConvCtx)
    → parse_all (parse_tool_call serde) (array_or_empty (calls_value cs)) ctx ≡ (ctx, cs)
calls-trip serde [] ctx = parse_all-calls serde [] ctx
calls-trip serde (c ∷ cs) ctx =
    ap (λ vs. parse_all (parse_tool_call serde) vs ctx)
      (items-to_items (map tool_call_to_json (c ∷ cs)))
    ∙ parse_all-calls serde (c ∷ cs) ctx

-- What a key of an object is read as, when it is known what is at the key.
pub text_at-field :
    (k : String) (fs : Fields) (o : Option String)
    → get_field k fs ≡ opt_str o
    → text_at (obj fs) k ≡ o
unfolding index get
text_at-field k fs none e = ap (λ o. as_str (elim o [ none ↦ null | some w ↦ w ])) e
text_at-field k fs (some s) e = ap (λ o. as_str (elim o [ none ↦ null | some w ↦ w ])) e

pub get-field : (k : String) (fs : Fields) → get k (obj fs) ≡ get_field k fs
unfolding get
get-field k fs = refl

-- The fields of a message, each read back.
message-field :
    (k : String) (m : IrMessage) → get k (message_to_json m) ≡ after_puts k (message_fields m) none
unfolding message_to_json get get_field
message-field k m = get-put_all k (message_fields m) no_fields

message_text :
    (k : String) (m : IrMessage) (o : Option String)
    → after_puts k (message_fields m) none ≡ opt_str o
    → text_at (message_to_json m) k ≡ o
unfolding message_to_json get_field
message_text k m o e =
    text_at-field k (put_all (message_fields m) no_fields) o
      (get-put_all k (message_fields m) no_fields ∙ e)

degrade_fields-none :
    (v : Value) (ctx : ConvCtx)
    → get "refusal" v ≡ none
    → get "annotations" v ≡ none
    → get "audio" v ≡ none
    → get "function_call" v ≡ none
    → degrade_fields ("refusal" ∷ "annotations" ∷ "audio" ∷ "function_call" ∷ []) v ctx ≡ ctx
unfolding degrade_fields
degrade_fields-none v ctx r n a f =
    rw (f, degrade_fields)
      (rw (a, degrade_fields) (rw (n, degrade_fields) (rw (r, degrade_fields) refl)))

-- A message is read from what its fields hold.
parse_message-fields :
    (serde : Serde) (v : Value) (m : IrMessage) (ctx : ConvCtx)
    → is_object v ≡ true
    → text_at v "role" ≡ some (role_to_text m.role)
    → get "content" v ≡ opt_content m.content
    → normal_content m.content ≡ true
    → get "tool_calls" v ≡ calls_value m.tool_calls
    → text_at v "name" ≡ m.name
    → text_at v "tool_call_id" ≡ m.tool_call_id
    → text_at v "reasoning_content" ≡ m.reasoning_content
    → degrade_fields
        ("refusal" ∷ "annotations" ∷ "audio" ∷ "function_call" ∷ [])
        v
        (note_role m.role ctx)
      ≡ note_role m.role ctx
    → parse_message serde v ctx ≡ (note_message m ctx, done m)
unfolding parse_message
parse_message-fields serde v m ctx o r c n t nm i re d = rw o (
    rw r (
      rw (role-trip m.role ctx) (
        rw c (
          rw (content-trip m.content (note_role m.role ctx) n) (
            rw t (
              rw (calls-trip serde m.tool_calls (note_role m.role ctx))
                (rw d (rw nm (rw i (rw re refl))))))))))

pub parse_message-message_to_json :
    (serde : Serde) (m : IrMessage) (ctx : ConvCtx)
    → normal_message m ≡ true
    → parse_message serde (message_to_json m) ctx ≡ (note_message m ctx, done m)
unfolding normal_message message_fields message_to_json
parse_message-message_to_json serde m ctx h =
    parse_message-fields serde (message_to_json m) m ctx refl
      (message_text "role" m (some (role_to_text m.role)) refl) (message-field "content" m) h
      (message-field "tool_calls" m) (message_text "name" m m.name refl)
      (message_text "tool_call_id" m m.tool_call_id refl)
      (message_text "reasoning_content" m m.reasoning_content refl)
      (degrade_fields-none (message_to_json m) (note_role m.role ctx) (message-field "refusal" m)
        (message-field "annotations" m) (message-field "audio" m) (message-field "function_call" m))
