-- ===== src/Protocol/Chat/Chunk/Trip.antt =====
-- src/protocol/chat.rs: what is read back from the deltas of a chunk that was written.
use nextapi.Base.{
  ℕ, ◌^◌, String, Bool, true, all, ◌&&◌, Option, none, some, List, [], ◌∷◌, map, ◌≡◌, refl, ap, ◌∙◌,
  arith, ltb,
}
use nextapi.Base.Json.{
  Value, str, Fields, no_fields, get_field, put_all, put_field, index, get, obj, is_object,
}
use nextapi.Base.Json.Laws.{get-put_all, items-to_items}
use nextapi.Protocol.Ir.{ConvCtx, done, IrRole, IrToolCallDelta, IrDelta, IrChunkChoice}
use nextapi.Protocol.Chat.Parts.{text_at, opt_str, parse_all}
use nextapi.Protocol.Chat.Message.{role_to_text, array_or_empty}
use nextapi.Protocol.Chat.Message.Trip.{role-trip, note_role, text_at-field}
use nextapi.Protocol.Chat.Tools.{on_some, on_items}
use nextapi.Protocol.Chat.Request.Trip.{index-field}
use nextapi.Protocol.Chat.Usage.{u64_value}
use nextapi.Protocol.Chat.Response.{index_of, finish_of}
use nextapi.Protocol.Chat.Response.Trip.{index-trip, finish-trip, settled}
use nextapi.Protocol.Chat.Chunk.{
  parse_tool_call_delta, parse_delta, parse_chunk_choice, tool_call_delta_to_json, delta_to_json,
  chunk_choice_to_json, role_of, delta_of, delta_fields, chunk_choice_fields,
}

unfoldable pub normal_call : IrToolCallDelta → Bool
normal_call t = ltb t.index (2 ^ 32)

abbrev on_role : Option IrRole → Option String
on_role none = none
on_role (some r) = some (role_to_text r)

role_value : (o : Option IrRole) → on_some (λ r. str (role_to_text r)) o ≡ opt_str (on_role o)
role_value none = refl
role_value (some r) = refl

-- A choice of a chunk with indices of 32 bits and a finish reason in OpenAI's words.
unfoldable pub normal_chunk_choice : IrChunkChoice → Bool
unfolding normal_call
normal_chunk_choice c =
    ltb c.index (2 ^ 32) && all normal_call c.delta.tool_calls && settled c.finish_reason

-- The fields of a written delta of a tool call.
abbrev delta_value : ℕ → (id name arguments : Option String) → Value
delta_value i id n a =
    tool_call_delta_to_json (record { index = i; id = id; name = n; arguments = a })

call_fields :
    (i : ℕ) (id n a : Option String)
    → (is_object (delta_value i id n a) ≡ true)
      × (index (delta_value i id n a) "index" ≡ u64_value i)
      × (text_at (delta_value i id n a) "id" ≡ id)
      × (text_at (index (delta_value i id n a) "function") "name" ≡ n)
      × (text_at (index (delta_value i id n a) "function") "arguments" ≡ a)
unfolding index get get_field put_all put_field tool_call_delta_to_json
call_fields i none none none = (refl, refl, refl, refl, refl)
call_fields i none none (some a) = (refl, refl, refl, refl, refl)
call_fields i none (some n) none = (refl, refl, refl, refl, refl)
call_fields i none (some n) (some a) = (refl, refl, refl, refl, refl)
call_fields i (some d) none none = (refl, refl, refl, refl, refl)
call_fields i (some d) none (some a) = (refl, refl, refl, refl, refl)
call_fields i (some d) (some n) none = (refl, refl, refl, refl, refl)
call_fields i (some d) (some n) (some a) = (refl, refl, refl, refl, refl)

-- A delta is read from what its fields hold.
call_read :
    (v : Value) (t : IrToolCallDelta) (ctx : ConvCtx)
    → is_object v ≡ true
    → index_of v ≡ t.index
    → text_at v "id" ≡ t.id
    → text_at (index v "function") "name" ≡ t.name
    → text_at (index v "function") "arguments" ≡ t.arguments
    → parse_tool_call_delta v ctx ≡ (ctx, some t)
unfolding parse_tool_call_delta
call_read v t ctx o i d n a = rw (o, i, d, n, a) refl

tool_delta-trip :
    (t : IrToolCallDelta) (ctx : ConvCtx)
    → normal_call t ≡ true
    → parse_tool_call_delta (tool_call_delta_to_json t) ctx ≡ (ctx, some t)
unfolding normal_call
tool_delta-trip t ctx h =
    let (o, i, d, n, a) = call_fields t.index t.id t.name t.arguments in
    call_read (tool_call_delta_to_json t) t ctx o
      (index-trip (tool_call_delta_to_json t) t.index i h) d n a

parse_all-deltas :
    (ts : List IrToolCallDelta) (ctx : ConvCtx)
    → all normal_call ts ≡ true
    → parse_all parse_tool_call_delta (map tool_call_delta_to_json ts) ctx ≡ (ctx, ts)
unfolding parse_all
parse_all-deltas [] ctx h = refl
parse_all-deltas (t ∷ ts) ctx h =
    rw (tool_delta-trip t ctx (ground (arith, h)))
      (rw (parse_all-deltas ts ctx (ground (arith, h))) refl)

deltas-trip :
    (ts : List IrToolCallDelta) (ctx : ConvCtx)
    → all normal_call ts ≡ true
    → parse_all parse_tool_call_delta (array_or_empty (on_items tool_call_delta_to_json ts)) ctx
      ≡ (ctx, ts)
deltas-trip [] ctx h = parse_all-deltas [] ctx refl
deltas-trip (t ∷ ts) ctx h =
    ap (λ vs. parse_all parse_tool_call_delta vs ctx)
      (items-to_items (map tool_call_delta_to_json (t ∷ ts)))
    ∙ parse_all-deltas (t ∷ ts) ctx h

-- What reading a written delta notes.
abbrev note_delta : Option IrRole → ConvCtx → ConvCtx
note_delta none ctx = ctx
note_delta (some r) ctx = note_role r ctx

-- What reading a written choice of a chunk notes.
abbrev pub note_chunk_choice : IrChunkChoice → ConvCtx → ConvCtx
note_chunk_choice c ctx = note_delta c.delta.role ctx

role_of-trip : (o : Option IrRole) (ctx : ConvCtx) → role_of (on_role o) ctx ≡ (note_delta o ctx, o)
role_of-trip none ctx = refl
role_of-trip (some r) ctx = ap (λ x. (x.0, some x.1)) (role-trip r ctx)

delta_read :
    (v : Value) (d : IrDelta) (ctx : ConvCtx)
    → text_at v "role" ≡ on_role d.role
    → text_at v "content" ≡ d.content
    → text_at v "reasoning_content" ≡ d.reasoning_content
    → get "tool_calls" v ≡ on_items tool_call_delta_to_json d.tool_calls
    → all normal_call d.tool_calls ≡ true
    → parse_delta v ctx ≡ (note_delta d.role ctx, d)
unfolding parse_delta
delta_read v d ctx r c e t h =
    rw (r, role_of-trip d.role ctx, t, deltas-trip d.tool_calls (note_delta d.role ctx) h, c, e)
      refl

delta-trip :
    (d : IrDelta) (ctx : ConvCtx)
    → all normal_call d.tool_calls ≡ true
    → parse_delta (delta_to_json d) ctx ≡ (note_delta d.role ctx, d)
unfolding delta_to_json get get_field
delta-trip d ctx h =
    let l = delta_fields d in
    let o = put_all l no_fields in
    delta_read (obj o) d ctx
      (text_at-field "role" o (on_role d.role) (get-put_all "role" l no_fields ∙ role_value d.role))
      (text_at-field "content" o d.content (get-put_all "content" l no_fields))
      (text_at-field "reasoning_content" o d.reasoning_content
        (get-put_all "reasoning_content" l no_fields))
      (get-put_all "tool_calls" l no_fields) h

choice_read :
    (o : Fields) (c : IrChunkChoice) (ctx : ConvCtx)
    → index_of (obj o) ≡ c.index
    → finish_of (obj o) ≡ c.finish_reason
    → delta_of (get "delta" (obj o)) ctx ≡ (note_chunk_choice c ctx, c.delta)
    → parse_chunk_choice (obj o) ctx ≡ (note_chunk_choice c ctx, done c)
unfolding parse_chunk_choice
choice_read o c ctx i f d = rw (i, f, d) refl

pub parse_chunk_choice-chunk_choice_to_json :
    (c : IrChunkChoice) (ctx : ConvCtx)
    → normal_chunk_choice c ≡ true
    → parse_chunk_choice (chunk_choice_to_json c) ctx ≡ (note_chunk_choice c ctx, done c)
unfolding chunk_choice_to_json normal_chunk_choice get get_field
parse_chunk_choice-chunk_choice_to_json c ctx h =
    let l = chunk_choice_fields c in
    let o = put_all l no_fields in
    choice_read o c ctx
      (index-trip (obj o) c.index
        (index-field "index" o (some (u64_value c.index)) (get-put_all "index" l no_fields))
        (ground (arith, h)))
      (finish-trip (obj o) c.finish_reason
        (text_at-field "finish_reason" o c.finish_reason (get-put_all "finish_reason" l no_fields))
        (ground (arith, h)))
      (ap (λ x. delta_of x ctx) (get-put_all "delta" l no_fields)
        ∙ delta-trip c.delta ctx (ground (arith, h)))
