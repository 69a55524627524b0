-- ===== src/Protocol/Anthropic/Events/Read.antt =====
-- src/protocol/anthropic.rs: an event of an Anthropic stream to a chunk.
use Prim.Native.Nat.{max}
use nextapi.Base.{
  ◌+++◌, ℕ, suc, ◌%◌, ◌^◌, pos, String, true, Option, none, some, [], ◌∷◌, or_empty, first_of,
  is_text, if◌then◌else◌, lookup, insert, remove, ℕ_eq,
}
use nextapi.Base.Json.{Value, obj, get, index, no_fields, Serde}
use nextapi.Protocol.Chat.Parts.{text_at}
use nextapi.Protocol.Chat.Chunk.{no_delta}
use nextapi.Protocol.Chat.Usage.{or_zero}
use nextapi.Protocol.Finish.{normalize_finish_reason}
use nextapi.Protocol.Ir.{
  ConvCtx, degrade, parse, Conv, done, failed, assistant, IrUsage, IrDelta, IrChunk,
}
use nextapi.Protocol.Anthropic.Usage.{u64_at, parse_usage}
use nextapi.Protocol.Anthropic.Events.{StreamState}

-- What a handler gives: the state, the notes and a chunk if there is one.
abbrev pub Handled : Type 0
Handled = (StreamState × ConvCtx) × Option IrChunk

-- A chunk with one choice, under the name of the message.
abbrev pub chunk_with : StreamState → IrDelta → (finish : Option String) → Option IrUsage → IrChunk
chunk_with st d finish usage = record {
  id = st.id;
  model = st.model;
  created = pos 0;
  choices = record { index = 0; delta = d; finish_reason = finish } ∷ [];
  usage = usage;
  extra = no_fields;
}

abbrev usage_or : Option Value → IrUsage → IrUsage
usage_or none old = old
usage_or (some u) old = parse_usage u

unfoldable pub on_message_start : Value → StreamState → ConvCtx → Handled
unfolding parse_usage
on_message_start v st ctx =
    let msg = index v "message" in
    let st₁ = record st {
      id = or_empty (text_at msg "id");
      model = or_empty (text_at msg "model");
      usage = usage_or (get "usage" msg) st.usage;
    } in
    ((st₁, ctx), some (chunk_with st₁ (record no_delta { role = some assistant }) none none))

abbrev pub start_delta : ℕ → Value → IrDelta
start_delta tool_idx block = record no_delta {
  tool_calls =
      record {
        index = tool_idx;
        id = text_at block "id";
        name = text_at block "name";
        arguments = none;
      }
      ∷ [];
}

unfoldable pub on_block_start : Value → StreamState → ConvCtx → Handled
on_block_start v st ctx =
    let idx = or_zero (u64_at v "index") in
    let block = index v "content_block" in
    let kind = or_empty (text_at block "type") in
    let tool_idx = st.next_tool_index in
    let st₁ = record st {
      next_tool_index = suc tool_idx % 2 ^ 32;
      block_to_tool = insert idx tool_idx st.block_to_tool;
    } in
    if is_text kind "text"
    then ((st, ctx), none)
    else if is_text kind "thinking"
    then ((st, ctx), none)
    else if is_text kind "tool_use"
    then ((st₁, ctx), some (chunk_with st₁ (start_delta tool_idx block) none none))
    else ((st, degrade "stream.content_block_start.type" ("未知内容块类型: " +++ kind) ctx), none)

abbrev pub text_increment : String → IrDelta
text_increment s = record no_delta { content = some s }

abbrev pub thinking_increment : String → IrDelta
thinking_increment s = record no_delta { reasoning_content = some s }

abbrev pub call_increment : ℕ → String → IrDelta
call_increment tool_idx s = record no_delta {
  tool_calls = record { index = tool_idx; id = none; name = none; arguments = some s } ∷ [];
}

abbrev pub increment : IrDelta → StreamState → ConvCtx → Handled
increment d st ctx = ((st, ctx), some (chunk_with st d none none))

-- An increment for a block that was not started is dropped.
abbrev pub on_input : Serde → ℕ → Option ℕ → Value → StreamState → ConvCtx → Handled
on_input serde idx none d st ctx = (
  (
    st,
    degrade "stream.content_block_delta" ("未登记的内容块 index，丢弃工具增量: " +++ serde.int_text (pos idx))
        ctx,
  ),
  none,
)
on_input serde idx (some tool_idx) d st ctx =
    increment (call_increment tool_idx (or_empty (text_at d "partial_json"))) st ctx

unfoldable pub on_block_delta : Serde → Value → StreamState → ConvCtx → Handled
on_block_delta serde v st ctx =
    let idx = or_zero (u64_at v "index") in
    let d = index v "delta" in
    let kind = or_empty (text_at d "type") in
    if is_text kind "text_delta"
    then increment (text_increment (or_empty (text_at d "text"))) st ctx
    else if is_text kind "thinking_delta"
    then increment (thinking_increment (or_empty (text_at d "thinking"))) st ctx
    else if is_text kind "input_json_delta"
    then on_input serde idx (lookup idx st.block_to_tool) d st ctx
    else ((st, degrade "stream.content_block_delta.type" ("未知增量类型: " +++ kind) ctx), none)

abbrev drop_block : Option ℕ → StreamState → StreamState
drop_block none st = st
drop_block (some idx) st = record st { block_to_tool = remove idx st.block_to_tool }

unfoldable pub on_block_stop : Value → StreamState → ConvCtx → Handled
on_block_stop v st ctx = ((drop_block (u64_at v "index") st, ctx), none)

-- The output tokens are a total so far.
unfoldable pub totals : Option Value → IrUsage → IrUsage
totals none old = old
totals (some u) old = record old {
  completion_tokens = max old.completion_tokens (or_zero (u64_at u "output_tokens"));
  cache_read_tokens = first_of (u64_at u "cache_read_input_tokens") old.cache_read_tokens;
  cache_write_tokens = first_of (u64_at u "cache_creation_input_tokens") old.cache_write_tokens;
}

abbrev pub finish_at : Option String → Option String
finish_at none = none
finish_at (some s) = some (normalize_finish_reason s)

unfoldable pub on_message_delta : Value → StreamState → ConvCtx → Handled
unfolding totals
on_message_delta v st ctx =
    let st₁ = record st { usage = totals (get "usage" v) st.usage } in
    (
      (st₁, ctx),
      some (
          chunk_with st₁ no_delta (finish_at (text_at (index v "delta") "stop_reason"))
            (some st₁.usage)),
    )

abbrev or_unknown : Option String → String
or_unknown none = "未知错误"
or_unknown (some s) = s

-- An error of the upstream becomes a last chunk that failed.
unfoldable pub on_error : Value → StreamState → ConvCtx → Handled
on_error v st ctx =
    let msg = or_unknown (text_at (index v "error") "message") in
    (
      (st, degrade "stream.error" ("Anthropic 流错误: " +++ msg) ctx),
      some (chunk_with st no_delta (some "failed") (some st.usage)),
    )

unfoldable pub read_event : Serde → Value → StreamState → ConvCtx → Handled
unfolding on_message_start on_block_start on_block_delta on_block_stop on_message_delta on_error
read_event serde v st ctx =
    let kind = or_empty (text_at v "type") in
    if is_text kind "message_start"
    then on_message_start v st ctx
    else if is_text kind "content_block_start"
    then on_block_start v st ctx
    else if is_text kind "content_block_delta"
    then on_block_delta serde v st ctx
    else if is_text kind "content_block_stop"
    then on_block_stop v st ctx
    else if is_text kind "message_delta"
    then on_message_delta v st ctx
    else if is_text kind "message_stop"
    then ((record st { message_stop_emitted = true }, ctx), none)
    else if is_text kind "ping"
    then ((st, ctx), none)
    else if is_text kind "error"
    then on_error v st ctx
    else ((st, degrade "stream.event.type" ("未知事件: " +++ kind) ctx), none)

abbrev pub handled : Handled → (StreamState × ConvCtx) × Conv (Option IrChunk)
handled (after, c) = (after, done c)

abbrev read_line :
    Serde
    → Option Value
    → (error : String) → StreamState
    → ConvCtx
    → (StreamState × ConvCtx) × Conv (Option IrChunk)
read_line serde none error st ctx = ((st, ctx), failed (parse error))
read_line serde (some (obj o)) error st ctx = handled (read_event serde (obj o) st ctx)
read_line serde (some _) error st ctx = ((st, ctx), failed (parse "chunk 不是对象"))

unfoldable pub chunk_to_ir :
    Serde → String → StreamState → ConvCtx → (StreamState × ConvCtx) × Conv (Option IrChunk)
unfolding read_event
chunk_to_ir serde line st ctx = read_line serde (serde.read line) (serde.read_error line) st ctx
