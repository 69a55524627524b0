-- ===== src/Protocol/Anthropic/Events/Write.antt =====
-- src/protocol/anthropic.rs: a chunk of a stream to events, and the end of the stream.
use Prim.Native.Nat.{max}
use nextapi.Base.{
  ℕ, suc, ◌%◌, ◌^◌, String, Bool, true, false, ◌&&◌, not, Option, none, some, List, [], ◌∷◌, ◌++◌,
  map, if◌then◌else◌, or_empty, first_of, is_text, lookup, insert, ℕ_eq, eqb,
}
use nextapi.Base.Json.{Serde}
use nextapi.Protocol.Chat.Parts.{is_none}
use nextapi.Protocol.Chat.Chunk.{no_delta}
use nextapi.Protocol.Ir.{
  ConvCtx, degrade, Conv, done, IrUsage, IrToolCallDelta, IrDelta, IrChunkChoice, IrChunk,
}
use nextapi.Protocol.Anthropic.Events.{
  OpenBlock, text, thinking, tool, StreamState, Block, opens_text, opens_thinking, opens_tool_use,
  text_delta, thinking_delta, input_json_delta, Event, message_start, content_block_start,
  content_block_delta, content_block_stop, message_delta, message_delta_end, message_stop,
  event_value,
}

abbrev pub block_index : OpenBlock → ℕ
block_index (text i) = i
block_index (thinking i) = i
block_index (tool i) = i

abbrev pub stop_events : Option OpenBlock → List Event
stop_events none = []
stop_events (some b) = content_block_stop (block_index b) ∷ []

unfoldable pub close_open_block : StreamState → StreamState × List Event
close_open_block st = (record st { open_block = none }, stop_events st.open_block)

-- `next_block_index += 1` on 32 bits.
abbrev pub next_index : ℕ → ℕ
next_index i = suc i % 2 ^ 32

-- Closes what is open and opens a block of the next index.
unfoldable pub open_as : (ℕ → OpenBlock) → Block → StreamState → StreamState × List Event
unfolding close_open_block
open_as kind b st =
    let (closed, stops) = close_open_block st in
    let i = closed.next_block_index in
    (
      record closed { next_block_index = next_index i; open_block = some (kind i) },
      stops ++ (content_block_start i b ∷ []),
    )

abbrev pub open_text : Option OpenBlock → Option ℕ
open_text (some (text i)) = some i
open_text _ = none

abbrev pub open_thinking : Option OpenBlock → Option ℕ
open_thinking (some (thinking i)) = some i
open_thinking _ = none

unfoldable pub push_text : Option String → StreamState → StreamState × List Event
unfolding open_as
push_text none st = (st, [])
push_text (some s) st = elim (open_text st.open_block) [
  | some i ↦ (st, content_block_delta i (text_delta s) ∷ [])
  | none ↦
      let (opened, starts) = open_as text opens_text st in
      (opened, starts ++ (content_block_delta st.next_block_index (text_delta s) ∷ []))
]

unfoldable pub push_thinking : Option String → StreamState → StreamState × List Event
unfolding open_as
push_thinking none st = (st, [])
push_thinking (some s) st = elim (open_thinking st.open_block) [
  | some i ↦ (st, content_block_delta i (thinking_delta s) ∷ [])
  | none ↦
      let (opened, starts) = open_as thinking opens_thinking st in
      (opened, starts ++ (content_block_delta st.next_block_index (thinking_delta s) ∷ []))
]

abbrev or_kept : Option String → String → String
or_kept none old = old
or_kept (some s) old = s

abbrev or_blank : Option (String × String) → String × String
or_blank none = ("", "")
or_blank (some m) = m

-- The identifier and the name of a tool call come with its first increment only.
unfoldable pub note_tool : IrToolCallDelta → StreamState → StreamState
note_tool tc st =
    let (id, name) = or_blank (lookup tc.index st.tool_meta) in
    record st { tool_meta = insert tc.index (or_kept tc.id id, or_kept tc.name name) st.tool_meta }

-- Where the increment has none, that of the table; an empty one is none and written as empty.
unfoldable pub tool_start : IrToolCallDelta → StreamState → Block
tool_start tc st =
    let (id, name) = or_blank (lookup tc.index st.tool_meta) in
    opens_tool_use (or_kept tc.id id) (or_kept tc.name name)

abbrev pub is_open_tool : Option OpenBlock → ℕ → Bool
is_open_tool (some (tool i)) b = eqb i b
is_open_tool _ b = false

abbrev pub open_tool : Option ℕ → Option OpenBlock → Option ℕ
open_tool none o = none
open_tool (some b) o = if is_open_tool o b then some b else none

abbrev note_split : Option ℕ → ConvCtx → ConvCtx
note_split none ctx = ctx
note_split (some b) ctx = degrade "stream.tool_calls" "并行工具调用增量交错，拆分为多个 tool_use 块" ctx

abbrev pub tool_piece : ℕ → IrToolCallDelta → Event
tool_piece b tc = content_block_delta b (input_json_delta (or_empty tc.arguments))

unfoldable pub push_tool :
    IrToolCallDelta → StreamState → ConvCtx → (StreamState × ConvCtx) × List Event
unfolding note_tool tool_start open_as
push_tool tc before ctx =
    let st = note_tool tc before in
    let known = lookup tc.index st.tool_block_of in
    elim (open_tool known st.open_block) [
      | some b ↦ ((st, ctx), tool_piece b tc ∷ [])
      | none ↦
          let i = st.next_block_index in
          let (opened, starts) = open_as tool (tool_start tc st) st in
          (
            (
              record opened { tool_block_of = insert tc.index i opened.tool_block_of },
              note_split known ctx,
            ),
            starts ++ (tool_piece i tc ∷ []),
          )
    ]

unfoldable pub push_tools :
    List IrToolCallDelta → StreamState → ConvCtx → (StreamState × ConvCtx) × List Event
unfolding push_tool
push_tools [] st ctx = ((st, ctx), [])
push_tools (tc ∷ tcs) st ctx =
    let ((st₁, ctx₁), first) = push_tool tc st ctx in
    let (after, rest) = push_tools tcs st₁ ctx₁ in (after, first ++ rest)

abbrev pub start_usage : Option IrUsage → IrUsage → IrUsage
start_usage none old = old
start_usage (some u) old = record old {
  prompt_tokens = u.prompt_tokens;
  cache_read_tokens = u.cache_read_tokens;
  cache_write_tokens = u.cache_write_tokens;
}

-- The first chunk starts the message.
unfoldable pub start_message : IrChunk → StreamState → StreamState × List Event
start_message c st =
    let usage = start_usage c.usage st.usage in
    if st.message_start_emitted then (st, []) else (
      record st { message_start_emitted = true; id = c.id; model = c.model; usage = usage },
      message_start c.id c.model usage ∷ [],
    )

-- The counts of a chunk are totals so far.
unfoldable pub add_usage : Option IrUsage → StreamState → StreamState
add_usage none st = st
add_usage (some u) st = record st {
  usage = record st.usage {
    prompt_tokens = u.prompt_tokens;
    completion_tokens = max st.usage.completion_tokens u.completion_tokens;
    cache_read_tokens = first_of u.cache_read_tokens st.usage.cache_read_tokens;
    cache_write_tokens = first_of u.cache_write_tokens st.usage.cache_write_tokens;
  };
}

-- After a finish reason the message's end waits for the usage, which may come with a later chunk.
unfoldable pub finish_message : Option String → Bool → StreamState → StreamState × List Event
unfolding close_open_block
finish_message (some reason) has_usage st =
    let (closed, stops) = close_open_block st in
    let ended = record closed { message_delta_emitted = true } in
    if is_text reason "failed"
    then (ended, stops ++ (message_delta_end closed.usage ∷ []))
    else if has_usage
    then (ended, stops ++ (message_delta reason closed.usage ∷ []))
    else (record closed { pending_finish = some reason }, stops)
finish_message none has_usage st = elim st.pending_finish [
  | none ↦ (st, [])
  | some reason ↦
      if has_usage && not st.message_delta_emitted
      then (
        record st { pending_finish = none; message_delta_emitted = true },
        message_delta reason st.usage ∷ [],
      )
      else (st, [])
]

abbrev pub first_delta : List IrChunkChoice → IrDelta
first_delta [] = no_delta
first_delta (c ∷ cs) = c.delta

abbrev pub first_finish : List IrChunkChoice → Option String
first_finish [] = none
first_finish (c ∷ cs) = c.finish_reason

unfoldable pub chunk_events : IrChunk → StreamState → ConvCtx → (StreamState × ConvCtx) × List Event
unfolding start_message push_text push_thinking push_tools add_usage finish_message
chunk_events c st ctx =
    let d = first_delta c.choices in
    let (st₁, starts) = start_message c st in
    let (st₂, texts) = push_text d.content st₁ in
    let (st₃, thoughts) = push_thinking d.reasoning_content st₂ in
    let ((st₄, ctx₁), tools) = push_tools d.tool_calls st₃ ctx in
    let (st₅, ends) =
      finish_message (first_finish c.choices) (not (is_none c.usage)) (add_usage c.usage st₄) in
    ((st₅, ctx₁), starts ++ texts ++ thoughts ++ tools ++ ends)

abbrev pub event_lines : Serde → List Event → List String
event_lines serde es = map (λ e. serde.print (event_value e)) es

unfoldable pub chunk_from_ir :
    Serde → IrChunk → StreamState → ConvCtx → (StreamState × ConvCtx) × Conv (List String)
unfolding chunk_events
chunk_from_ir serde c st ctx =
    let (after, es) = chunk_events c st ctx in (after, done (event_lines serde es))

-- The connection to the upstream broke.
unfoldable pub mark_failed : StreamState → StreamState
mark_failed st =
    if st.message_delta_emitted then st else record st { pending_finish = some "failed" }

abbrev pub last_delta : Option String → IrUsage → Event
last_delta none u = message_delta_end u
last_delta (some reason) u =
    if is_text reason "failed" then message_delta_end u else message_delta reason u

unfoldable pub end_delta : StreamState → StreamState × List Event
end_delta st =
    if st.message_start_emitted && not st.message_delta_emitted
    then (
      record st { pending_finish = none; message_delta_emitted = true },
      last_delta st.pending_finish st.usage ∷ [],
    )
    else (st, [])

unfoldable pub end_message : StreamState → StreamState × List Event
end_message st =
    if st.message_start_emitted && not st.message_stop_emitted
    then (record st { message_stop_emitted = true }, message_stop ∷ [])
    else (st, [])

unfoldable pub end_events : StreamState → StreamState × List Event
unfolding close_open_block end_delta end_message
end_events st =
    let (closed, stops) = close_open_block st in
    let (st₁, deltas) = end_delta closed in
    let (st₂, ends) = end_message st₁ in (st₂, stops ++ deltas ++ ends)

unfoldable pub stream_end :
    Serde → StreamState → ConvCtx → (StreamState × ConvCtx) × Conv (List String)
unfolding end_events
stream_end serde st ctx = let (st₁, es) = end_events st in ((st₁, ctx), done (event_lines serde es))
