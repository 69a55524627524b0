-- ===== src/Protocol/Anthropic/Events.antt =====
-- src/protocol/anthropic.rs: the state of a stream, and the events that a chunk is written as.
pub mod Grammar
pub mod Write
pub mod Legal
pub mod Chunk
pub mod Stream
pub mod Pieces
pub mod Twice
pub mod Read
pub mod Back
use Prim.Native.Nat.{max}
use nextapi.Base.{
  ℕ, ◌+◌, ◌%◌, ◌^◌, String, Bool, true, false, ◌&&◌, not, Option, none, some, List, [], ◌∷◌, ◌++◌,
  map, if◌then◌else◌, or_empty, first_of, is_empty_text, is_text, Table, lookup, insert, ℕ_eq, eqb,
}
use nextapi.Base.Json.{
  Value, null, str, obj, Fields, no_fields, field, fields_of, json, put_some, array, Serde,
}
use nextapi.Protocol.Chat.Parts.{is_none, opt_str}
use nextapi.Protocol.Chat.Tools.{on_some}
use nextapi.Protocol.Chat.Usage.{u64_value}
use nextapi.Protocol.Chat.Chunk.{no_delta}
use nextapi.Protocol.Ir.{
  ConvCtx, degrade, Conv, done, IrUsage, IrToolCallDelta, IrDelta, IrChunkChoice, IrChunk,
}

-- The block that is open, with its index.
pub data OpenBlock : Type 0 where
  text : ℕ → OpenBlock
  thinking : ℕ → OpenBlock
  tool : ℕ → OpenBlock

pub record StreamState : Type 0 where
  pub id : String
  pub model : String
  pub usage : IrUsage
  pub block_to_tool : Table ℕ ℕ
  pub next_tool_index : ℕ
  pub message_start_emitted : Bool
  pub message_stop_emitted : Bool
  pub message_delta_emitted : Bool
  pub next_block_index : ℕ
  pub open_block : Option OpenBlock
  pub tool_block_of : Table ℕ ℕ
  pub tool_meta : Table ℕ (String × String)
  pub pending_finish : Option String

abbrev pub no_usage : IrUsage
no_usage = record {
  prompt_tokens = 0;
  completion_tokens = 0;
  cache_read_tokens = none;
  cache_write_tokens = none;
  total_tokens = none;
  extra = no_fields;
}

-- `StreamState::default()`
abbrev pub fresh : StreamState
fresh = record {
  id = "";
  model = "";
  usage = no_usage;
  block_to_tool = [];
  next_tool_index = 0;
  message_start_emitted = false;
  message_stop_emitted = false;
  message_delta_emitted = false;
  next_block_index = 0;
  open_block = none;
  tool_block_of = [];
  tool_meta = [];
  pending_finish = none;
}

-- What a block starts with.
pub data Block : Type 0 where
  opens_text : Block
  opens_thinking : Block
  opens_tool_use : (id name : String) → Block

-- What is added to a block.
pub data Piece : Type 0 where
  text_delta : String → Piece
  thinking_delta : String → Piece
  input_json_delta : String → Piece

pub data Event : Type 0 where
  message_start : (id model : String) → IrUsage → Event
  content_block_start : ℕ → Block → Event
  content_block_delta : ℕ → Piece → Event
  content_block_stop : ℕ → Event
  message_delta : (reason : String) → IrUsage → Event
  message_delta_end : IrUsage → Event
  message_stop : Event

unfoldable pub reverse_finish_reason : String → String
reverse_finish_reason fr =
    if is_text fr "stop"
    then "end_turn"
    else if is_text fr "length"
    then "max_tokens"
    else if is_text fr "tool_calls"
    then "tool_use"
    else fr

unfoldable pub counts_of : IrUsage → Value
counts_of u = obj (
    put_some "cache_creation_input_tokens" (on_some u64_value u.cache_write_tokens) (
      put_some "cache_read_input_tokens" (on_some u64_value u.cache_read_tokens) (
        fields_of (
          ("input_tokens", u64_value u.prompt_tokens)
          ∷ ("output_tokens", u64_value u.completion_tokens)
          ∷ []))))

abbrev pub block_value : Block → Value
block_value opens_text = json (("type", str "text") ∷ ("text", str "") ∷ [])
block_value opens_thinking =
    json (("type", str "thinking") ∷ ("thinking", str "") ∷ ("signature", str "") ∷ [])
block_value (opens_tool_use id name) =
    json (("type", str "tool_use") ∷ ("id", str id) ∷ ("name", str name) ∷ ("input", json []) ∷ [])

abbrev pub piece_value : Piece → Value
piece_value (text_delta s) = json (("type", str "text_delta") ∷ ("text", str s) ∷ [])
piece_value (thinking_delta s) = json (("type", str "thinking_delta") ∷ ("thinking", str s) ∷ [])
piece_value (input_json_delta s) =
    json (("type", str "input_json_delta") ∷ ("partial_json", str s) ∷ [])

abbrev pub delta_value : Value → Value → Value
delta_value reason usage = json (
    ("type", str "message_delta")
    ∷ ("delta", json (("stop_reason", reason) ∷ ("stop_sequence", null) ∷ []))
    ∷ ("usage", usage)
    ∷ [])

abbrev pub message_value : String → String → IrUsage → Value
message_value id model u = json (
    ("id", str id)
    ∷ ("type", str "message")
    ∷ ("role", str "assistant")
    ∷ ("model", str model)
    ∷ ("content", array [])
    ∷ ("usage", counts_of u)
    ∷ ("stop_reason", null)
    ∷ ("stop_sequence", null)
    ∷ [])

unfoldable pub event_value : Event → Value
unfolding counts_of reverse_finish_reason
event_value (message_start id model u) =
    json (("type", str "message_start") ∷ ("message", message_value id model u) ∷ [])
event_value (content_block_start i b) = json (
    ("type", str "content_block_start")
    ∷ ("index", u64_value i)
    ∷ ("content_block", block_value b)
    ∷ [])
event_value (content_block_delta i p) =
    json
      (("type", str "content_block_delta") ∷ ("index", u64_value i) ∷ ("delta", piece_value p) ∷ [])
event_value (content_block_stop i) =
    json (("type", str "content_block_stop") ∷ ("index", u64_value i) ∷ [])
event_value (message_delta reason u) =
    delta_value (str (reverse_finish_reason reason)) (counts_of u)
event_value (message_delta_end u) =
    delta_value null (json (("output_tokens", u64_value u.completion_tokens) ∷ []))
event_value message_stop = json (("type", str "message_stop") ∷ [])
