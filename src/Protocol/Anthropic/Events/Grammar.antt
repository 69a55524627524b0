-- ===== src/Protocol/Anthropic/Events/Grammar.antt =====
-- The events of a message as a client may read them: one block at a time, each with the next index.
use nextapi.Base.{ℕ, String, List, [], ◌∷◌, ◌++◌}
use nextapi.Protocol.Ir.{IrUsage}
use nextapi.Protocol.Anthropic.Events.{
  Block, opens_text, opens_thinking, opens_tool_use, Piece, text_delta, thinking_delta,
  input_json_delta, Event, message_start, content_block_start, content_block_delta,
  content_block_stop, message_delta, message_delta_end, message_stop,
}
use nextapi.Protocol.Anthropic.Events.Write.{next_index}

pub data Kind : Type 0 where
  a_text : Kind
  a_thought : Kind
  a_call : Kind

abbrev pub block_kind : Block → Kind
block_kind opens_text = a_text
block_kind opens_thinking = a_thought
block_kind (opens_tool_use id name) = a_call

abbrev pub piece_kind : Piece → Kind
piece_kind (text_delta s) = a_text
piece_kind (thinking_delta s) = a_thought
piece_kind (input_json_delta s) = a_call

-- What a client has read: nothing; blocks below an index; a part of a block; the reason of the end; all.
pub data Reading : Type 0 where
  before : Reading
  between : (next : ℕ) → Reading
  inside : (index : ℕ) → Kind → Reading
  ended : Reading
  over : Reading

pub data Step : Reading → Event → Reading → Type 0 where
  begins : (id model : String) (u : IrUsage) → Step before (message_start id model u) (between 0)
  opens : (i : ℕ) (b : Block) → Step (between i) (content_block_start i b) (inside i (block_kind b))
  adds :
      (i : ℕ) (p : Piece)
      → Step (inside i (piece_kind p)) (content_block_delta i p) (inside i (piece_kind p))
  closes : (i : ℕ) (k : Kind) → Step (inside i k) (content_block_stop i) (between (next_index i))
  reasons : (i : ℕ) (s : String) (u : IrUsage) → Step (between i) (message_delta s u) ended
  fails : (i : ℕ) (u : IrUsage) → Step (between i) (message_delta_end u) ended
  stops : Step ended message_stop over

pub data Run : Reading → List Event → Reading → Type 0 where
  here : {r : Reading} → Run r [] r
  after :
      {r s t : Reading} {e : Event} {es : List Event} → Step r e s → Run s es t → Run r (e ∷ es) t

pub Run-append :
    {r s t : Reading} {es fs : List Event} → Run r es s → Run s fs t → Run r (es ++ fs) t
Run-append here q = q
Run-append (after p ps) q = after p (Run-append ps q)
