-- ===== src/Protocol/Anthropic/Events/Back.antt =====
-- What is read back from the events of a stream that was written.
use nextapi.Base.{
  ℕ, Bool, ◌≡◌, refl, sym, ap, ◌∙◌, inl, inr, Option, none, some, List, [], ◌∷◌, ◌++◌,
  is_empty_text, if◌then◌else◌, Bool-cases, lookup, lookup-insert_self, ℕ_eq,
}
use nextapi.Base.Json.{get, get_field, index, Serde}
use nextapi.Protocol.Ir.{ConvCtx, IrChunk}
use nextapi.Protocol.Anthropic.Events.{
  StreamState, fresh, Piece, opens_text, opens_thinking, opens_tool_use, text_delta, thinking_delta,
  input_json_delta, Event, message_start, content_block_start, content_block_delta,
  content_block_stop, message_delta, message_delta_end, message_stop, event_value,
}
use nextapi.Protocol.Anthropic.Events.Grammar.{
  a_text, a_thought, a_call, Reading, before, between, inside, ended, over, Step, begins, opens,
  adds, closes, reasons, fails, stops, Run, here, after,
}
use nextapi.Sse.Chunks.{append_nil}
use nextapi.Protocol.Anthropic.Events.Write.{first_delta}
use nextapi.Protocol.Anthropic.Events.Read.{
  Handled, on_message_start, on_block_start, on_block_delta, on_block_stop, on_message_delta,
  read_event,
}
use nextapi.Protocol.Anthropic.Events.Stream.{whole, whole-Run}
use nextapi.Protocol.Anthropic.Events.Chunk.{IsOrderly}
use nextapi.Protocol.Anthropic.Events.Pieces.{pieces, delta_pieces, chunk_pieces, pieces-whole}

abbrev cons_chunk : Option IrChunk → List IrChunk → List IrChunk
cons_chunk none cs = cs
cons_chunk (some c) cs = c ∷ cs

-- The chunks that a list of events is read as, and the state behind them.
unfoldable pub read_all : Serde → List Event → StreamState → ConvCtx → List IrChunk
unfolding read_event
read_all serde [] st ctx = []
read_all serde (e ∷ es) st ctx =
    let ((st₁, ctx₁), c) = read_event serde (event_value e) st ctx in
    cons_chunk c (read_all serde es st₁ ctx₁)

-- All increments but the empty ones of tool calls: the start of a tool call is read as one more of these.
abbrev pub solid : List Piece → List Piece
solid [] = []
solid (text_delta s ∷ ps) = text_delta s ∷ solid ps
solid (thinking_delta s ∷ ps) = thinking_delta s ∷ solid ps
solid (input_json_delta s ∷ ps) =
    let rest = solid ps in if is_empty_text s then rest else input_json_delta s ∷ rest

solid-append : (ps qs : List Piece) → solid (ps ++ qs) ≡ solid ps ++ solid qs
solid-append [] qs = refl
solid-append (text_delta s ∷ ps) qs = ap (λ x. text_delta s ∷ x) (solid-append ps qs)
solid-append (thinking_delta s ∷ ps) qs = ap (λ x. thinking_delta s ∷ x) (solid-append ps qs)
solid-append (input_json_delta s ∷ ps) qs = elim (Bool-cases (is_empty_text s)) [
  | inl e ↦ rw e (solid-append ps qs)
  | inr e ↦ rw e (ap (λ x. input_json_delta s ∷ x) (solid-append ps qs))
]

-- Inside a tool call the block is registered.
abbrev Registered : Reading → StreamState → Type 0
Registered before st = Unit
Registered (between n) st = Unit
Registered (inside i a_text) st = Unit
Registered (inside i a_thought) st = Unit
Registered (inside i a_call) st = (k : ℕ) × (lookup i st.block_to_tool ≡ some k)
Registered ended st = Unit
Registered over st = Unit

-- The chunk of an event has its increment, and the state behind it is registered.
abbrev Reads : Event → Reading → Handled → Type 0
Reads e s h =
    (solid (chunk_pieces (cons_chunk h.1 [])) ≡ solid (pieces (e ∷ []))) × Registered s h.0.0

Step-Reads :
    (serde : Serde) (st : StreamState) (ctx : ConvCtx) {r s : Reading} {e : Event}
    → Step r e s
    → Registered r st
    → Reads e s (read_event serde (event_value e) st ctx)
unfolding read_event event_value on_message_start on_block_start on_block_delta on_block_stop
    on_message_delta get get_field index
Step-Reads serde st ctx (begins id model u) q = (refl, tt)
Step-Reads serde st ctx (opens i opens_text) q = (refl, tt)
Step-Reads serde st ctx (opens i opens_thinking) q = (refl, tt)
Step-Reads serde st ctx (opens i (opens_tool_use id name)) q =
    (refl, (st.next_tool_index, lookup-insert_self i st.next_tool_index st.block_to_tool))
Step-Reads serde st ctx (adds i (text_delta x)) q = (refl, tt)
Step-Reads serde st ctx (adds i (thinking_delta x)) q = (refl, tt)
Step-Reads serde st ctx (adds i (input_json_delta x)) (k, e) = rw e (refl, (k, e))
Step-Reads serde st ctx (closes i k) q = (refl, tt)
Step-Reads serde st ctx (reasons i x u) q = (refl, tt)
Step-Reads serde st ctx (fails i u) q = (refl, tt)
Step-Reads serde st ctx stops q = (refl, tt)

solid-cons :
    (c : Option IrChunk) (cs : List IrChunk)
    → solid (chunk_pieces (cons_chunk c cs))
      ≡ solid (chunk_pieces (cons_chunk c [])) ++ solid (chunk_pieces cs)
solid-cons none cs = refl
solid-cons (some c) cs =
    let d = delta_pieces (first_delta c.choices) in
    rw (solid-append d (chunk_pieces cs), append_nil d) refl

solid-event :
    (e : Event) (es : List Event)
    → solid (pieces (e ∷ es)) ≡ solid (pieces (e ∷ [])) ++ solid (pieces es)
solid-event (message_start id model u) es = refl
solid-event (content_block_start i b) es = refl
solid-event (content_block_delta i p) es = solid-append (p ∷ []) (pieces es)
solid-event (content_block_stop i) es = refl
solid-event (message_delta x u) es = refl
solid-event (message_delta_end u) es = refl
solid-event message_stop es = refl

read-Run :
    (serde : Serde) {r s : Reading} {es : List Event} (st : StreamState) (ctx : ConvCtx)
    → Run r es s
    → Registered r st
    → solid (chunk_pieces (read_all serde es st ctx)) ≡ solid (pieces es)
unfolding read_all
read-Run serde st ctx here q = refl
read-Run serde st ctx (after {e = e} {es = es} p ps) q =
    let h = read_event serde (event_value e) st ctx in
    let one = Step-Reads serde st ctx p q in
    solid-cons h.1 (read_all serde es h.0.0 h.0.1)
    ∙ rw (one.0, read-Run serde h.0.0 h.0.1 ps one.1) (sym (solid-event e es))

-- A stream with a chunk, behind whose first finish reason only counts come, is read back from the events it is written
-- as with the text, reasoning and arguments of its chunks' first choices, unchanged and in order, but for empty arguments.
pub read_all-whole :
    (serde : Serde) (c : IrChunk) (cs : List IrChunk) (broke : Bool) (ctx ctx' : ConvCtx)
    → IsOrderly (c ∷ cs)
    → solid (chunk_pieces (read_all serde (whole (c ∷ cs) broke ctx) fresh ctx'))
      ≡ solid (chunk_pieces (c ∷ cs))
read_all-whole serde c cs broke ctx ctx' q =
    read-Run serde fresh ctx' (whole-Run c cs broke ctx q) tt
    ∙ ap solid (pieces-whole (c ∷ cs) broke ctx)
