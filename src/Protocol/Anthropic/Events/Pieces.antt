-- ===== src/Protocol/Anthropic/Events/Pieces.antt =====
-- What the chunks of a stream say goes into the events whole and in order.
use nextapi.Base.{
  ℕ, String, Bool, ◌≡◌, refl, ap, subst, inl, inr, ◌&&◌, not, Option, none, some, List, [], ◌∷◌,
  ◌++◌, Option-cases, Bool-cases, or_empty, is_text, lookup, ℕ_eq, if◌then◌else◌,
}
use nextapi.Protocol.Chat.Parts.{is_none}
use nextapi.Protocol.Ir.{ConvCtx, IrUsage, IrToolCallDelta, IrDelta, IrChunk}
use nextapi.Sse.Chunks.{append_nil}
use nextapi.Protocol.Anthropic.Events.{
  OpenBlock, StreamState, Block, fresh, Piece, text_delta, thinking_delta, input_json_delta,
  opens_text, opens_thinking, Event, message_start, content_block_start, content_block_delta,
  content_block_stop, message_delta, message_delta_end, message_stop,
}
use nextapi.Protocol.Anthropic.Events.Write.{
  close_open_block, stop_events, open_as, open_text, open_thinking, open_tool, push_text,
  push_thinking, push_tool, push_tools, start_message, add_usage, note_tool, tool_start,
  finish_message, first_delta, first_finish, chunk_events, mark_failed, last_delta, end_delta,
  end_message, end_events,
}
use nextapi.Protocol.Anthropic.Events.Stream.{write_all, whole}

-- The increments of a sequence of events.
abbrev pub pieces : List Event → List Piece
pieces [] = []
pieces (content_block_delta i p ∷ es) = p ∷ pieces es
pieces (message_start id model u ∷ es) = pieces es
pieces (content_block_start i b ∷ es) = pieces es
pieces (content_block_stop i ∷ es) = pieces es
pieces (message_delta s u ∷ es) = pieces es
pieces (message_delta_end u ∷ es) = pieces es
pieces (message_stop ∷ es) = pieces es

abbrev pub opt_piece : (String → Piece) → Option String → List Piece
opt_piece f none = []
opt_piece f (some s) = f s ∷ []

abbrev pub call_pieces : List IrToolCallDelta → List Piece
call_pieces [] = []
call_pieces (tc ∷ tcs) = input_json_delta (or_empty tc.arguments) ∷ call_pieces tcs

abbrev pub delta_pieces : IrDelta → List Piece
delta_pieces d =
    opt_piece text_delta d.content
    ++ opt_piece thinking_delta d.reasoning_content
    ++ call_pieces d.tool_calls

abbrev pub chunk_pieces : List IrChunk → List Piece
chunk_pieces [] = []
chunk_pieces (c ∷ cs) = delta_pieces (first_delta c.choices) ++ chunk_pieces cs

pieces-append : (es fs : List Event) → pieces (es ++ fs) ≡ pieces es ++ pieces fs
pieces-append [] fs = refl
pieces-append (content_block_delta i p ∷ es) fs = ap (λ x. p ∷ x) (pieces-append es fs)
pieces-append (message_start id model u ∷ es) fs = pieces-append es fs
pieces-append (content_block_start i b ∷ es) fs = pieces-append es fs
pieces-append (content_block_stop i ∷ es) fs = pieces-append es fs
pieces-append (message_delta s u ∷ es) fs = pieces-append es fs
pieces-append (message_delta_end u ∷ es) fs = pieces-append es fs
pieces-append (message_stop ∷ es) fs = pieces-append es fs

pieces-open_as :
    (b : Block) (p : Piece) (n : ℕ) (o : Option OpenBlock)
    → pieces ((stop_events o ++ (content_block_start n b ∷ [])) ++ (content_block_delta n p ∷ []))
      ≡ p ∷ []
pieces-open_as b p n none = refl
pieces-open_as b p n (some x) = refl

pieces-push_text :
    (s : Option String) (st : StreamState) → pieces (push_text s st).1 ≡ opt_piece text_delta s
unfolding push_text open_as close_open_block
pieces-push_text none st = refl
pieces-push_text (some s) st = elim (Option-cases (open_text st.open_block)) [
  | inl e ↦
      rw (e, push_text) (pieces-open_as opens_text (text_delta s) st.next_block_index st.open_block)
  | inr (i, e) ↦ rw (e, push_text) refl
]

pieces-push_thinking :
    (s : Option String) (st : StreamState)
    → pieces (push_thinking s st).1 ≡ opt_piece thinking_delta s
unfolding push_thinking open_as close_open_block
pieces-push_thinking none st = refl
pieces-push_thinking (some s) st = elim (Option-cases (open_thinking st.open_block)) [
  | inl e ↦
      rw (e, push_thinking)
        (pieces-open_as opens_thinking (thinking_delta s) st.next_block_index st.open_block)
  | inr (i, e) ↦ rw (e, push_thinking) refl
]

pieces-push_tool :
    (tc : IrToolCallDelta) (st : StreamState) (ctx : ConvCtx)
    → pieces (push_tool tc st ctx).1 ≡ input_json_delta (or_empty tc.arguments) ∷ []
unfolding push_tool open_as close_open_block note_tool
pieces-push_tool tc st ctx =
    elim (Option-cases (open_tool (lookup tc.index st.tool_block_of) st.open_block)) [
      | inl e ↦
          rw (e, push_tool)
            (pieces-open_as (tool_start tc (note_tool tc st))
              (input_json_delta (or_empty tc.arguments)) st.next_block_index st.open_block)
      | inr (i, e) ↦ rw (e, push_tool) refl
    ]

pieces-push_tools :
    (tcs : List IrToolCallDelta) (st : StreamState) (ctx : ConvCtx)
    → pieces (push_tools tcs st ctx).1 ≡ call_pieces tcs
unfolding push_tools
pieces-push_tools [] st ctx = refl
pieces-push_tools (tc ∷ tcs) st ctx =
    let (st₁, ctx₁) = (push_tool tc st ctx).0 in
    rw
      (
        pieces-append (push_tool tc st ctx).1 (push_tools tcs st₁ ctx₁).1,
        pieces-push_tool tc st ctx,
        pieces-push_tools tcs st₁ ctx₁,
      )
      refl

pieces-start : (c : IrChunk) (st : StreamState) → pieces (start_message c st).1 ≡ []
unfolding start_message
pieces-start c st = elim (Bool-cases st.message_start_emitted) [
  | inl e ↦ rw (e, start_message) refl
  | inr e ↦ rw (e, start_message) refl
]

pieces-stop : (o : Option OpenBlock) (es : List Event) → pieces (stop_events o ++ es) ≡ pieces es
pieces-stop none es = refl
pieces-stop (some b) es = refl

pieces-finish :
    (f : Option String) (has_usage : Bool) (st : StreamState)
    → pieces (finish_message f has_usage st).1 ≡ []
unfolding finish_message close_open_block
pieces-finish none has_usage st = elim (Option-cases st.pending_finish) [
  | inl e ↦ rw (e, finish_message) refl
  | inr (reason, e) ↦ elim (Bool-cases (has_usage && not st.message_delta_emitted)) [
    | inl t ↦ rw (e, t, finish_message) refl
    | inr t ↦ rw (e, t, finish_message) refl
  ]
]
pieces-finish (some reason) has_usage st = elim (Bool-cases (is_text reason "failed")) [
  | inl e ↦ rw (e, finish_message) (pieces-stop st.open_block (message_delta_end st.usage ∷ []))
  | inr e ↦ elim (Bool-cases has_usage) [
    | inl t ↦
        rw (e, t, finish_message) (pieces-stop st.open_block (message_delta reason st.usage ∷ []))
    | inr t ↦
        rw (e, t, finish_message)
          (subst (λ x. pieces x ≡ []) (append_nil (stop_events st.open_block))
            (pieces-stop st.open_block []))
  ]
]

pieces-last :
    (o : Option String) (u : IrUsage) (es : List Event) → pieces (last_delta o u ∷ es) ≡ pieces es
pieces-last none u es = refl
pieces-last (some s) u es = elim (Bool-cases (is_text s "failed")) [
  | inl e ↦ rw e refl
  | inr e ↦ rw e refl
]

pieces-end_delta : (st : StreamState) → pieces (end_delta st).1 ≡ []
unfolding end_delta
pieces-end_delta st = elim (Bool-cases (st.message_start_emitted && not st.message_delta_emitted)) [
  | inl e ↦ rw (e, end_delta) (pieces-last st.pending_finish st.usage [])
  | inr e ↦ rw (e, end_delta) refl
]

pieces-end_message : (st : StreamState) → pieces (end_message st).1 ≡ []
unfolding end_message
pieces-end_message st =
    elim (Bool-cases (st.message_start_emitted && not st.message_stop_emitted)) [
      | inl e ↦ rw (e, end_message) refl
      | inr e ↦ rw (e, end_message) refl
    ]

pieces-end_events : (st : StreamState) → pieces (end_events st).1 ≡ []
unfolding end_events close_open_block
pieces-end_events st =
    let closed = record st { open_block = none } in
    let (st₁, deltas) = end_delta closed in
    rw
      (
        pieces-append (stop_events st.open_block ++ deltas) (end_message st₁).1,
        pieces-stop st.open_block deltas,
        pieces-end_delta closed,
      )
      (pieces-end_message st₁)

pieces-chunk_events :
    (c : IrChunk) (st : StreamState) (ctx : ConvCtx)
    → pieces (chunk_events c st ctx).1 ≡ delta_pieces (first_delta c.choices)
unfolding chunk_events
pieces-chunk_events c st ctx =
    let d = first_delta c.choices in
    let (st₁, starts) = start_message c st in
    let (st₂, texts) = push_text d.content st₁ in
    let (st₃, thoughts) = push_thinking d.reasoning_content st₂ in
    let ((st₄, ctx₁), tools) = push_tools d.tool_calls st₃ ctx in
    let ends =
      (finish_message (first_finish c.choices) (not (is_none c.usage)) (add_usage c.usage st₄)).1 in
    rw
      (
        pieces-append (starts ++ texts ++ thoughts ++ tools) ends,
        pieces-append (starts ++ texts ++ thoughts) tools,
        pieces-append (starts ++ texts) thoughts,
        pieces-append starts texts,
        pieces-start c st,
        pieces-push_text d.content st₁,
        pieces-push_thinking d.reasoning_content st₂,
        pieces-push_tools d.tool_calls st₃ ctx,
        pieces-finish (first_finish c.choices) (not (is_none c.usage)) (add_usage c.usage st₄),
      )
      (append_nil (delta_pieces d))

pieces-write_all :
    (cs : List IrChunk) (st : StreamState) (ctx : ConvCtx)
    → pieces (write_all cs st ctx).1 ≡ chunk_pieces cs
unfolding write_all
pieces-write_all [] st ctx = refl
pieces-write_all (c ∷ cs) st ctx =
    let (st₁, ctx₁) = (chunk_events c st ctx).0 in
    rw
      (
        pieces-append (chunk_events c st ctx).1 (write_all cs st₁ ctx₁).1,
        pieces-chunk_events c st ctx,
        pieces-write_all cs st₁ ctx₁,
      )
      refl

-- Every stream, orderly or not, broken or not: the increments in its events are those of its chunks' first choices, unchanged and in
-- order; of a chunk the text first, then the reasoning, then the arguments of the tool calls.
pub pieces-whole :
    (cs : List IrChunk) (broke : Bool) (ctx : ConvCtx)
    → pieces (whole cs broke ctx) ≡ chunk_pieces cs
unfolding whole
pieces-whole cs broke ctx =
    let st = (write_all cs fresh ctx).0.0 in
    let last = if broke then mark_failed st else st in
    rw
      (
        pieces-append (write_all cs fresh ctx).1 (end_events last).1,
        pieces-write_all cs fresh ctx,
        pieces-end_events last,
      )
      (append_nil (chunk_pieces cs))
