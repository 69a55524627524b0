-- ===== src/Protocol/Anthropic/Events/Legal.antt =====
-- Where a stream is in the grammar of its events, and what each part of a chunk does to that.
use nextapi.Base.{
  ℕ, String, true, false, ◌≡◌, refl, sym, ap, subst, inl, inr, Option, none, some, List, [], ◌∷◌,
  ◌++◌, arith, Option-cases, lookup, ℕ_eq, or_empty, eqb_iff,
}
use nextapi.Protocol.Ir.{ConvCtx, IrToolCallDelta}
use nextapi.Protocol.Anthropic.Events.{
  OpenBlock, text, thinking, tool, StreamState, Block, opens_text, opens_thinking, Piece,
  text_delta, thinking_delta, input_json_delta, Event, content_block_start, content_block_delta,
}
use nextapi.Protocol.Anthropic.Events.Grammar.{
  Kind, a_text, a_thought, a_call, block_kind, piece_kind, Reading, between, inside, opens, adds,
  closes, Run, here, after, Run-append,
}
use nextapi.Protocol.Anthropic.Events.Write.{
  block_index, stop_events, next_index, close_open_block, open_as, open_text, open_thinking,
  push_text, push_thinking, note_tool, tool_start, open_tool, push_tool, push_tools,
}

abbrev pub open_kind : OpenBlock → Kind
open_kind (text i) = a_text
open_kind (thinking i) = a_thought
open_kind (tool i) = a_call

-- Where the client is, by the open block and the next index.
abbrev pub place : Option OpenBlock → ℕ → Reading
place none n = between n
place (some b) n = inside (block_index b) (open_kind b)

-- The next index is the one behind that of the open block.
abbrev pub IsTracked : Option OpenBlock → ℕ → Type 0
IsTracked none n = Unit
IsTracked (some b) n = n ≡ next_index (block_index b)

abbrev pub place_of : StreamState → Reading
place_of st = place st.open_block st.next_block_index

-- A message that has begun and whose end is not told.
pub record IsLive (st : StreamState) : Type 0 where
  pub started : st.message_start_emitted ≡ true
  pub unfinished : st.message_delta_emitted ≡ false
  pub unstopped : st.message_stop_emitted ≡ false
  pub unpending : st.pending_finish ≡ none
  pub tracked : IsTracked st.open_block st.next_block_index

-- From a live state to another, by events that a client may read.
abbrev pub Goes : StreamState → List Event → StreamState → Type 0
Goes st es to = Run (place_of st) es (place_of to) × IsLive to

pub stop-Run :
    (o : Option OpenBlock) (n : ℕ) → IsTracked o n → Run (place o n) (stop_events o) (between n)
stop-Run none n t = here
stop-Run (some b) n t =
    subst (λ m. Run (place (some b) n) (stop_events (some b)) (between m)) (sym t)
      (after (closes (block_index b) (open_kind b)) here)

start-Run :
    (o : Option OpenBlock) (n : ℕ) (b : Block) (p : Piece)
    → piece_kind p ≡ block_kind b
    → IsTracked o n
    → Run
        (place o n)
        ((stop_events o ++ (content_block_start n b ∷ [])) ++ (content_block_delta n p ∷ []))
        (inside n (block_kind b))
start-Run o n b p e t = Run-append (Run-append (stop-Run o n t) (after (opens n b) here)) (
    subst (λ k. Run (inside n k) (content_block_delta n p ∷ []) (inside n k)) e
      (after (adds n p) here))

-- A new block with its first part.
open_as-Goes :
    (kind : ℕ → OpenBlock) (b : Block) (p : Piece) (st : StreamState)
    → ((i : ℕ) → block_index (kind i) ≡ i)
    → ((i : ℕ) → open_kind (kind i) ≡ block_kind b)
    → piece_kind p ≡ block_kind b
    → IsLive st
    → Goes st
        ((open_as kind b st).1 ++ (content_block_delta st.next_block_index p ∷ []))
        (open_as kind b st).0
unfolding open_as close_open_block
open_as-Goes kind b p st hi hk hp l =
    let n = st.next_block_index in
    (
      rw (hi n, hk n) (start-Run st.open_block n b p hp l.tracked),
      record {
        started = l.started;
        unfinished = l.unfinished;
        unstopped = l.unstopped;
        unpending = l.unpending;
        tracked = ap next_index (sym (hi n));
      },
    )

open_text-some : (o : Option OpenBlock) (i : ℕ) → open_text o ≡ some i → o ≡ some (text i)
open_text-some none i h = cc
open_text-some (some (text j)) i h = cc
open_text-some (some (thinking j)) i h = cc
open_text-some (some (tool j)) i h = cc

open_thinking-some :
    (o : Option OpenBlock) (i : ℕ) → open_thinking o ≡ some i → o ≡ some (thinking i)
open_thinking-some none i h = cc
open_thinking-some (some (text j)) i h = cc
open_thinking-some (some (thinking j)) i h = cc
open_thinking-some (some (tool j)) i h = cc

-- A part for the block that is open.
more-Run :
    (o : Option OpenBlock) (n : ℕ) (b : OpenBlock) (p : Piece)
    → o ≡ some b
    → piece_kind p ≡ open_kind b
    → Run (place o n) (content_block_delta (block_index b) p ∷ []) (place o n)
more-Run o n b p e k =
    let q : Run (inside (block_index b) (open_kind b)) (content_block_delta (block_index b) p ∷ [])
        (inside (block_index b) (open_kind b)) =
      subst
        (λ k.
          Run (inside (block_index b) k) (content_block_delta (block_index b) p ∷ [])
            (inside (block_index b) k))
        k (after (adds (block_index b) p) here) in
    subst (λ x. Run (place x n) (content_block_delta (block_index b) p ∷ []) (place x n)) (sym e) q

pub push_text-Goes :
    (s : Option String) (st : StreamState)
    → IsLive st
    → Goes st (push_text s st).1 (push_text s st).0
unfolding push_text open_as close_open_block
push_text-Goes none st l = (here, l)
push_text-Goes (some s) st l = elim (Option-cases (open_text st.open_block)) [
  | inl e ↦
      rw (e, push_text)
        (open_as-Goes text opens_text (text_delta s) st (λ i. refl) (λ i. refl) refl l)
  | inr (i, e) ↦
      rw (e, push_text)
        (
          more-Run st.open_block st.next_block_index (text i) (text_delta s)
              (open_text-some st.open_block i e) refl,
          l,
        )
]

pub push_thinking-Goes :
    (s : Option String) (st : StreamState)
    → IsLive st
    → Goes st (push_thinking s st).1 (push_thinking s st).0
unfolding push_thinking open_as close_open_block
push_thinking-Goes none st l = (here, l)
push_thinking-Goes (some s) st l = elim (Option-cases (open_thinking st.open_block)) [
  | inl e ↦
      rw (e, push_thinking)
        (open_as-Goes thinking opens_thinking (thinking_delta s) st (λ i. refl) (λ i. refl) refl l)
  | inr (i, e) ↦
      rw (e, push_thinking)
        (
          more-Run st.open_block st.next_block_index (thinking i) (thinking_delta s)
              (open_thinking-some st.open_block i e) refl,
          l,
        )
]

open_tool-some :
    (k : Option ℕ) (o : Option OpenBlock) (i : ℕ) → open_tool k o ≡ some i → o ≡ some (tool i)
open_tool-some none o i h = cc
open_tool-some (some b) none i h = cc
open_tool-some (some b) (some (text j)) i h = cc
open_tool-some (some b) (some (thinking j)) i h = cc
open_tool-some (some b) (some (tool j)) i h = ground (arith, eqb_iff j b)

note_tool-IsLive : (tc : IrToolCallDelta) (st : StreamState) → IsLive st → IsLive (note_tool tc st)
unfolding note_tool
note_tool-IsLive tc st l = record {
  started = l.started;
  unfinished = l.unfinished;
  unstopped = l.unstopped;
  unpending = l.unpending;
  tracked = l.tracked;
}

pub push_tool-Goes :
    (tc : IrToolCallDelta) (st : StreamState) (ctx : ConvCtx)
    → IsLive st
    → Goes st (push_tool tc st ctx).1 (push_tool tc st ctx).0.0
unfolding push_tool open_as close_open_block note_tool tool_start
push_tool-Goes tc st ctx l =
    let known = lookup tc.index st.tool_block_of in
    elim (Option-cases (open_tool known st.open_block)) [
      | inl e ↦
          rw (e, push_tool)
            (let g =
                open_as-Goes tool (tool_start tc (note_tool tc st))
                  (input_json_delta (or_empty tc.arguments)) (note_tool tc st) (λ i. refl)
                  (λ i. refl) refl (note_tool-IsLive tc st l) in
              (
                g.0,
                record {
                  started = l.started;
                  unfinished = l.unfinished;
                  unstopped = l.unstopped;
                  unpending = l.unpending;
                  tracked = refl;
                },
              ))
      | inr (i, e) ↦
          rw (e, push_tool)
            (
              more-Run st.open_block st.next_block_index (tool i)
                  (input_json_delta (or_empty tc.arguments))
                  (open_tool-some known st.open_block i e) refl,
              note_tool-IsLive tc st l,
            )
    ]

pub push_tools-Goes :
    (tcs : List IrToolCallDelta) (st : StreamState) (ctx : ConvCtx)
    → IsLive st
    → Goes st (push_tools tcs st ctx).1 (push_tools tcs st ctx).0.0
unfolding push_tools
push_tools-Goes [] st ctx l = (here, l)
push_tools-Goes (tc ∷ tcs) st ctx l =
    let one = push_tool-Goes tc st ctx l in
    let rest = push_tools-Goes tcs (push_tool tc st ctx).0.0 (push_tool tc st ctx).0.1 one.1 in
    (Run-append one.0 rest.0, rest.1)
