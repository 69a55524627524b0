-- ===== src/Protocol/Anthropic/Events/Chunk.antt =====
-- Where one chunk takes a message, before and behind its finish reason.
use nextapi.Base.{
  String, Bool, true, false, ◌≡◌, refl, sym, subst, inl, inr, ◌&&◌, not, Option, none, some, List,
  [], ◌∷◌, ◌++◌, arith, All, Option-cases, Bool-cases, is_text, if◌then◌else◌,
}
use nextapi.Protocol.Chat.Parts.{is_none}
use nextapi.Protocol.Ir.{ConvCtx, IrUsage, IrChunk}
use nextapi.Protocol.Anthropic.Events.{StreamState, Event}
use nextapi.Protocol.Anthropic.Events.Grammar.{
  Reading, between, ended, reasons, fails, Run, here, after, Run-append,
}
use nextapi.Protocol.Anthropic.Events.Write.{
  close_open_block, push_text, push_thinking, push_tools, start_message, add_usage, finish_message,
  first_delta, first_finish, chunk_events,
}
use nextapi.Protocol.Anthropic.Events.Legal.{
  place_of, IsLive, stop-Run, push_text-Goes, push_thinking-Goes, push_tools-Goes,
}

-- A message whose finish reason has come: all blocks are closed.
pub record IsSettled (st : StreamState) : Type 0 where
  pub started : st.message_start_emitted ≡ true
  pub unstopped : st.message_stop_emitted ≡ false
  pub closed : st.open_block ≡ none

abbrev pub rest_place : StreamState → Reading
rest_place st = if st.message_delta_emitted then ended else between st.next_block_index

add_usage-IsLive : (u : Option IrUsage) (st : StreamState) → IsLive st → IsLive (add_usage u st)
unfolding add_usage
add_usage-IsLive none st l = l
add_usage-IsLive (some u) st l = record {
  started = l.started;
  unfinished = l.unfinished;
  unstopped = l.unstopped;
  unpending = l.unpending;
  tracked = l.tracked;
}

add_usage-place : (u : Option IrUsage) (st : StreamState) → place_of (add_usage u st) ≡ place_of st
unfolding add_usage
add_usage-place none st = refl
add_usage-place (some u) st = refl

-- A finish reason closes the block that is open.
finish-IsSettled :
    (reason : String) (has_usage : Bool) (st : StreamState)
    → IsLive st
    → Run
        (place_of st)
        (finish_message (some reason) has_usage st).1
        (rest_place (finish_message (some reason) has_usage st).0)
      × IsSettled (finish_message (some reason) has_usage st).0
unfolding finish_message close_open_block
finish-IsSettled reason has_usage st l =
    let n = st.next_block_index in
    let stop = stop-Run st.open_block n l.tracked in
    elim (Bool-cases (is_text reason "failed")) [
      | inl e ↦
          rw (e, finish_message)
            (
              Run-append stop (after (fails n st.usage) here),
              record { started = l.started; unstopped = l.unstopped; closed = refl },
            )
      | inr e ↦ elim (Bool-cases has_usage) [
        | inl u ↦
            rw (e, u, finish_message)
              (
                Run-append stop (after (reasons n reason st.usage) here),
                record { started = l.started; unstopped = l.unstopped; closed = refl },
              )
        | inr u ↦
            rw (e, u, finish_message, l.unfinished)
              (stop, record { started = l.started; unstopped = l.unstopped; closed = refl })
      ]
    ]

finish-unpending :
    (has_usage : Bool) (st : StreamState)
    → st.pending_finish ≡ none
    → finish_message none has_usage st ≡ (st, [])
unfolding finish_message
finish-unpending has_usage st e = rw e refl

module _ (c : IrChunk) (st : StreamState) (ctx : ConvCtx) (r : Reading)
    (start : Run r (start_message c st).1 (place_of (start_message c st).0))
    (live : IsLive (start_message c st).0) where
  -- What comes before the finish reason.
  abbrev filled : (StreamState × ConvCtx) × List Event
  filled =
      let d = first_delta c.choices in
      let (st₁, starts) = start_message c st in
      let (st₂, texts) = push_text d.content st₁ in
      let (st₃, thoughts) = push_thinking d.reasoning_content st₂ in
      let (end, tools) = push_tools d.tool_calls st₃ ctx in
      (end, starts ++ texts ++ thoughts ++ tools)

  filled-Goes : Run r filled.1 (place_of filled.0.0) × IsLive filled.0.0
  filled-Goes =
      let d = first_delta c.choices in
      let st₁ = (start_message c st).0 in
      let st₂ = (push_text d.content st₁).0 in
      let st₃ = (push_thinking d.reasoning_content st₂).0 in
      let g₁ = push_text-Goes d.content st₁ live in
      let g₂ = push_thinking-Goes d.reasoning_content st₂ g₁.1 in
      let g₃ = push_tools-Goes d.tool_calls st₃ ctx g₂.1 in
      (Run-append (Run-append (Run-append start g₁.0) g₂.0) g₃.0, g₃.1)

  -- A chunk without a finish reason.
  pub chunk-Goes :
      first_finish c.choices ≡ none
      → Run r (chunk_events c st ctx).1 (place_of (chunk_events c st ctx).0.0)
        × IsLive (chunk_events c st ctx).0.0
  unfolding chunk_events
  chunk-Goes e =
      let l = add_usage-IsLive c.usage filled.0.0 filled-Goes.1 in
      rw (e, finish-unpending (not (is_none c.usage)) (add_usage c.usage filled.0.0) l.unpending)
        (
          Run-append
              (subst (λ x. Run r filled.1 x) (sym (add_usage-place c.usage filled.0.0))
                filled-Goes.0)
              here,
          l,
        )

  pub chunk-IsSettled :
      (reason : String)
      → first_finish c.choices ≡ some reason
      → Run r (chunk_events c st ctx).1 (rest_place (chunk_events c st ctx).0.0)
        × IsSettled (chunk_events c st ctx).0.0
  unfolding chunk_events
  chunk-IsSettled reason e =
      let l = add_usage-IsLive c.usage filled.0.0 filled-Goes.1 in
      let g = finish-IsSettled reason (not (is_none c.usage)) (add_usage c.usage filled.0.0) l in
      rw e (
        Run-append
            (subst (λ x. Run r filled.1 x) (sym (add_usage-place c.usage filled.0.0)) filled-Goes.0)
            g.0,
        g.1,
      )

-- A chunk that only counts.
abbrev pub IsQuiet : IrChunk → Type 0
IsQuiet c =
    ((first_delta c.choices).content ≡ none)
    × ((first_delta c.choices).reasoning_content ≡ none)
    × ((first_delta c.choices).tool_calls ≡ [])
    × (first_finish c.choices ≡ none)

abbrev pub Follows : Option String → (quiet orderly : Type 0) → Type 0
Follows none quiet orderly = orderly
Follows (some reason) quiet orderly = quiet

-- Behind a finish reason only counts come.
abbrev pub IsOrderly : List IrChunk → Type 0
IsOrderly [] = Unit
IsOrderly (c ∷ cs) = Follows (first_finish c.choices) (All IsQuiet cs) (IsOrderly cs)

pub started-start :
    (c : IrChunk) (st : StreamState)
    → st.message_start_emitted ≡ true
    → start_message c st ≡ (st, [])
unfolding start_message
started-start c st e = rw e refl

add_usage-IsSettled :
    (u : Option IrUsage) (st : StreamState)
    → IsSettled st
    → IsSettled (add_usage u st) × (rest_place (add_usage u st) ≡ rest_place st)
unfolding add_usage
add_usage-IsSettled none st l = (l, refl)
add_usage-IsSettled (some u) st l =
    (record { started = l.started; unstopped = l.unstopped; closed = l.closed }, refl)

-- The usage behind a finish reason lets the end of the message go out.
usage-IsSettled :
    (has_usage : Bool) (st : StreamState)
    → IsSettled st
    → Run
        (rest_place st)
        (finish_message none has_usage st).1
        (rest_place (finish_message none has_usage st).0)
      × IsSettled (finish_message none has_usage st).0
unfolding finish_message
usage-IsSettled has_usage st l = elim (Option-cases st.pending_finish) [
  | inl e ↦ rw (e, finish_message) (here, l)
  | inr (reason, e) ↦ elim (Bool-cases (has_usage && not st.message_delta_emitted)) [
    | inl t ↦
        rw (e, t, finish_message)
          (
            let unsent : st.message_delta_emitted ≡ false = ground (arith, t) in
                rw unsent (after (reasons st.next_block_index reason st.usage) here),
            record { started = l.started; unstopped = l.unstopped; closed = l.closed },
          )
    | inr t ↦ rw (e, t, finish_message) (here, l)
  ]
]

pub quiet-IsSettled :
    (c : IrChunk) (st : StreamState) (ctx : ConvCtx)
    → IsQuiet c
    → IsSettled st
    → Run (rest_place st) (chunk_events c st ctx).1 (rest_place (chunk_events c st ctx).0.0)
      × IsSettled (chunk_events c st ctx).0.0
unfolding chunk_events push_text push_thinking push_tools
quiet-IsSettled c st ctx (q₁, q₂, q₃, q₄) l =
    let (k, p) = add_usage-IsSettled c.usage st l in
    let g = usage-IsSettled (not (is_none c.usage)) (add_usage c.usage st) k in
    rw (q₁, q₂, q₃, q₄, started-start c st l.started)
      (
        subst
            (λ x.
              Run x (finish_message none (not (is_none c.usage)) (add_usage c.usage st)).1
                (rest_place (finish_message none (not (is_none c.usage)) (add_usage c.usage st)).0))
            p g.0,
        g.1,
      )
