-- ===== src/Protocol/Anthropic/Events/Stream.antt =====
-- A whole stream, from the first chunk to the end, is one that a client may read.
use nextapi.Base.{
  ℕ, String, Bool, true, false, ◌≡◌, refl, sym, ap, subst, inl, inr, Option, none, some, List, [],
  ◌∷◌, ◌++◌, All, Option-cases, Bool-cases, is_text, if◌then◌else◌,
}
use nextapi.Protocol.Ir.{ConvCtx, IrUsage, IrChunk}
use nextapi.Protocol.Anthropic.Events.{StreamState, fresh, Event}
use nextapi.Protocol.Anthropic.Events.Grammar.{
  Reading, before, between, ended, over, begins, reasons, fails, stops, Run, here, after,
  Run-append,
}
use nextapi.Protocol.Anthropic.Events.Write.{
  close_open_block, start_message, first_finish, chunk_events, start_usage, mark_failed, last_delta,
  end_delta, end_message, end_events,
}
use nextapi.Protocol.Anthropic.Events.Legal.{place_of, IsTracked, IsLive, stop-Run}
use nextapi.Sse.Chunks.{append_assoc}
use nextapi.Protocol.Anthropic.Events.Chunk.{
  IsSettled, rest_place, chunk-Goes, chunk-IsSettled, IsQuiet, Follows, IsOrderly, started-start,
  quiet-IsSettled,
}

-- The events of a list of chunks, and the state and notes behind them.
unfoldable pub write_all :
    List IrChunk → StreamState → ConvCtx → (StreamState × ConvCtx) × List Event
unfolding chunk_events
write_all [] st ctx = ((st, ctx), [])
write_all (c ∷ cs) st ctx =
    let ((st₁, ctx₁), first) = chunk_events c st ctx in
    let (end, rest) = write_all cs st₁ ctx₁ in (end, first ++ rest)

-- The whole of a stream: its chunks, then its end, which may be that the connection broke.
unfoldable pub whole : List IrChunk → (broke : Bool) → ConvCtx → List Event
unfolding write_all mark_failed end_events
whole cs broke ctx =
    let ((st, ctx₁), es) = write_all cs fresh ctx in
    es ++ (end_events (if broke then mark_failed st else st)).1

last-Run : (n : ℕ) (o : Option String) (u : IrUsage) → Run (between n) (last_delta o u ∷ []) ended
last-Run n none u = after (fails n u) here
last-Run n (some reason) u = elim (Bool-cases (is_text reason "failed")) [
  | inl e ↦ rw e (after (fails n u) here)
  | inr e ↦ rw e (after (reasons n reason u) here)
]

-- The end of a message whose end is not told, wherever it is.
end-Run :
    (st : StreamState)
    → st.message_start_emitted ≡ true
    → st.message_delta_emitted ≡ false
    → st.message_stop_emitted ≡ false
    → IsTracked st.open_block st.next_block_index
    → Run (place_of st) (end_events st).1 over
unfolding end_events end_delta end_message close_open_block
end-Run st s d o t =
    let n = st.next_block_index in
    rw (s, d, o)
      (Run-append (Run-append (stop-Run st.open_block n t) (last-Run n st.pending_finish st.usage))
        (after stops here))

settled-end-Run : (st : StreamState) → IsSettled st → Run (rest_place st) (end_events st).1 over
unfolding end_events end_delta end_message close_open_block
settled-end-Run st l = elim (Bool-cases st.message_delta_emitted) [
  | inl d ↦ rw (l.started, d, l.unstopped, l.closed) (after stops here)
  | inr d ↦
      rw (l.started, d, l.unstopped, l.closed)
        (Run-append (last-Run st.next_block_index st.pending_finish st.usage) (after stops here))
]

-- The state at the end of the chunks.
abbrev broken_if : Bool → StreamState → StreamState
broken_if broke st = if broke then mark_failed st else st

mark_failed-told : (st : StreamState) → st.message_delta_emitted ≡ true → mark_failed st ≡ st
unfolding mark_failed
mark_failed-told st e = ap (λ b. if b then st else record st { pending_finish = some "failed" }) e

mark_failed-untold :
    (st : StreamState)
    → st.message_delta_emitted ≡ false
    → mark_failed st ≡ record st { pending_finish = some "failed" }
unfolding mark_failed
mark_failed-untold st e = ap (λ b. if b then st else record st { pending_finish = some "failed" }) e

live-broken-Run :
    (broke : Bool) (st : StreamState)
    → IsLive st
    → Run (place_of st) (end_events (broken_if broke st)).1 over
live-broken-Run false st l = end-Run st l.started l.unfinished l.unstopped l.tracked
live-broken-Run true st l =
    subst (λ x. Run (place_of st) (end_events x).1 over) (sym (mark_failed-untold st l.unfinished))
      (end-Run (record st { pending_finish = some "failed" }) l.started l.unfinished l.unstopped
        l.tracked)

settled-broken-Run :
    (broke : Bool) (st : StreamState)
    → IsSettled st
    → Run (rest_place st) (end_events (broken_if broke st)).1 over
settled-broken-Run false st l = settled-end-Run st l
settled-broken-Run true st l = elim (Bool-cases st.message_delta_emitted) [
  | inl d ↦
      subst (λ x. Run (rest_place st) (end_events x).1 over) (sym (mark_failed-told st d))
        (settled-end-Run st l)
  | inr d ↦
      subst (λ x. Run (rest_place st) (end_events x).1 over) (sym (mark_failed-untold st d))
        (settled-end-Run (record st { pending_finish = some "failed" })
          (record { started = l.started; unstopped = l.unstopped; closed = l.closed }))
]

-- The events of chunks and of the end behind them.
abbrev rest_events : List IrChunk → Bool → StreamState → ConvCtx → List Event
rest_events cs broke st ctx =
    (write_all cs st ctx).1 ++ (end_events (broken_if broke (write_all cs st ctx).0.0)).1

-- The events of one chunk before those of the others.
first-Run :
    (c : IrChunk) (cs : List IrChunk) (broke : Bool) (st : StreamState) (ctx : ConvCtx)
    (r s : Reading)
    → Run r (chunk_events c st ctx).1 s
    → Run s (rest_events cs broke (chunk_events c st ctx).0.0 (chunk_events c st ctx).0.1) over
    → Run r (rest_events (c ∷ cs) broke st ctx) over
unfolding write_all
first-Run c cs broke st ctx r s one rest =
    let (st₁, ctx₁) = (chunk_events c st ctx).0 in
    subst (λ es. Run r es over)
      (sym (
        append_assoc (chunk_events c st ctx).1 (write_all cs st₁ ctx₁).1
          (end_events (broken_if broke (write_all cs st₁ ctx₁).0.0)).1))
      (Run-append one rest)

quiet-Run :
    (cs : List IrChunk) (broke : Bool) (st : StreamState) (ctx : ConvCtx)
    → All IsQuiet cs
    → IsSettled st
    → Run (rest_place st) (rest_events cs broke st ctx) over
unfolding write_all
quiet-Run [] broke st ctx q l = settled-broken-Run broke st l
quiet-Run (c ∷ cs) broke st ctx (q, qs) l =
    let (st₁, ctx₁) = (chunk_events c st ctx).0 in
    let g = quiet-IsSettled c st ctx q l in
    first-Run c cs broke st ctx (rest_place st) (rest_place st₁) g.0
      (quiet-Run cs broke st₁ ctx₁ qs g.1)

-- From where the message has been started.
begun-Run :
    (cs : List IrChunk) (broke : Bool) (c : IrChunk) (st : StreamState) (ctx : ConvCtx)
    (r : Reading)
    → Run r (start_message c st).1 (place_of (start_message c st).0)
    → IsLive (start_message c st).0
    → IsOrderly (c ∷ cs)
    → ((st : StreamState) (ctx : ConvCtx)
        → IsOrderly cs
        → IsLive st
        → Run (place_of st) (rest_events cs broke st ctx) over)
    → Run r (rest_events (c ∷ cs) broke st ctx) over
begun-Run cs broke c st ctx r start live q next =
    let (st₁, ctx₁) = (chunk_events c st ctx).0 in
    elim (Option-cases (first_finish c.choices)) [
      | inl e ↦
          let g = chunk-Goes c st ctx r start live e in
          first-Run c cs broke st ctx r (place_of st₁) g.0
            (next st₁ ctx₁ (subst (λ x. Follows x (All IsQuiet cs) (IsOrderly cs)) e q) g.1)
      | inr (reason, e) ↦
          let g = chunk-IsSettled c st ctx r start live reason e in
          first-Run c cs broke st ctx r (rest_place st₁) g.0 (
            quiet-Run cs broke st₁ ctx₁ (subst (λ x. Follows x (All IsQuiet cs) (IsOrderly cs)) e q)
              g.1)
    ]

live-Run :
    (cs : List IrChunk) (broke : Bool) (st : StreamState) (ctx : ConvCtx)
    → IsOrderly cs
    → IsLive st
    → Run (place_of st) (rest_events cs broke st ctx) over
unfolding write_all
live-Run [] broke st ctx q l = live-broken-Run broke st l
live-Run (c ∷ cs) broke st ctx q l =
    let e = sym (started-start c st l.started) in
    begun-Run cs broke c st ctx (place_of st)
      (subst (λ x. Run (place_of st) x.1 (place_of x.0)) e here) (subst (λ x. IsLive x.0) e l) q
      (λ st ctx q l. live-Run cs broke st ctx q l)

fresh-IsLive : (c : IrChunk) → IsLive (start_message c fresh).0
unfolding start_message
fresh-IsLive c = record {
  started = refl;
  unfinished = refl;
  unstopped = refl;
  unpending = refl;
  tracked = tt;
}

-- A stream with a chunk, behind whose first finish reason only counts come, is written as a message that a client may
-- read to its end, whether the connection broke or not: one block at a time, each with the next index, the reason of the
-- end once and behind all blocks, then the stop.
pub whole-Run :
    (c : IrChunk) (cs : List IrChunk) (broke : Bool) (ctx : ConvCtx)
    → IsOrderly (c ∷ cs)
    → Run before (whole (c ∷ cs) broke ctx) over
unfolding whole start_message
whole-Run c cs broke ctx q =
    begun-Run cs broke c fresh ctx before
      (after (begins c.id c.model (start_usage c.usage fresh.usage)) here) (fresh-IsLive c) q
      (λ st ctx q l. live-Run cs broke st ctx q l)

-- A stream without chunks is written as nothing.
whole-none : (broke : Bool) (ctx : ConvCtx) → whole [] broke ctx ≡ []
unfolding whole write_all mark_failed end_events end_delta end_message close_open_block
whole-none false ctx = refl
whole-none true ctx = refl
