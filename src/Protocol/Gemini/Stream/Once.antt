-- ===== src/Protocol/Gemini/Stream/Once.antt =====
-- Every tool call of a stream is sent exactly once.
use nextapi.Base.{
  ℕ, ◌+◌, String, Bool, true, false, ◌≡◌, refl, sym, ap, ◌∙◌, inl, inr, ◌||◌, not, Option, none,
  some, List, [], ◌∷◌, ◌++◌, arith, eqb, eqb_iff, if◌then◌else◌, Bool-cases, Table, ℕ_eq,
}
use nextapi.Base.Json.{Value, Serde}
use nextapi.Protocol.Chat.Parts.{is_none}
use nextapi.Protocol.Ir.{IrToolCallDelta, IrChunk}
use nextapi.Protocol.Gemini.Stream.{
  StreamState, fresh, Part, said, thought, called, is_emitted, note_call, ready, send, push_calls,
  forced, flush_each, flush_unfinished_tools, first_choice, flush_on, opt_said, chunk_parts,
}

-- How often a call is sent.
abbrev pub sent : ℕ → List Part → ℕ
sent i [] = 0
sent i (said s ∷ ps) = sent i ps
sent i (thought s ∷ ps) = sent i ps
sent i (called j name args ∷ ps) = (if eqb j i then 1 else 0) + sent i ps

pub sent-append : (i : ℕ) (ps qs : List Part) → sent i (ps ++ qs) ≡ sent i ps + sent i qs
sent-append i [] qs = omega arith
sent-append i (said s ∷ ps) qs = sent-append i ps qs
sent-append i (thought s ∷ ps) qs = sent-append i ps qs
sent-append i (called j name args ∷ ps) qs = omega (arith, sent-append i ps qs)

abbrev pub flag : Bool → ℕ
flag b = if b then 1 else 0

-- What is sent is what is noted as sent.
abbrev Tallies : ℕ → StreamState → List Part → StreamState → Type 0
Tallies i st ps to = flag (is_emitted i st) + sent i ps ≡ flag (is_emitted i to)

Tallies-append :
    (i : ℕ) (st mid to : StreamState) (ps qs : List Part)
    → Tallies i st ps mid
    → Tallies i mid qs to
    → Tallies i st (ps ++ qs) to
Tallies-append i st mid to ps qs a b = omega (arith, a, b, sent-append i ps qs)

send-Tallies :
    (i j : ℕ) (r : Option (String × Value)) (st : StreamState)
    → (is_none r || not (is_emitted j st)) ≡ true
    → Tallies i st (send j r st).1 (send j r st).0
send-Tallies i j none st h = omega arith
send-Tallies i j (some (name, args)) st h = elim (Bool-cases (eqb j i)) [
  | inl e ↦
      let same : j ≡ i = (eqb_iff j i).0 e in
      let new : is_emitted j st ≡ false = ground (arith, h) in
      let new_i : is_emitted i st ≡ false = ap (λ x. is_emitted x st) (sym same) ∙ new in
      rw (e, new_i) (omega arith)
  | inr e ↦ rw e (omega arith)
]

or_true : (b : Bool) → (b || true) ≡ true
or_true b = ground arith

guarded {ℓ} :
    {A : Type ℓ} (b : Bool) (x : Option A) → (is_none (if b then none else x) || not b) ≡ true
guarded true x = refl
guarded false x = or_true (is_none x)

ready-new :
    (serde : Serde) (j : ℕ) (st : StreamState)
    → (is_none (ready serde j st) || not (is_emitted j st)) ≡ true
unfolding ready
ready-new serde j st = guarded (is_emitted j st) _

forced-new :
    (serde : Serde) (j : ℕ) (st : StreamState)
    → (is_none (forced serde j st) || not (is_emitted j st)) ≡ true
unfolding forced
forced-new serde j st = guarded (is_emitted j st) _

module _ (serde : Serde) (i : ℕ) where
  push_calls-Tallies :
      (tcs : List IrToolCallDelta) (st : StreamState)
      → Tallies i st (push_calls serde tcs st).1 (push_calls serde tcs st).0
  unfolding push_calls note_call
  push_calls-Tallies [] st = omega arith
  push_calls-Tallies (tc ∷ tcs) st =
      let noted = note_call tc st in
      let r = ready serde tc.index noted in
      let (mid, first) = send tc.index r noted in
      Tallies-append i noted mid (push_calls serde tcs mid).0 first (push_calls serde tcs mid).1
        (send-Tallies i tc.index r noted (ready-new serde tc.index noted))
        (push_calls-Tallies tcs mid)

  flush_each-Tallies :
      (entries : Table ℕ String) (st : StreamState)
      → Tallies i st (flush_each serde entries st).1 (flush_each serde entries st).0
  unfolding flush_each
  flush_each-Tallies [] st = omega arith
  flush_each-Tallies ((j, s) ∷ entries) st =
      let r = forced serde j st in
      let (mid, first) = send j r st in
      Tallies-append i st mid (flush_each serde entries mid).0 first
        (flush_each serde entries mid).1 (send-Tallies i j r st (forced-new serde j st))
        (flush_each-Tallies entries mid)

  flush_on-Tallies :
      (finish : Option String) (st : StreamState)
      → Tallies i st (flush_on serde finish st).1 (flush_on serde finish st).0
  unfolding flush_unfinished_tools
  flush_on-Tallies none st = omega arith
  flush_on-Tallies (some reason) st = flush_each-Tallies st.tool_args st

  sent-said : (s : Option String) → sent i (opt_said said s) ≡ 0
  sent-said none = refl
  sent-said (some s) = refl

  sent-thought : (s : Option String) → sent i (opt_said thought s) ≡ 0
  sent-thought none = refl
  sent-thought (some s) = refl

  chunk_parts-Tallies :
      (c : IrChunk) (st : StreamState)
      → Tallies i st (chunk_parts serde c st).1 (chunk_parts serde c st).0
  unfolding chunk_parts
  chunk_parts-Tallies c st =
      let (d, finish) = first_choice c.choices in
      let (st₁, calls) = push_calls serde d.tool_calls st in
      let (st₂, flushed) = flush_on serde finish st₁ in
      let texts = opt_said said d.content in
      let thoughts = opt_said thought d.reasoning_content in
      omega (
        arith,
        push_calls-Tallies d.tool_calls st,
        flush_on-Tallies finish st₁,
        sent-append i (texts ++ thoughts ++ calls) flushed,
        sent-append i (texts ++ thoughts) calls,
        sent-append i texts thoughts,
        sent-said d.content,
        sent-thought d.reasoning_content,
      )

-- The parts of the chunks of a stream, and the state behind them.
unfoldable pub all_parts : Serde → List IrChunk → StreamState → StreamState × List Part
unfolding chunk_parts
all_parts serde [] st = (st, [])
all_parts serde (c ∷ cs) st =
    let (st₁, first) = chunk_parts serde c st in
    let (end, rest) = all_parts serde cs st₁ in (end, first ++ rest)

-- The parts of a whole stream, with what its end sends.
unfoldable pub whole_parts : Serde → List IrChunk → List Part
unfolding all_parts flush_unfinished_tools
whole_parts serde cs =
    let (st, ps) = all_parts serde cs fresh in ps ++ (flush_unfinished_tools serde st).1

all_parts-Tallies :
    (serde : Serde) (i : ℕ) (cs : List IrChunk) (st : StreamState)
    → Tallies i st (all_parts serde cs st).1 (all_parts serde cs st).0
unfolding all_parts
all_parts-Tallies serde i [] st = omega arith
all_parts-Tallies serde i (c ∷ cs) st =
    let (mid, first) = chunk_parts serde c st in
    Tallies-append i st mid (all_parts serde cs mid).0 first (all_parts serde cs mid).1
      (chunk_parts-Tallies serde i c st) (all_parts-Tallies serde i cs mid)

-- What a whole stream sends of a call is whether the call is noted as sent at the end.
pub sent-whole_parts :
    (serde : Serde) (i : ℕ) (cs : List IrChunk)
    → sent i (whole_parts serde cs)
      ≡ flag (is_emitted i (flush_unfinished_tools serde (all_parts serde cs fresh).0).0)
unfolding whole_parts
sent-whole_parts serde i cs =
    let (st, ps) = all_parts serde cs fresh in
    omega (
      arith,
      all_parts-Tallies serde i cs fresh,
      flush_on-Tallies serde i (some "") st,
      sent-append i ps (flush_unfinished_tools serde st).1,
    )
