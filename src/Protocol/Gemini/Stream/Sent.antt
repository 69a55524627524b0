-- ===== src/Protocol/Gemini/Stream/Sent.antt =====
-- What is sent of a call of a stream, exactly.
use nextapi.Base.{
  ℕ, String, Bool, true, false, ◌≡◌, refl, sym, ap, subst, ◌∙◌, inl, inr, ◌&&◌, ◌||◌, not, Option,
  none, some, List, [], ◌∷◌, arith, any, eqb, eqb_iff, if◌then◌else◌, Bool-cases, Option-cases,
  Table, lookup, ℕ_eq,
}
use nextapi.Base.Json.{Value, Serde}
use nextapi.Protocol.Chat.Parts.{is_none}
use nextapi.Protocol.Ir.{IrToolCallDelta, IrChunk}
use nextapi.Protocol.Gemini.Stream.{
  StreamState, fresh, is_emitted, note_call, ready, send, push_calls, forced, flush_each,
  flush_unfinished_tools, first_choice, flush_on, chunk_parts, complete,
}
use nextapi.Protocol.Gemini.Stream.Once.{sent, all_parts, whole_parts, sent-whole_parts}
use nextapi.Protocol.Gemini.Stream.Known.{
  has, put_name-has, push_args-has, all_parts-has, flush_each-table, send-names, send-args,
  flush_each-emits,
}

-- An increment of the call with its name, one with arguments.
abbrev pub gives_name : ℕ → IrToolCallDelta → Bool
gives_name i tc = eqb tc.index i && not (is_none tc.name)

abbrev pub gives_args : ℕ → IrToolCallDelta → Bool
gives_args i tc = eqb tc.index i && not (is_none tc.arguments)

-- Some increment of the first choices passes.
abbrev pub comes : (IrToolCallDelta → Bool) → List IrChunk → Bool
comes gives cs = any (λ c. any gives (first_choice c.choices).0.tool_calls) cs

noted-names :
    (i : ℕ) (tc : IrToolCallDelta) (st : StreamState)
    → has i (note_call tc st).tool_names ≡ (gives_name i tc || has i st.tool_names)
unfolding note_call
noted-names i tc st = put_name-has i tc.index tc.name st.tool_names

noted-args :
    (i : ℕ) (tc : IrToolCallDelta) (st : StreamState)
    → has i (note_call tc st).tool_args ≡ (gives_args i tc || has i st.tool_args)
unfolding note_call
noted-args i tc st = push_args-has i tc.index tc.arguments st.tool_args

-- A call that is noted as sent has a name and arguments.
abbrev Holds : ℕ → StreamState → Type 0
Holds i st = (not (is_emitted i st) || (has i st.tool_names && has i st.tool_args)) ≡ true

complete-known :
    (serde : Serde) (a b : Option String)
    → (is_none (complete serde a b) || (not (is_none a) && not (is_none b))) ≡ true
complete-known serde none b = refl
complete-known serde (some x) none = refl
complete-known serde (some x) (some y) = ground arith

if-known {ℓ} :
    {A : Type ℓ} (b k : Bool) (x : Option A)
    → (is_none x || k) ≡ true
    → (is_none (if b then none else x) || k) ≡ true
if-known true k x h = refl
if-known false k x h = h

ready-known :
    (serde : Serde) (j : ℕ) (st : StreamState)
    → (is_none (ready serde j st) || (has j st.tool_names && has j st.tool_args)) ≡ true
unfolding ready
ready-known serde j st =
    if-known (is_emitted j st) (has j st.tool_names && has j st.tool_args)
      (complete serde (lookup j st.tool_names) (lookup j st.tool_args))
      (complete-known serde (lookup j st.tool_names) (lookup j st.tool_args))

forced-known :
    (serde : Serde) (j : ℕ) (st : StreamState)
    → has j st.tool_args ≡ true
    → (is_none (forced serde j st) || (has j st.tool_names && has j st.tool_args)) ≡ true
unfolding forced
forced-known serde j st h =
    if-known (is_emitted j st) (has j st.tool_names && has j st.tool_args) _
      (elim (Option-cases (lookup j st.tool_names)) [
        | inl e ↦ rw e refl
        | inr (name, e) ↦ rw (e, h) refl
      ])

send-Holds :
    (i j : ℕ) (r : Option (String × Value)) (st : StreamState)
    → (is_none r || (has j st.tool_names && has j st.tool_args)) ≡ true
    → Holds i st
    → Holds i (send j r st).0
send-Holds i j none st k h = h
send-Holds i j (some (name, args)) st k h = elim (Bool-cases (eqb j i)) [
  | inl e ↦
      let q =
        subst (λ x. (has x st.tool_names && has x st.tool_args) ≡ true) ((eqb_iff j i).0 e) k in
      ground (arith, e, q)
  | inr e ↦ rw e h
]

note-Holds :
    (i : ℕ) (tc : IrToolCallDelta) (st : StreamState) → Holds i st → Holds i (note_call tc st)
unfolding note_call
note-Holds i tc st h =
    rw
      (
        put_name-has i tc.index tc.name st.tool_names,
        push_args-has i tc.index tc.arguments st.tool_args,
      )
      (ground (arith, h))

abbrev Covers : Table ℕ String → Table ℕ String → Type 0
Covers t [] = Unit
Covers t ((j, s) ∷ es) = (has j t ≡ true) × Covers t es

Covers-cons : (k : ℕ) (v : String) (t es : Table ℕ String) → Covers t es → Covers ((k, v) ∷ t) es
unfolding lookup
Covers-cons k v t [] c = tt
Covers-cons k v t ((j, s) ∷ es) (h, c) = (ground (arith, h), Covers-cons k v t es c)

Covers-self : (t : Table ℕ String) → Covers t t
unfolding lookup
Covers-self [] = tt
Covers-self ((j, s) ∷ t) = (ground (arith, eqb_iff j j), Covers-cons j s t t (Covers-self t))

module _ (serde : Serde) (i : ℕ) where
  push_calls-Holds :
      (tcs : List IrToolCallDelta) (st : StreamState)
      → Holds i st
      → Holds i (push_calls serde tcs st).0
  unfolding push_calls
  push_calls-Holds [] st h = h
  push_calls-Holds (tc ∷ tcs) st h =
      let new = note_call tc st in
      let r = ready serde tc.index new in
      push_calls-Holds tcs (send tc.index r new).0
        (send-Holds i tc.index r new (ready-known serde tc.index new) (note-Holds i tc st h))

  flush_each-Holds :
      (es : Table ℕ String) (st : StreamState)
      → Covers st.tool_args es
      → Holds i st
      → Holds i (flush_each serde es st).0
  unfolding flush_each
  flush_each-Holds [] st c h = h
  flush_each-Holds ((j, s) ∷ es) st (k, c) h =
      let r = forced serde j st in
      flush_each-Holds es (send j r st).0 (subst (λ t. Covers t es) (sym (send-args j r st)) c)
        (send-Holds i j r st (forced-known serde j st k) h)

  flush_on-Holds :
      (finish : Option String) (st : StreamState)
      → Holds i st
      → Holds i (flush_on serde finish st).0
  unfolding flush_unfinished_tools
  flush_on-Holds none st h = h
  flush_on-Holds (some reason) st h = flush_each-Holds st.tool_args st (Covers-self st.tool_args) h

  all_parts-Holds :
      (cs : List IrChunk) (st : StreamState) → Holds i st → Holds i (all_parts serde cs st).0
  unfolding all_parts chunk_parts
  all_parts-Holds [] st h = h
  all_parts-Holds (c ∷ cs) st h =
      let (d, finish) = first_choice c.choices in
      all_parts-Holds cs (chunk_parts serde c st).0 (
        flush_on-Holds finish (push_calls serde d.tool_calls st).0
          (push_calls-Holds d.tool_calls st h))

-- A whole stream sends a tool call once if its name and arguments came, in whatever increments, and else never.
pub sent-once :
    (serde : Serde) (i : ℕ) (cs : List IrChunk)
    → sent i (whole_parts serde cs)
      ≡ (if comes (gives_name i) cs && comes (gives_args i) cs then 1 else 0)
unfolding flush_unfinished_tools lookup
sent-once serde i cs =
    let st = (all_parts serde cs fresh).0 in
    let end = (flush_each serde st.tool_args st).0 in
    let names =
      all_parts-has serde i (λ s. s.tool_names) (gives_name i) (noted-names i) send-names cs
        fresh in
    let args =
      all_parts-has serde i (λ s. s.tool_args) (gives_args i) (noted-args i) send-args cs fresh in
    elim (Bool-cases (comes (gives_name i) cs && comes (gives_args i) cs)) [
      | inl h ↦
          let told =
            flush_each-emits serde i st.tool_args st (names ∙ ground (arith, h))
              (args ∙ ground (arith, h)) in
          sent-whole_parts serde i cs ∙ rw (told, h) refl
      | inr h ↦
          let last : Holds i end =
            flush_each-Holds serde i st.tool_args st (Covers-self st.tool_args)
              (all_parts-Holds serde i cs fresh refl) in
          let names' =
            ap (λ t. has i t)
              (flush_each-table serde i (λ s. s.tool_names) (gives_name i) (noted-names i)
                send-names st.tool_args st)
            ∙ names in
          let args' =
            ap (λ t. has i t)
              (flush_each-table serde i (λ s. s.tool_args) (gives_args i) (noted-args i) send-args
                st.tool_args st)
            ∙ args in
          let untold : is_emitted i end ≡ false = ground (arith, last, names', args', h) in
          sent-whole_parts serde i cs ∙ rw (untold, h) refl
    ]
