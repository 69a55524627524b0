-- ===== src/Protocol/Gemini/Stream/Known.antt =====
-- A tool call whose name and arguments came is sent.
use nextapi.Base.{
  ℕ, String, Bool, true, false, ◌≡◌, refl, sym, ap, subst, ◌∙◌, inl, inr, ◌&&◌, ◌||◌, not, Option,
  none, some, List, [], ◌∷◌, arith, any, eqb, eqb_iff, or_empty, Bool-cases, Option-cases, Table,
  lookup, insert, lookup-insert, ℕ_eq, ◌+++◌,
}
use nextapi.Base.Json.{Value, Serde}
use nextapi.Protocol.Chat.Parts.{is_none}
use nextapi.Protocol.Ir.{IrToolCallDelta, IrChunk}
use nextapi.Protocol.Gemini.Stream.{
  StreamState, is_emitted, note_call, ready, send, push_calls, forced, flush_each,
  flush_unfinished_tools, first_choice, flush_on, chunk_parts, put_name, push_args,
}
use nextapi.Protocol.Gemini.Stream.Once.{all_parts}

-- There is an entry.
abbrev pub has : ℕ → Table ℕ String → Bool
has i t = not (is_none (lookup i t))

insert-has :
    (i j : ℕ) (v : String) (t : Table ℕ String) → has i (insert j v t) ≡ (eqb j i || has i t)
insert-has i j v t =
    rw (lookup-insert j i v t)
      (elim (Bool-cases (eqb j i)) [ inl e ↦ rw e refl | inr e ↦ rw e refl ])

pub put_name-has :
    (i j : ℕ) (o : Option String) (t : Table ℕ String)
    → has i (put_name j o t) ≡ ((eqb j i && not (is_none o)) || has i t)
put_name-has i j none t = ground (arith)
put_name-has i j (some s) t = insert-has i j s t ∙ ground arith

pub push_args-has :
    (i j : ℕ) (o : Option String) (t : Table ℕ String)
    → has i (push_args j o t) ≡ ((eqb j i && not (is_none o)) || has i t)
push_args-has i j none t = ground (arith)
push_args-has i j (some s) t = insert-has i j (or_empty (lookup j t) +++ s) t ∙ ground arith

-- A table of the state that only the increments of calls fill.
module _ (serde : Serde) (i : ℕ) (table : StreamState → Table ℕ String)
    (gives : IrToolCallDelta → Bool)
    (noted : (tc : IrToolCallDelta) (st : StreamState)
      → has i (table (note_call tc st)) ≡ (gives tc || has i (table st)))
    (kept : (j : ℕ) (r : Option (String × Value)) (st : StreamState)
      → table (send j r st).0 ≡ table st) where
  push_calls-has :
      (tcs : List IrToolCallDelta) (st : StreamState)
      → has i (table (push_calls serde tcs st).0) ≡ (any gives tcs || has i (table st))
  unfolding push_calls
  push_calls-has [] st = refl
  push_calls-has (tc ∷ tcs) st =
      let new = note_call tc st in
      let mid = (send tc.index (ready serde tc.index new) new).0 in
      push_calls-has tcs mid
      ∙ rw (kept tc.index (ready serde tc.index new) new, noted tc st) (ground arith)

  pub flush_each-table :
      (entries : Table ℕ String) (st : StreamState)
      → table (flush_each serde entries st).0 ≡ table st
  unfolding flush_each
  flush_each-table [] st = refl
  flush_each-table ((j, s) ∷ entries) st =
      flush_each-table entries (send j (forced serde j st) st).0 ∙ kept j (forced serde j st) st

  flush_on-table :
      (finish : Option String) (st : StreamState) → table (flush_on serde finish st).0 ≡ table st
  unfolding flush_unfinished_tools
  flush_on-table none st = refl
  flush_on-table (some reason) st = flush_each-table st.tool_args st

  pub all_parts-has :
      (cs : List IrChunk) (st : StreamState)
      → has i (table (all_parts serde cs st).0)
        ≡ (any (λ c. any gives (first_choice c.choices).0.tool_calls) cs || has i (table st))
  unfolding all_parts chunk_parts
  all_parts-has [] st = refl
  all_parts-has (c ∷ cs) st =
      let (d, finish) = first_choice c.choices in
      let filled = (push_calls serde d.tool_calls st).0 in
      let mid = (chunk_parts serde c st).0 in
      all_parts-has cs mid
      ∙ rw (flush_on-table finish filled, push_calls-has d.tool_calls st) (ground arith)

pub send-names :
    (j : ℕ) (r : Option (String × Value)) (st : StreamState)
    → (send j r st).0.tool_names ≡ st.tool_names
send-names j none st = refl
send-names j (some (name, args)) st = refl

pub send-args :
    (j : ℕ) (r : Option (String × Value)) (st : StreamState)
    → (send j r st).0.tool_args ≡ st.tool_args
send-args j none st = refl
send-args j (some (name, args)) st = refl

module _ (serde : Serde) (i : ℕ) where
  rest-has :
      (j : ℕ) (s : String) (entries : Table ℕ String)
      → has i ((j, s) ∷ entries) ≡ true
      → eqb j i ≡ false
      → has i entries ≡ true
  unfolding lookup
  rest-has j s entries h e = sym (rw e refl) ∙ h

  send-emitted :
      (j : ℕ) (r : Option (String × Value)) (st : StreamState)
      → is_emitted i st ≡ true
      → is_emitted i (send j r st).0 ≡ true
  send-emitted j none st h = h
  send-emitted j (some (name, args)) st h = ground (arith, h)

  flush_each-emitted :
      (entries : Table ℕ String) (st : StreamState)
      → is_emitted i st ≡ true
      → is_emitted i (flush_each serde entries st).0 ≡ true
  unfolding flush_each
  flush_each-emitted [] st h = h
  flush_each-emitted ((j, s) ∷ entries) st h =
      flush_each-emitted entries (send j (forced serde j st) st).0
        (send-emitted j (forced serde j st) st h)

  -- A call whose name is known is noted as sent.
  forced-emitted :
      (st : StreamState)
      → has i st.tool_names ≡ true
      → is_emitted i (send i (forced serde i st) st).0 ≡ true
  unfolding forced
  forced-emitted st h = elim (Bool-cases (is_emitted i st)) [
    | inl e ↦ send-emitted i (forced serde i st) st e
    | inr e ↦ elim (Option-cases (lookup i st.tool_names)) [
      | inl n ↦ absurd (ground (arith, n, h))
      | inr (name, n) ↦ rw (forced, e, n) (ground (arith, eqb_iff i i))
    ]
  ]

  pub flush_each-emits :
      (entries : Table ℕ String) (st : StreamState)
      → has i st.tool_names ≡ true
      → has i entries ≡ true
      → is_emitted i (flush_each serde entries st).0 ≡ true
  unfolding flush_each lookup
  flush_each-emits [] st n h = absurd (ground (arith, h))
  flush_each-emits ((j, s) ∷ entries) st n h =
      let r = forced serde j st in
      let mid = (send j r st).0 in
      elim (Bool-cases (eqb j i)) [
        | inl e ↦
            let same : j ≡ i = (eqb_iff j i).0 e in
            flush_each-emitted entries mid (
              subst (λ k. is_emitted i (send k (forced serde k st) st).0 ≡ true) (sym same)
                (forced-emitted st n))
        | inr e ↦
            flush_each-emits entries mid (ap (λ t. has i t) (send-names j r st) ∙ n)
              (rest-has j s entries h e)
      ]
