-- ===== src/Protocol/Gemini/Contents/Pairs.antt =====
-- The responses of functions take over the identifiers of their calls.
use nextapi.Base.{
  String, ◌≡◌, refl, ap, ◌∙◌, inl, inr, none, some, List, [], ◌∷◌, ◌++◌, if◌then◌else◌, Bool-cases,
  lookup, insert, lookup-insert, String_eq, ◌==◌, eq_self, text_eq,
}
use nextapi.Base.Json.{Value, get, get_field, index, Serde}
use nextapi.Protocol.Ir.{ConvCtx, IrToolCall, IrMessage}
use nextapi.Protocol.Gemini.Parts.{call_part, args_to_string}
use nextapi.Protocol.Gemini.Contents.{
  CallIds, Gathered, waiting, add_call, add_part, add_parts, tool_message, pair_response,
  pair_responses, nothing, call_id,
}

-- The identifiers of a name among calls, the oldest first.
abbrev ids_of : String → List IrToolCall → List String
ids_of name [] = []
ids_of name (c ∷ cs) = let rest = ids_of name cs in if c.name == name then c.id ∷ rest else rest

-- The queues are those of these calls.
abbrev Queues : CallIds → List IrToolCall → Type 0
Queues ids cs = (name : String) → waiting name ids ≡ ids_of name cs

ids_of-append :
    (name : String) (cs : List IrToolCall) (c : IrToolCall)
    → ids_of name (cs ++ (c ∷ []))
      ≡ (if c.name == name then ids_of name cs ++ (c.id ∷ []) else ids_of name cs)
ids_of-append name [] c = refl
ids_of-append name (d ∷ cs) c = elim (Bool-cases (d.name == name)) [
  | inl e ↦
      rw (e, ids_of-append name cs c)
        (elim (Bool-cases (c.name == name)) [ inl f ↦ rw f refl | inr f ↦ rw f refl ])
  | inr e ↦ rw (e, ids_of-append name cs c) refl
]

waiting-insert :
    (put asked : String) (q : List String) (ids : CallIds)
    → waiting asked (insert put q ids) ≡ (if put == asked then q else waiting asked ids)
waiting-insert put asked q ids =
    ap (λ o. elim o [ none ↦ [] | some x ↦ x ]) (lookup-insert put asked q ids)
    ∙ elim (Bool-cases (put == asked)) [ inl e ↦ rw e refl | inr e ↦ rw e refl ]

-- A call waits behind those of its name.
push-Queues :
    (ids : CallIds) (cs : List IrToolCall) (c : IrToolCall)
    → Queues ids cs
    → Queues (insert c.name (waiting c.name ids ++ (c.id ∷ [])) ids) (cs ++ (c ∷ []))
push-Queues ids cs c h name =
    waiting-insert c.name name (waiting c.name ids ++ (c.id ∷ [])) ids
    ∙ elim (Bool-cases (c.name == name)) [
      | inl e ↦
          rw (ids_of-append name cs c, e)
            (ap (λ n. waiting n ids ++ (c.id ∷ [])) (text_eq c.name name e)
              ∙ ap (λ q. q ++ (c.id ∷ [])) (h name))
      | inr e ↦ rw (ids_of-append name cs c, e) (h name)
    ]

-- The response to the oldest call leaves the others.
pop-Queues :
    (ids : CallIds) (c : IrToolCall) (cs : List IrToolCall)
    → Queues ids (c ∷ cs)
    → Queues (insert c.name (ids_of c.name cs) ids) cs
pop-Queues ids c cs h name =
    waiting-insert c.name name (ids_of c.name cs) ids ∙ elim (Bool-cases (c.name == name)) [
      | inl e ↦ rw e (ap (λ n. ids_of n cs) (text_eq c.name name e))
      | inr e ↦ rw e (h name ∙ rw e refl)
    ]

-- The responses that answer calls, in their order, and the messages that they become.
abbrev pub answers : List IrToolCall → List String → List (String × String)
answers [] rs = []
answers (c ∷ cs) [] = []
answers (c ∷ cs) (r ∷ rs) = (c.name, r) ∷ answers cs rs

abbrev pub answered : List IrToolCall → List String → List IrMessage
answered [] rs = []
answered (c ∷ cs) [] = []
answered (c ∷ cs) (r ∷ rs) = tool_message c.name r c.id ∷ answered cs rs

pairs-Queues :
    (cs : List IrToolCall) (rs : List String) (ids : CallIds) (ctx : ConvCtx)
    → Queues ids cs
    → ((pair_responses (answers cs rs) ids ctx).0 ≡ ctx)
      × ((pair_responses (answers cs rs) ids ctx).1.1 ≡ answered cs rs)
unfolding pair_responses pair_response
pairs-Queues [] rs ids ctx h = (refl, refl)
pairs-Queues (c ∷ cs) [] ids ctx h = (refl, refl)
pairs-Queues (c ∷ cs) (r ∷ rs) ids ctx h =
    let first : waiting c.name ids ≡ c.id ∷ ids_of c.name cs =
      h c.name ∙ rw (eq_self c.name) refl in
    let one : pair_response c.name ids ctx ≡ (ctx, (insert c.name (ids_of c.name cs) ids, c.id)) =
      rw (pair_response, first) refl in
    let rest =
      pairs-Queues cs rs (insert c.name (ids_of c.name cs) ids) ctx (pop-Queues ids c cs h) in
    (
      ap (λ x. (pair_responses (answers cs rs) x.1.0 x.0).0) one ∙ rest.0,
      ap (λ x. tool_message c.name r x.1.1 ∷ (pair_responses (answers cs rs) x.1.0 x.0).1.1) one
          ∙ ap (λ ms. tool_message c.name r c.id ∷ ms) rest.1,
    )

-- Parts that are calls of functions.
abbrev pub call_parts : List (String × Value) → List Value
call_parts [] = []
call_parts ((name, args) ∷ ps) = call_part name args ∷ call_parts ps

calls-Queues :
    (serde : Serde) (ps : List (String × Value)) (g : Gathered) (ctx : ConvCtx)
    → Queues g.ids g.calls
    → Queues
        (add_parts serde (call_parts ps) g ctx).1.ids
        (add_parts serde (call_parts ps) g ctx).1.calls
unfolding add_parts add_part add_call index get get_field
calls-Queues serde [] g ctx h = h
calls-Queues serde ((name, args) ∷ ps) g ctx h =
    let step = add_part serde (call_part name args) g ctx in
    calls-Queues serde ps step.1 step.0 (
      push-Queues g.ids g.calls
        (record {
          id = call_id serde name g.seq;
          name = name;
          arguments = args_to_string serde args;
        })
        h)

none_waits : (name : String) → waiting name [] ≡ []
unfolding lookup
none_waits name = refl

-- Responses that come in the order of the calls of one content, the first of a request, become messages that each take over
-- the identifier of its call, also if functions of one name are called more than once; nothing is noted.
pub pair_responses-answers :
    (serde : Serde) (ps : List (String × Value)) (rs : List String) (before ctx : ConvCtx)
    → let g = (add_parts serde (call_parts ps) (nothing []) before).1 in
      ((pair_responses (answers g.calls rs) g.ids ctx).0 ≡ ctx)
      × ((pair_responses (answers g.calls rs) g.ids ctx).1.1 ≡ answered g.calls rs)
pair_responses-answers serde ps rs before ctx =
    let g = (add_parts serde (call_parts ps) (nothing []) before).1 in
    pairs-Queues g.calls rs g.ids ctx
      (calls-Queues serde ps (nothing []) before (λ name. none_waits name))
