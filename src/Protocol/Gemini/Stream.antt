-- ===== src/Protocol/Gemini/Stream.antt =====
-- src/protocol/gemini.rs: the chunks of a streamed response. A tool call is sent once, when its arguments are complete.
pub mod Read
pub mod Once
pub mod Known
pub mod Sent
use nextapi.Base.{
  ◌+++◌, ℕ, suc, ◌%◌, ◌^◌, pos, String, Bool, true, false, ◌&&◌, not, Option, none, some, List, [],
  ◌∷◌, ◌++◌, map, any, if◌then◌else◌, or_empty, is_text, eqb, Table, lookup, insert, ℕ_eq,
}
use nextapi.Base.Json.{
  Value, str, obj, Fields, no_fields, field, json, put_some, put_field, array, Serde,
}
use nextapi.Protocol.Chat.Parts.{is_none, opt_str}
use nextapi.Protocol.Chat.Chunk.{no_delta}
use nextapi.Protocol.Chat.Usage.{u64_value, add_absent}
use nextapi.Protocol.Finish.{to_lower}
use nextapi.Protocol.Ir.{
  ConvCtx, degrade, Conv, done, IrUsage, IrToolCallDelta, IrDelta, IrChunkChoice, IrChunk,
}
use nextapi.Protocol.Gemini.Parts.{thought_part, call_part}
use nextapi.Protocol.Gemini.Usage.{usage_metadata_to_json}
use nextapi.Protocol.Gemini.Response.{reverse_finish_reason}

-- The sets and maps are lists; the order of the arguments stands for the order in which the map is walked.
pub record StreamState : Type 0 where
  pub next_tool_index : ℕ
  pub role_sent : Bool
  pub multi_candidate_noted : Bool
  pub tool_names : Table ℕ String
  pub tool_args : Table ℕ String
  pub tool_ids : Table ℕ String
  pub emitted_tools : List ℕ

abbrev pub fresh : StreamState
fresh = record {
  next_tool_index = 0;
  role_sent = false;
  multi_candidate_noted = false;
  tool_names = [];
  tool_args = [];
  tool_ids = [];
  emitted_tools = [];
}

-- A part that is sent; of a call its index is kept beside what is sent.
pub data Part : Type 0 where
  said : String → Part
  thought : String → Part
  called : (index : ℕ) → String → Value → Part

unfoldable pub part_value : Part → Value
part_value (said s) = json (("text", str s) ∷ [])
part_value (thought s) = thought_part s
part_value (called i name args) = call_part name args

abbrev pub is_emitted : ℕ → StreamState → Bool
is_emitted i st = any (λ j. eqb j i) st.emitted_tools

abbrev pub put_name : ℕ → Option String → Table ℕ String → Table ℕ String
put_name i none t = t
put_name i (some s) t = insert i s t

-- More of the arguments of a call.
abbrev pub push_args : ℕ → Option String → Table ℕ String → Table ℕ String
push_args i none t = t
push_args i (some a) t = insert i (or_empty (lookup i t) +++ a) t

abbrev put_first : ℕ → Option String → Table ℕ String → Table ℕ String
put_first i none t = t
put_first i (some s) t = if is_none (lookup i t) then insert i s t else t

unfoldable pub note_call : IrToolCallDelta → StreamState → StreamState
note_call tc st = record st {
  tool_names = put_name tc.index tc.name st.tool_names;
  tool_args = push_args tc.index tc.arguments st.tool_args;
  tool_ids = put_first tc.index tc.id st.tool_ids;
}

-- The name and the arguments, if the arguments are a value.
abbrev pub complete : Serde → Option String → Option String → Option (String × Value)
complete serde (some name) (some args) = elim (serde.read args) [
  | none ↦ none
  | some v ↦ some (name, v)
]
complete serde none args = none
complete serde (some name) none = none

unfoldable pub ready : Serde → ℕ → StreamState → Option (String × Value)
ready serde i st =
    if is_emitted i st
    then none
    else complete serde (lookup i st.tool_names) (lookup i st.tool_args)

abbrev pub send : ℕ → Option (String × Value) → StreamState → StreamState × List Part
send i none st = (st, [])
send i (some (name, args)) st =
    (record st { emitted_tools = i ∷ st.emitted_tools }, called i name args ∷ [])

unfoldable pub push_calls : Serde → List IrToolCallDelta → StreamState → StreamState × List Part
unfolding note_call ready
push_calls serde [] st = (st, [])
push_calls serde (tc ∷ tcs) st =
    let noted = note_call tc st in
    let (st₁, first) = send tc.index (ready serde tc.index noted) noted in
    let (end, rest) = push_calls serde tcs st₁ in (end, first ++ rest)

abbrev read_or_object : Serde → Option String → Value
read_or_object serde none = obj no_fields
read_or_object serde (some s) = elim (serde.read s) [ none ↦ obj no_fields | some v ↦ v ]

-- A call whose name is known, with an empty object for arguments that are no value.
unfoldable pub forced : Serde → ℕ → StreamState → Option (String × Value)
forced serde i st = if is_emitted i st then none else elim (lookup i st.tool_names) [
  | none ↦ none
  | some name ↦ some (name, read_or_object serde (lookup i st.tool_args))
]

unfoldable pub flush_each : Serde → Table ℕ String → StreamState → StreamState × List Part
unfolding forced
flush_each serde [] st = (st, [])
flush_each serde ((i, s) ∷ entries) st =
    let (st₁, first) = send i (forced serde i st) st in
    let (end, rest) = flush_each serde entries st₁ in (end, first ++ rest)

unfoldable pub flush_unfinished_tools : Serde → StreamState → StreamState × List Part
unfolding flush_each
flush_unfinished_tools serde st = flush_each serde st.tool_args st

abbrev pub opt_said : (String → Part) → Option String → List Part
opt_said f none = []
opt_said f (some s) = f s ∷ []

abbrev pub first_choice : List IrChunkChoice → IrDelta × Option String
first_choice [] = (no_delta, none)
first_choice (c ∷ cs) = (c.delta, c.finish_reason)

abbrev pub flush_on : Serde → Option String → StreamState → StreamState × List Part
flush_on serde none st = (st, [])
flush_on serde (some reason) st = flush_unfinished_tools serde st

-- The parts of a chunk.
unfoldable pub chunk_parts : Serde → IrChunk → StreamState → StreamState × List Part
unfolding push_calls flush_unfinished_tools
chunk_parts serde c st =
    let (d, finish) = first_choice c.choices in
    let (st₁, calls) = push_calls serde d.tool_calls st in
    let (st₂, flushed) = flush_on serde finish st₁ in
    (st₂, opt_said said d.content ++ opt_said thought d.reasoning_content ++ calls ++ flushed)

abbrev parts_value : List Part → Option Value
parts_value [] = none
parts_value (p ∷ ps) = some (array (map part_value (p ∷ ps)))

abbrev opt_finish : Option String → Option Value
opt_finish none = none
opt_finish (some fr) = some (str (reverse_finish_reason fr))

abbrev candidate : List Part → Option String → Value
candidate ps finish = obj (
    put_some "finishReason" (opt_finish finish) (
      put_field "index" (u64_value 0) (
        put_field "content"
          (obj (put_some "parts" (parts_value ps) (put_field "role" (str "model") no_fields)))
          no_fields)))

abbrev write_usage : Option IrUsage → ConvCtx → ConvCtx × Option Value
write_usage none ctx = (ctx, none)
write_usage (some u) ctx = let (ctx₁, v) = usage_metadata_to_json u ctx in (ctx₁, some v)

abbrev is_sent : String → Bool
is_sent k = not (is_text k "gemini_finish_reason")

-- The body of a chunk, with the fields that the chunk was given beside it.
unfoldable pub chunk_body : List Part → IrChunk → ConvCtx → ConvCtx × Value
unfolding usage_metadata_to_json add_absent put_field part_value reverse_finish_reason
chunk_body ps c ctx =
    let (ctx₁, usage) = write_usage c.usage ctx in
    (
      ctx₁,
      obj (
          add_absent is_sent c.extra (
            put_some "usageMetadata" usage (
              put_field "candidates" (array (candidate ps (first_choice c.choices).1 ∷ []))
                no_fields))),
    )

unfoldable pub chunk_from_ir :
    Serde → IrChunk → StreamState → ConvCtx → (StreamState × ConvCtx) × Conv (List String)
unfolding chunk_parts chunk_body
chunk_from_ir serde c st ctx =
    let (st₁, ps) = chunk_parts serde c st in
    let (ctx₁, body) = chunk_body ps c ctx in ((st₁, ctx₁), done (serde.print body ∷ []))

-- A last frame, if a call is left.
abbrev end_lines : Serde → List Part → List String
end_lines serde [] = []
end_lines serde (p ∷ ps) =
    serde.print (json (("candidates", array (candidate (p ∷ ps) none ∷ [])) ∷ [])) ∷ []

unfoldable pub stream_end :
    Serde → StreamState → ConvCtx → (StreamState × ConvCtx) × Conv (List String)
unfolding flush_unfinished_tools
stream_end serde st ctx =
    let (st₁, ps) = flush_unfinished_tools serde st in ((st₁, ctx), done (end_lines serde ps))
