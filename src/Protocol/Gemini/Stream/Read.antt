-- ===== src/Protocol/Gemini/Stream/Read.antt =====
-- src/protocol/gemini.rs: an event of a Gemini stream to a chunk.
use nextapi.Base.{
  ◌+++◌, suc, ◌%◌, ◌^◌, pos, String, Bool, true, false, ◌&&◌, not, Option, none, some, List, [],
  ◌∷◌, ◌++◌, if◌then◌else◌, or_empty, first_of,
}
use nextapi.Base.Json.{Value, str, arr, obj, Fields, no_fields, items, get, index, put_field, Serde}
use nextapi.Protocol.Chat.Parts.{text_at, is_none}
use nextapi.Protocol.Chat.Chunk.{no_delta}
use nextapi.Protocol.Finish.{normalize_finish_reason}
use nextapi.Protocol.Ir.{
  ConvCtx, degrade, parse, Conv, done, failed, assistant, IrUsage, IrToolCallDelta, IrDelta,
  IrChunk,
}
use nextapi.Protocol.Gemini.Parts.{args_to_string, is_thought}
use nextapi.Protocol.Gemini.Response.{put_other, usage_of}
use nextapi.Protocol.Gemini.Usage.{parse_usage_metadata}
use nextapi.Protocol.Gemini.Stream.{StreamState}

-- The state and the delta that the parts of a frame are gathered in.
abbrev Gathering : Type 0
Gathering = StreamState × IrDelta

-- More of the text; a thought takes the place of one before it.
abbrev add_text : Value → String → IrDelta → IrDelta
add_text p s d =
    if is_thought p
    then record d { reasoning_content = some s }
    else record d { content = some (or_empty d.content +++ s) }

unfoldable pub add_call : Serde → Value → Gathering → Gathering
unfolding args_to_string
add_call serde fc (st, d) =
    let name = or_empty (text_at fc "name") in
    let idx = st.next_tool_index in
    (
      record st { next_tool_index = suc idx % 2 ^ 32 },
      record d {
        tool_calls =
            d.tool_calls
            ++ (record {
              index = idx;
              id = some (name +++ "_" +++ serde.int_text (pos idx));
              name = some name;
              arguments = some (args_to_string serde (index fc "args"));
            }
                ∷ []);
      },
    )

abbrev add_known :
    Serde → Value → Option String → Option Value → Gathering → ConvCtx → ConvCtx × Gathering
add_known serde p (some s) fc (st, d) ctx = (ctx, (st, add_text p s d))
add_known serde p none (some fc) g ctx = (ctx, add_call serde fc g)
add_known serde p none none g ctx = (degrade "stream.content.part" "未知流式 part 结构，丢弃" ctx, g)

unfoldable pub add_stream_parts : Serde → List Value → Gathering → ConvCtx → ConvCtx × Gathering
unfolding add_call
add_stream_parts serde [] g ctx = (ctx, g)
add_stream_parts serde (p ∷ ps) g ctx =
    let (ctx₁, g₁) = add_known serde p (text_at p "text") (get "functionCall" p) g ctx in
    add_stream_parts serde ps g₁ ctx₁

abbrev parts_of : Option Value → List Value
parts_of (some (arr xs)) = items xs
parts_of _ = []

-- The first frame with a content has the role.
unfoldable pub add_role : Gathering → Gathering
add_role (st, d) =
    if st.role_sent
    then (st, d)
    else (record st { role_sent = true }, record d { role = first_of d.role (some assistant) })

abbrev of_content : Serde → Option Value → StreamState → ConvCtx → ConvCtx × Gathering
of_content serde none st ctx = (ctx, (st, no_delta))
of_content serde (some content) st ctx =
    let (ctx₁, g) = add_stream_parts serde (parts_of (get "parts" content)) (st, no_delta) ctx in
    (ctx₁, add_role g)

abbrev many : List Value → Bool
many [] = false
many (c ∷ []) = false
many (c ∷ (d ∷ cs)) = true

-- That further candidates are dropped is noted once.
unfoldable pub note_many : List Value → StreamState → ConvCtx → StreamState × ConvCtx
note_many cs st ctx =
    if many cs && not st.multi_candidate_noted
    then (
      record st { multi_candidate_noted = true },
      degrade "stream.candidates" "流式多候选仅取首个，其余候选增量丢弃" ctx,
    )
    else (st, ctx)

abbrev first_candidate :
    Serde → List Value → StreamState → ConvCtx → (ConvCtx × Gathering) × Option String
first_candidate serde [] st ctx = ((ctx, (st, no_delta)), none)
first_candidate serde (c ∷ cs) st ctx =
    (of_content serde (get "content" c) st ctx, text_at c "finishReason")

abbrev of_candidates :
    Serde → Option Value → StreamState → ConvCtx → (ConvCtx × Gathering) × Option String
of_candidates serde (some (arr xs)) st ctx =
    let (st₁, ctx₁) = note_many (items xs) st ctx in first_candidate serde (items xs) st₁ ctx₁
of_candidates serde _ st ctx = ((ctx, (st, no_delta)), none)

abbrev no_calls : List IrToolCallDelta → Bool
no_calls [] = true
no_calls (c ∷ cs) = false

unfoldable pub delta_is_empty : IrDelta → Bool
delta_is_empty d =
    is_none d.role && is_none d.content && is_none d.reasoning_content && no_calls d.tool_calls

abbrev finish_at : Option String → Option String
finish_at none = none
finish_at (some s) = some (normalize_finish_reason s)

abbrev keep_finish : Option String → Fields
keep_finish none = no_fields
keep_finish (some s) = put_field "gemini_finish_reason" (str s) no_fields

-- A frame with neither increment nor finish reason nor usage is none.
abbrev frame_chunk : Fields → IrDelta → Option String → Option IrUsage → Option IrChunk
frame_chunk o d reason usage =
    if is_none reason && is_none usage && delta_is_empty d
    then none
    else some (record {
      id = "";
      model = "";
      created = pos 0;
      choices = record { index = 0; delta = d; finish_reason = finish_at reason } ∷ [];
      usage = usage;
      extra = put_other o (keep_finish reason);
    })

unfoldable pub read_frame :
    Serde → Fields → StreamState → ConvCtx → (StreamState × ConvCtx) × Option IrChunk
unfolding note_many add_stream_parts add_role delta_is_empty put_other parse_usage_metadata
read_frame serde o st ctx =
    let v = obj o in
    let ((ctx₁, (st₁, d)), reason) = of_candidates serde (get "candidates" v) st ctx in
    ((st₁, ctx₁), frame_chunk o d reason (usage_of (get "usageMetadata" v)))

abbrev framed :
    (StreamState × ConvCtx) × Option IrChunk → (StreamState × ConvCtx) × Conv (Option IrChunk)
framed (after, c) = (after, done c)

abbrev read_line :
    Serde
    → Option Value
    → (error : String) → StreamState
    → ConvCtx
    → (StreamState × ConvCtx) × Conv (Option IrChunk)
read_line serde none error st ctx = ((st, ctx), failed (parse error))
read_line serde (some (obj o)) error st ctx = framed (read_frame serde o st ctx)
read_line serde (some _) error st ctx = ((st, ctx), failed (parse "chunk 不是对象"))

unfoldable pub chunk_to_ir :
    Serde → String → StreamState → ConvCtx → (StreamState × ConvCtx) × Conv (Option IrChunk)
unfolding read_frame
chunk_to_ir serde line st ctx = read_line serde (serde.read line) (serde.read_error line) st ctx
