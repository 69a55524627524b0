-- ===== src/Protocol/Gemini/Contents.antt =====
-- src/protocol/gemini.rs: the contents of a request to messages; calls of functions get identifiers, which their responses take over.
pub mod Pairs
use nextapi.Base.{
  ◌+++◌, ℕ, suc, ◌%◌, ◌^◌, pos, String, Bool, true, false, ◌&&◌, Option, none, some, List, [], ◌∷◌,
  ◌++◌, if◌then◌else◌, or_empty, Table, lookup, insert, String_eq,
}
use nextapi.Base.Json.{Value, arr, obj, get, index, items, Serde}
use nextapi.Protocol.Chat.Parts.{text_at, is_none}
use nextapi.Protocol.Chat.Response.{no_message}
use nextapi.Protocol.Ir.{
  ConvCtx, degrade, parse, Conv, done, failed, IrRole, tool, IrPart, plain, IrToolCall, IrMessage,
}
use nextapi.Protocol.Gemini.Parts.{
  args_to_string, parse_role, is_thought, image_of, file_of, content_of,
}

-- The identifiers that were made for calls of a function and wait for its responses, the oldest first.
abbrev pub CallIds : Type 0
CallIds = Table String (List String)

pub record Gathered : Type 0 where
  pub texts : List String
  pub media : List IrPart
  pub calls : List IrToolCall
  pub responses : List (String × String)
  pub reasoning : Option String
  pub seq : ℕ
  pub ids : CallIds

abbrev pub waiting : String → CallIds → List String
waiting name ids = elim (lookup name ids) [ none ↦ [] | some q ↦ q ]

abbrev pub call_id : Serde → String → ℕ → String
call_id serde name seq = name +++ "_" +++ serde.int_text (pos seq)

unfoldable pub add_call : Serde → Value → Gathered → Gathered
add_call serde fc g =
    let name = or_empty (text_at fc "name") in
    let id = call_id serde name g.seq in
    record g {
      seq = suc g.seq % 2 ^ 32;
      ids = insert name (waiting name g.ids ++ (id ∷ [])) g.ids;
      calls =
          g.calls
          ++ (record { id = id; name = name; arguments = args_to_string serde (index fc "args") }
              ∷ []);
    }

unfoldable pub add_text : Value → String → Gathered → Gathered
add_text p s g =
    if is_thought p
    then record g { reasoning = some s }
    else record g { texts = g.texts ++ (s ∷ []) }

abbrev add_image : ConvCtx × List IrPart → Gathered → ConvCtx × Gathered
add_image (ctx, found) g = (ctx, record g { media = g.media ++ found })

abbrev note_mime : Option Value → ConvCtx → ConvCtx
note_mime none ctx = ctx
note_mime (some v) ctx =
    degrade "content.part.fileData.mimeType" "fileData 的 mimeType 无 IR 槽位，丢弃" ctx

-- What a part is, by the first of its fields that is there.
abbrev add_function : Serde → Option Value → Option Value → Gathered → ConvCtx → ConvCtx × Gathered
add_function serde (some fc) fr g ctx = (ctx, add_call serde fc g)
add_function serde none (some fr) g ctx = (
  ctx,
  record g {
    responses =
        g.responses
        ++ ((or_empty (text_at fr "name"), args_to_string serde (index fr "response")) ∷ []);
  },
)
add_function serde none none g ctx = (degrade "content.part" "未知 part 结构，丢弃" ctx, g)

abbrev add_media :
    Serde → Value → Option Value → Option Value → Gathered → ConvCtx → ConvCtx × Gathered
add_media serde p (some id) fd g ctx = add_image (image_of "content.part.inlineData" id ctx) g
add_media serde p none (some fd) g ctx =
    (note_mime (get "mimeType" fd) ctx, record g { media = g.media ++ (file_of fd ∷ []) })
add_media serde p none none g ctx =
    add_function serde (get "functionCall" p) (get "functionResponse" p) g ctx

abbrev add_known : Serde → Value → Option String → Gathered → ConvCtx → ConvCtx × Gathered
add_known serde p (some s) g ctx = (ctx, add_text p s g)
add_known serde p none g ctx = add_media serde p (get "inlineData" p) (get "fileData" p) g ctx

unfoldable pub add_part : Serde → Value → Gathered → ConvCtx → ConvCtx × Gathered
unfolding add_text add_call image_of file_of args_to_string
add_part serde (obj o) g ctx = add_known serde (obj o) (text_at (obj o) "text") g ctx
add_part serde v g ctx = (degrade "content.part" "part 非对象，丢弃" ctx, g)

unfoldable pub add_parts : Serde → List Value → Gathered → ConvCtx → ConvCtx × Gathered
unfolding add_part
add_parts serde [] g ctx = (ctx, g)
add_parts serde (p ∷ ps) g ctx =
    let (ctx₁, g₁) = add_part serde p g ctx in add_parts serde ps g₁ ctx₁

abbrev no_calls : List IrToolCall → Bool
no_calls [] = true
no_calls (c ∷ cs) = false

abbrev pub main_message : IrRole → Gathered → List IrMessage
main_message role g =
    let content = content_of g.texts g.media in
    if is_none content && no_calls g.calls && is_none g.reasoning
    then []
    else record no_message {
      role = role;
      content = content;
      tool_calls = g.calls;
      reasoning_content = g.reasoning;
    }
      ∷ []

abbrev pub tool_message : String → String → (id : String) → IrMessage
tool_message name response id = record no_message {
  role = tool;
  content = some (plain response);
  name = some name;
  tool_call_id = some id;
}

-- A response takes the oldest identifier of its function, else the name.
unfoldable pub pair_response : String → CallIds → ConvCtx → ConvCtx × (CallIds × String)
pair_response name ids ctx = elim (waiting name ids) [
  | [] ↦ (
    degrade "functionResponse.id"
        ("functionResponse 无配对的 functionCall，tool_call_id 回退为 name: " +++ name) ctx,
    (ids, name),
  )
  | id ∷ rest ↦ (ctx, (insert name rest ids, id))
]

unfoldable pub pair_responses :
    List (String × String) → CallIds → ConvCtx → ConvCtx × (CallIds × List IrMessage)
unfolding pair_response
pair_responses [] ids ctx = (ctx, (ids, []))
pair_responses ((name, response) ∷ rs) ids ctx =
    let (ctx₁, (ids₁, id)) = pair_response name ids ctx in
    let (ctx₂, (ids₂, ms)) = pair_responses rs ids₁ ctx₁ in
    (ctx₂, (ids₂, tool_message name response id ∷ ms))

abbrev parts_of : Option Value → List Value
parts_of (some (arr xs)) = items xs
parts_of _ = []

abbrev pub nothing : CallIds → Gathered
nothing ids = record {
  texts = [];
  media = [];
  calls = [];
  responses = [];
  reasoning = none;
  seq = 0;
  ids = ids;
}

unfoldable pub parse_content :
    Serde → Value → CallIds → ConvCtx → ConvCtx × Conv (CallIds × List IrMessage)
unfolding parse_role add_parts pair_responses content_of
parse_content serde (obj o) ids ctx =
    let c = obj o in
    let (ctx₁, role) = parse_role (text_at c "role") ctx in
    let (ctx₂, g) = add_parts serde (parts_of (get "parts" c)) (nothing ids) ctx₁ in
    let (ctx₃, (ids₁, results)) = pair_responses g.responses g.ids ctx₂ in
    (ctx₃, done (ids₁, main_message role g ++ results))
parse_content serde v ids ctx = (ctx, failed (parse "content 不是对象"))
