-- ===== src/Protocol/Anthropic/Body.antt =====
-- src/protocol/anthropic.rs: the body of a request from the intermediate representation.
pub mod Order
use nextapi.Base.{
  ℕ, String, Bool, true, false, pos, Option, none, some, List, [], ◌∷◌, ◌++◌, map, if◌then◌else◌,
  is_text, ◌+++◌,
}
use nextapi.Base.Json.{
  Value, bool, float, str, obj, Fields, no_fields, field, json, put_field, put_all, array, Serde,
}
use nextapi.Protocol.Chat.Parts.{opt_str}
use nextapi.Protocol.Chat.Tools.{on_some, on_items}
use nextapi.Protocol.Chat.Usage.{u64_value}
use nextapi.Protocol.Ir.{
  ConvCtx, degrade, Conv, done, IrRole, system, user, assistant, tool, IrPart, text, image_url,
  image_inline, input_audio, file, IrContent, plain, parts, IrMessage, IrExt, IrRequest,
}
use nextapi.Protocol.Anthropic.Blocks.{
  text_block, content_to_anthropic_blocks, opt_blocks, tool_result_block, assistant_blocks,
}
use nextapi.Protocol.Anthropic.Tools.{tool_choice_to_anthropic, tool_to_json}

abbrev part_texts : List IrPart → List String
part_texts [] = []
part_texts (text s ∷ ps) = s ∷ part_texts ps
part_texts (image_url url ∷ ps) = part_texts ps
part_texts (image_inline media payload ∷ ps) = part_texts ps
part_texts (input_audio payload format ∷ ps) = part_texts ps
part_texts (file name url payload ∷ ps) = part_texts ps

abbrev content_texts : Option IrContent → List String
content_texts none = []
content_texts (some (plain s)) = s ∷ []
content_texts (some (parts ps)) = part_texts ps

-- The texts of the system messages.
unfoldable pub system_texts : List IrMessage → List String
system_texts [] = []
system_texts (m ∷ ms) =
    let rest = system_texts ms in
    elim m.role [
      | system ↦ content_texts m.content ++ rest
      | user ↦ rest
      | assistant ↦ rest
      | tool ↦ rest
    ]

abbrev joined : List String → String
joined [] = ""
joined (s ∷ ss) = s +++ joined ss

abbrev with_cache : String → Value → Value
with_cache s cache = json (("type", str "text") ∷ ("text", str s) ∷ ("cache_control", cache) ∷ [])

abbrev system_value : Option Value → List String → Option Value
system_value cache [] = none
system_value (some cache) (s ∷ ss) = some (array (with_cache (joined (s ∷ ss)) cache ∷ []))
system_value none (s ∷ []) = some (str s)
system_value none (s ∷ (r ∷ ss)) = some (array (map text_block (s ∷ (r ∷ ss))))

unfoldable pub system_to_anthropic : IrRequest → Option Value
unfolding system_texts
system_to_anthropic req = system_value req.ext.cache_control (system_texts req.messages)

-- A message of the body: who speaks, and the blocks.
pub record Turn : Type 0 where
  pub is_user : Bool
  pub blocks : List Value

abbrev pub turn_value : Turn → Value
turn_value t =
    json
      (("role", str (if t.is_user then "user" else "assistant")) ∷ ("content", array t.blocks) ∷ [])

abbrev pub user_turn : List Value → Turn
user_turn bs = record { is_user = true; blocks = bs }

abbrev pub assistant_turn : List Value → Turn
assistant_turn bs = record { is_user = false; blocks = bs }

-- What waits becomes a message of the user.
abbrev pub flush : List Value → List Turn
flush [] = []
flush (b ∷ bs) = user_turn (b ∷ bs) ∷ []

-- The results of tools wait for the next message of the user, or for that of the assistant, before which they are sent.
unfoldable pub turns :
    Serde → Fields → List IrMessage → (pending : List Value) → ConvCtx → ConvCtx × List Turn
unfolding content_to_anthropic_blocks assistant_blocks tool_result_block
turns serde extra [] pending ctx = (ctx, flush pending)
turns serde extra (m ∷ ms) pending ctx = elim m.role [
  | system ↦ turns serde extra ms pending ctx
  | user ↦
      let (ctx₁, bs) = opt_blocks m.content ctx in
      let (ctx₂, rest) = turns serde extra ms [] ctx₁ in (ctx₂, user_turn (pending ++ bs) ∷ rest)
  | assistant ↦
      let (ctx₁, bs) = assistant_blocks serde m extra ctx in
      let (ctx₂, rest) = turns serde extra ms [] ctx₁ in
      (ctx₂, flush pending ++ (assistant_turn bs ∷ rest))
  | tool ↦
      let (ctx₁, b) = tool_result_block m ctx in turns serde extra ms (pending ++ (b ∷ [])) ctx₁
]

unfoldable pub messages_to_anthropic : Serde → IrRequest → ConvCtx → ConvCtx × Value
unfolding turns
messages_to_anthropic serde req ctx =
    let (ctx₁, ts) = turns serde req.ext.extra req.messages [] ctx in
    (ctx₁, array (map turn_value ts))

abbrev note {ℓ} : {A : Type ℓ} → Option A → String → ConvCtx → ConvCtx
note none item ctx = ctx
note (some x) item ctx = degrade item "Anthropic 无对应字段" ctx

-- A signature is carried, so it is not noted.
unfoldable pub note_extra : Fields → ConvCtx → ConvCtx
note_extra no_fields ctx = ctx
note_extra (field k v r) ctx =
    note_extra r (if is_text k "thinking_signature" then ctx else degrade k "Anthropic 无对应字段" ctx)

unfoldable pub degrade_request_ext : IrRequest → ConvCtx → ConvCtx
unfolding note_extra
degrade_request_ext req ctx = note_extra req.ext.extra (
    note req.ext.service_tier "ext.service_tier" (
      note req.ext.web_search "ext.web_search"
        (note req.n "n" (note req.seed "seed" (note req.response_format "response_format" ctx)))))

abbrev pub default_max_tokens : ℕ
default_max_tokens = 65536

unfoldable pub limit_of : Option ℕ → ConvCtx → ConvCtx × ℕ
limit_of none ctx = (degrade "max_tokens" "入口未提供，填充默认 65536" ctx, default_max_tokens)
limit_of (some n) ctx = (ctx, n)

abbrev metadata_of : Option String → Option Value
metadata_of none = none
metadata_of (some u) = some (json (("user_id", str u) ∷ []))

abbrev pub request_fields : IrRequest → Value → ℕ → List (String × Option Value)
request_fields req messages limit =
    ("model", some (str req.model))
    ∷ ("system", system_to_anthropic req)
    ∷ ("messages", some messages)
    ∷ ("max_tokens", some (u64_value limit))
    ∷ ("tools", on_items tool_to_json req.tools)
    ∷ ("tool_choice", on_some tool_choice_to_anthropic req.tool_choice)
    ∷ ("temperature", on_some float req.temperature)
    ∷ ("top_p", on_some float req.top_p)
    ∷ ("top_k", on_some u64_value req.ext.top_k)
    ∷ ("stop_sequences", on_some (λ l. array (map str l)) req.stop)
    ∷ ("stream", some (bool req.stream))
    ∷ ("metadata", metadata_of req.user_name)
    ∷ ("thinking", req.ext.thinking)
    ∷ []

unfoldable pub request_from_ir : Serde → IrRequest → ConvCtx → ConvCtx × Conv Value
unfolding messages_to_anthropic degrade_request_ext limit_of system_to_anthropic tool_to_json
    tool_choice_to_anthropic put_all
request_from_ir serde req ctx =
    let (ctx₁, limit) = limit_of req.max_tokens (degrade_request_ext req ctx) in
    let (ctx₂, messages) = messages_to_anthropic serde req ctx₁ in
    (ctx₂, done (obj (put_all (request_fields req messages limit) req.extra)))
