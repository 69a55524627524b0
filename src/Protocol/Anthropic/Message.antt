-- ===== src/Protocol/Anthropic/Message.antt =====
-- src/protocol/anthropic.rs: the system prompt and the messages of a request to the intermediate representation.
use nextapi.Base.{
  ◌+++◌, String, Bool, true, false, ◌&&◌, not, Option, none, some, List, [], ◌∷◌, ◌++◌, any,
  if◌then◌else◌, or_empty, first_of, is_empty_text, is_text,
}
use nextapi.Base.Json.{
  Value, null, str, arr, obj, Fields, as_bool, items, get, index, put_field, Serde,
}
use nextapi.Protocol.Chat.Parts.{text_at, is_none}
use nextapi.Protocol.Chat.Response.{no_message}
use nextapi.Protocol.Ir.{
  ConvCtx, degrade, parse, Conv, done, failed, IrRole, system, user, assistant, tool, IrPart, text,
  image_url, image_inline, plain, IrToolCall, IrMessage,
}
use nextapi.Protocol.Anthropic.Blocks.{parts_content, input_to_arguments, tool_result_text}

-- The texts of the blocks of a system prompt.
unfoldable pub system_text : List Value → ConvCtx → ConvCtx × String
system_text [] ctx = (ctx, "")
system_text (b ∷ bs) ctx =
    let kind = or_empty (text_at b "type") in
    let is_text_block = is_text kind "text" in
    let (ctx₁, rest) = system_text bs (
      if is_text_block
      then ctx
      else degrade "system.block.type" ("未知 system block 类型: " +++ kind) ctx) in
    (ctx₁, if is_text_block then or_empty (text_at b "text") +++ rest else rest)

-- The first cache control of the blocks.
unfoldable pub system_cache : List Value → Option Value
system_cache [] = none
system_cache (b ∷ bs) = first_of (get "cache_control" b) (system_cache bs)

abbrev pub system_message : String → List IrMessage
system_message s = record no_message { role = system; content = some (plain s) } ∷ []

abbrev system_of : String → Option Value → Option Value × List IrMessage
system_of s cache = (cache, if is_empty_text s && is_none cache then [] else system_message s)

-- The cache control and the message, if there is one.
unfoldable pub parse_system : Value → ConvCtx → ConvCtx × (Option Value × List IrMessage)
unfolding system_text system_cache
parse_system null ctx = (ctx, (none, []))
parse_system (str s) ctx = (ctx, system_of s none)
parse_system (arr xs) ctx =
    let (ctx₁, s) = system_text (items xs) ctx in (ctx₁, system_of s (system_cache (items xs)))
parse_system v ctx = (degrade "system" "system 既非字符串也非数组，丢弃" ctx, (none, []))

-- What the loop over the blocks of a message gathers. The signature goes to the extensions of the request.
pub record Gathered : Type 0 where
  pub found : List IrPart
  pub calls : List IrToolCall
  pub reasoning : Option String
  pub results : List IrMessage
  pub extra : Fields

unfoldable pub add_image : Value → Gathered → ConvCtx → ConvCtx × Gathered
add_image src g ctx =
    let kind = or_empty (text_at src "type") in
    if is_text kind "base64"
    then (
      ctx,
      record g {
        found =
            g.found
            ++ (image_inline (or_empty (text_at src "media_type")) (or_empty (text_at src "data"))
                ∷ []);
      },
    )
    else if is_text kind "url"
    then (ctx, record g { found = g.found ++ (image_url (or_empty (text_at src "url")) ∷ []) })
    else (degrade "content.block.image.source" ("未知图片源类型: " +++ kind) ctx, g)

abbrev pub call_of : Serde → Value → IrToolCall
call_of serde b = record {
  id = or_empty (text_at b "id");
  name = or_empty (text_at b "name");
  arguments = input_to_arguments serde (index b "input");
}

abbrev is_true : Option Bool → Bool
is_true none = false
is_true (some b) = b

abbrev is_text_value : Value → Bool
is_text_value b = elim (text_at b "type") [ none ↦ false | some s ↦ is_text s "text" ]

abbrev has_other : Option Value → Bool
has_other (some (arr xs)) = any (λ b. not (is_text_value b)) (items xs)
has_other _ = false

unfoldable pub add_result : Value → Gathered → ConvCtx → ConvCtx × Gathered
add_result b g ctx =
    let ctx₁ =
      if is_true (as_bool (index b "is_error"))
      then degrade "tool_result.is_error" "is_error 标记无 IR 槽位，丢弃" ctx
      else ctx in
    let ctx₂ =
      if has_other (get "content" b)
      then degrade "tool_result.content" "tool_result 仅抽取 text 块，其余类型丢弃" ctx₁
      else ctx₁ in
    (
      ctx₂,
      record g {
        results =
            g.results
            ++ (record no_message {
              role = tool;
              tool_call_id = some (or_empty (text_at b "tool_use_id"));
              content = some (plain (tool_result_text (get "content" b)));
            }
                ∷ []);
      },
    )

-- The signature is kept under a name of its own.
abbrev pub keep_signature : Option String → Fields → Fields
keep_signature none extra = extra
keep_signature (some sig) extra = put_field "thinking_signature" (str sig) extra

abbrev pub add_thinking : Value → Gathered → Gathered
add_thinking b g = record g {
  reasoning = some (or_empty (text_at b "thinking"));
  extra = keep_signature (text_at b "signature") g.extra;
}

unfoldable pub add_kind : Serde → String → Value → Gathered → ConvCtx → ConvCtx × Gathered
unfolding add_image add_result
add_kind serde kind b g ctx =
    if is_text kind "text"
    then (ctx, record g { found = g.found ++ (text (or_empty (text_at b "text")) ∷ []) })
    else if is_text kind "image"
    then add_image (index b "source") g ctx
    else if is_text kind "tool_use"
    then (ctx, record g { calls = g.calls ++ (call_of serde b ∷ []) })
    else if is_text kind "tool_result"
    then add_result b g ctx
    else if is_text kind "thinking"
    then (ctx, add_thinking b g)
    else (degrade "content.block.type" ("未知块类型: " +++ kind) ctx, g)

abbrev note_cache : Option Value → ConvCtx → ConvCtx
note_cache none ctx = ctx
note_cache (some v) ctx = degrade "content.cache_control" "非 system 位置的 cache_control 不支持，丢弃" ctx

-- What is no object is skipped.
unfoldable pub add_block : Serde → Value → Gathered → ConvCtx → ConvCtx × Gathered
unfolding add_kind
add_block serde (obj o) g ctx =
    let b = obj o in
    add_kind serde (or_empty (text_at b "type")) b g (note_cache (get "cache_control" b) ctx)
add_block serde v g ctx = (ctx, g)

unfoldable pub add_blocks : Serde → List Value → Gathered → ConvCtx → ConvCtx × Gathered
unfolding add_block
add_blocks serde [] g ctx = (ctx, g)
add_blocks serde (b ∷ bs) g ctx =
    let (ctx₁, g₁) = add_block serde b g ctx in add_blocks serde bs g₁ ctx₁

abbrev nothing : Fields → Gathered
nothing extra = record { found = []; calls = []; reasoning = none; results = []; extra = extra }

abbrev no_calls : List IrToolCall → Bool
no_calls [] = true
no_calls (c ∷ cs) = false

-- The message itself, unless it is empty, then the results of tools.
abbrev pub messages_from : IrRole → Gathered → List IrMessage
messages_from role g =
    let main = record no_message {
      role = role;
      content = parts_content g.found;
      tool_calls = g.calls;
      reasoning_content = g.reasoning;
    } in
    (if is_none main.content && no_calls g.calls && is_none g.reasoning then [] else main ∷ [])
    ++ g.results

unfoldable pub parse_anth_role : String → ConvCtx → ConvCtx × IrRole
parse_anth_role r ctx =
    if is_text r "user"
    then (ctx, user)
    else if is_text r "assistant"
    then (ctx, assistant)
    else (degrade "message.role" ("未知角色按 user 处理: " +++ r) ctx, user)

-- The messages with the extensions that were kept aside before, and after.
abbrev pub from_content :
    Serde → IrRole → Option Value → Fields → ConvCtx → ConvCtx × (Fields × List IrMessage)
from_content serde role (some (str s)) extra ctx =
    (ctx, (extra, record no_message { role = role; content = some (plain s) } ∷ []))
from_content serde role (some (arr xs)) extra ctx =
    let (ctx₁, g) = add_blocks serde (items xs) (nothing extra) ctx in
    (ctx₁, (g.extra, messages_from role g))
from_content serde role _ extra ctx = (ctx, (extra, record no_message { role = role } ∷ []))

unfoldable pub parse_anth_message :
    Serde → Value → Fields → ConvCtx → ConvCtx × Conv (Fields × List IrMessage)
unfolding parse_anth_role add_blocks
parse_anth_message serde (obj o) extra ctx =
    let msg = obj o in
    let (ctx₁, role) = parse_anth_role (or_empty (text_at msg "role")) ctx in
    let (ctx₂, read) = from_content serde role (get "content" msg) extra ctx₁ in (ctx₂, done read)
parse_anth_message serde v extra ctx = (ctx, failed (parse "message 不是对象"))
