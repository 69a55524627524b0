-- ===== src/Protocol/Chat/Request/Trip.antt =====
-- src/protocol/chat.rs: what is read back from a request that was written.
use nextapi.Base.{
  ℕ, ◌^◌, ℤ, pos, String, Bool, true, false, all, ◌&&◌, not, Option, none, some, List, [], ◌∷◌, map,
  ◌≡◌, refl, ap, ◌∙◌, arith, ltb,
}
use nextapi.Base.Json.{
  Value, str, null, bool, int, float, Fields, get_field, put_all, keep_fields, index, get, obj,
  as_f64, as_i64, as_u64, fits_i64, Serde, array,
}
use nextapi.Base.Json.Laws.{
  items-to_items, get-put_all, after_puts, only, get-only, keep-only, keep-put_all,
}
use nextapi.Protocol.Ir.{
  ConvCtx, and_then, done, IrTool, IrMessage, IrRequest, MaxTokensField, max_tokens_field,
  max_completion_tokens_field, no_ext,
}
use nextapi.Protocol.Chat.Parts.{is_none}
use nextapi.Protocol.Chat.Parts.Trip.{parse_each-map, noted}
use nextapi.Protocol.Chat.Message.{parse_message, message_to_json}
use nextapi.Protocol.Chat.Message.Trip.{
  normal_message, note_message, parse_message-message_to_json, text_at-field,
}
use nextapi.Protocol.Chat.Tools.{tools_of, on_some}
use nextapi.Protocol.Chat.Tools.Trip.{small, chat_choice, tools-trip, choice-trip}
use nextapi.Protocol.Chat.Request.{
  is_unknown, messages_of, max_conflict, max_tokens_of, parse_stop, keep_texts, to_u32,
  include_usage_of, include_usage, request_to_ir, request_of, with_tools, with_messages,
  degrade_ext, as_max_tokens, as_max_completion, request_fields, request_from_ir,
}

-- A limit has the name it came with, and there is no name without a limit.
abbrev named_limit : Option MaxTokensField → Option ℕ → Bool
named_limit none o = is_none o
named_limit (some f) o = not (is_none o)

-- What the handler of Chat Completions makes of a request: its messages can be carried, the limit is named,
-- the numbers are in range, the tool choice is in Chat's shape, and only unknown fields are kept aside.
unfoldable pub normal_request : IrRequest → Bool
unfolding normal_message
normal_request req =
    all normal_message req.messages
    && named_limit req.max_tokens_name req.max_tokens
    && small fits_i64 req.seed
    && small (λ k. ltb k (2 ^ 32)) req.n
    && small chat_choice req.tool_choice
    && only is_unknown req.extra

messages_of-trip :
    (serde : Serde) (ms : List IrMessage) (ctx : ConvCtx)
    → all normal_message ms ≡ true
    → messages_of serde (some (array (map message_to_json ms))) ctx
      ≡ (noted note_message ms ctx, done ms)
unfolding messages_of
messages_of-trip serde ms ctx h =
    parse_each-map (parse_message serde) message_to_json normal_message note_message
      (λ m c k. parse_message-message_to_json serde m c k) ms ctx h

limit-trip :
    (f : Option MaxTokensField) (o : Option ℕ)
    → named_limit f o ≡ true
    → max_tokens_of (as_max_tokens f o) (as_max_completion f o) ≡ (o, f)
unfolding max_tokens_of
limit-trip none none h = refl
limit-trip none (some n) h = ground (arith, h)
limit-trip (some f) none h = ground (arith, h)
limit-trip (some max_tokens_field) (some n) h = refl
limit-trip (some max_completion_tokens_field) (some n) h = refl

limit-silent :
    (f : Option MaxTokensField) (o : Option ℕ) (ctx : ConvCtx)
    → max_conflict (as_max_tokens f o) (as_max_completion f o) ctx ≡ ctx
unfolding max_conflict
limit-silent none none ctx = refl
limit-silent none (some n) ctx = refl
limit-silent (some max_tokens_field) none ctx = refl
limit-silent (some max_completion_tokens_field) none ctx = refl
limit-silent (some max_tokens_field) (some n) ctx = refl
limit-silent (some max_completion_tokens_field) (some n) ctx = refl

keep_texts-map : (l : List String) → keep_texts (map str l) ≡ l
keep_texts-map [] = refl
keep_texts-map (s ∷ l) = ap (λ r. s ∷ r) (keep_texts-map l)

stop-trip : (o : Option (List String)) → parse_stop (on_some (λ l. array (map str l)) o) ≡ o
unfolding parse_stop
stop-trip none = refl
stop-trip (some l) =
    ap (λ vs. some (keep_texts vs)) (items-to_items (map str l)) ∙ ap some (keep_texts-map l)

include_usage-trip : (b : Bool) → include_usage_of (include_usage b) ≡ b
unfolding get_field
include_usage-trip true = refl
include_usage-trip false = refl

-- What is read at a key of which it is known what it holds.
abbrev pub or_null : Option Value → Value
or_null none = null
or_null (some w) = w

pub index-field :
    (k : String) (fs : Fields) (o : Option Value)
    → get_field k fs ≡ o
    → index (obj fs) k ≡ or_null o
unfolding index get
index-field k fs o e = ap (λ x. or_null x) e

float-field :
    (serde : Serde) (k : String) (fs : Fields) (o : Option String)
    → get_field k fs ≡ on_some float o
    → as_f64 serde (index (obj fs) k) ≡ o
float-field serde k fs none e = ap (λ v. as_f64 serde v) (index-field k fs none e)
float-field serde k fs (some t) e = ap (λ v. as_f64 serde v) (index-field k fs (some (float t)) e)

seed-field :
    (k : String) (fs : Fields) (o : Option ℤ)
    → get_field k fs ≡ on_some int o
    → small fits_i64 o ≡ true
    → as_i64 (index (obj fs) k) ≡ o
seed-field k fs none e h = ap (λ v. as_i64 v) (index-field k fs none e)
seed-field k fs (some z) e h = ap (λ v. as_i64 v) (index-field k fs (some (int z)) e) ∙ rw h refl

n-field :
    (k : String) (fs : Fields) (o : Option ℕ)
    → get_field k fs ≡ on_some (λ i. int (pos i)) o
    → small (λ i. ltb i (2 ^ 32)) o ≡ true
    → to_u32 (as_u64 (index (obj fs) k)) ≡ o
n-field k fs none e h = ap (λ v. to_u32 (as_u64 v)) (index-field k fs none e)
n-field k fs (some i) e h =
    ap (λ v. to_u32 (as_u64 v)) (index-field k fs (some (int (pos i))) e) ∙ rw h refl

abbrev pub without_ext : IrRequest → IrRequest
without_ext req = record {
  model = req.model;
  messages = req.messages;
  tools = req.tools;
  tool_choice = req.tool_choice;
  temperature = req.temperature;
  top_p = req.top_p;
  max_tokens = req.max_tokens;
  max_tokens_name = req.max_tokens_name;
  stop = req.stop;
  stream = req.stream;
  stream_include_usage = req.stream_include_usage;
  response_format = req.response_format;
  seed = req.seed;
  user_name = req.user_name;
  n = req.n;
  ext = no_ext;
  extra = req.extra;
}

-- A known key of the written request holds what was put there.
request-field :
    (req : IrRequest) (k : String)
    → is_unknown k ≡ false
    → only is_unknown req.extra ≡ true
    → get_field k (put_all (request_fields req) req.extra) ≡ after_puts k (request_fields req) none
request-field req k q h =
    get-put_all k (request_fields req) req.extra
    ∙ ap (λ d. after_puts k (request_fields req) d) (get-only is_unknown k req.extra h q)

request_of-trip :
    (serde : Serde) (o : Fields) (req : IrRequest)
    → normal_request req ≡ true
    → ((k : String) → is_unknown k ≡ false → get_field k o ≡ after_puts k (request_fields req) none)
    → keep_fields is_unknown o ≡ req.extra
    → request_of serde o req.messages req.tools ≡ without_ext req
unfolding request_fields normal_request get
request_of-trip serde o req h at e =
    rw
      (
        text_at-field "model" o (some req.model) (at "model" refl),
        at "tool_choice" refl,
        choice-trip req.tool_choice (ground (arith, h)),
        float-field serde "temperature" o req.temperature (at "temperature" refl),
        float-field serde "top_p" o req.top_p (at "top_p" refl),
        at "max_tokens" refl,
        at "max_completion_tokens" refl,
        limit-trip req.max_tokens_name req.max_tokens (ground (arith, h)),
        at "stop" refl,
        stop-trip req.stop,
        index-field "stream" o (some (bool req.stream)) (at "stream" refl),
        at "stream_options" refl,
        include_usage-trip req.stream_include_usage,
        at "response_format" refl,
        seed-field "seed" o req.seed (at "seed" refl) (ground (arith, h)),
        text_at-field "user" o req.user_name (at "user" refl),
        n-field "n" o req.n (at "n" refl) (ground (arith, h)),
        e,
      )
      refl

-- The stages of the reader, one after the other.
request_to_ir-stages :
    (serde : Serde) (o : Fields) (ms : List IrMessage) (ts : List IrTool) (req : IrRequest)
    (ctx after : ConvCtx)
    → messages_of serde (get "messages" (obj o)) ctx ≡ (after, done ms)
    → max_conflict (get "max_tokens" (obj o)) (get "max_completion_tokens" (obj o)) after ≡ after
    → tools_of (get "tools" (obj o)) after ≡ (after, done ts)
    → request_of serde o ms ts ≡ req
    → request_to_ir serde (obj o) ctx ≡ (after, done req)
unfolding request_to_ir
request_to_ir-stages serde o ms ts req ctx after m c t r =
    ap (λ x. with_messages serde o x) m
    ∙ ap (λ x. with_tools serde o ms (tools_of (get "tools" (obj o)) x)) c
    ∙ ap (λ x. with_tools serde o ms x) t
    ∙ ap (λ x. (after, done x)) r

-- A request whose messages can be carried, whose limit is named, whose numbers are in range, whose tool choice is
-- in Chat's shape and which keeps only unknown fields aside is read back from the body that is written for it, less
-- its extensions. What is noted are the extensions as dropped and then, for each message of the user and for no other,
-- a role that is not known.
pub request_to_ir-request_from_ir :
    (serde : Serde) (req : IrRequest) (ctx : ConvCtx)
    → normal_request req ≡ true
    → and_then (request_from_ir req ctx) (request_to_ir serde)
      ≡ (noted note_message req.messages (degrade_ext req.ext ctx), done (without_ext req))
unfolding request_from_ir normal_request request_fields get
request_to_ir-request_from_ir serde req ctx h =
    let o = put_all (request_fields req) req.extra in
    let sent = degrade_ext req.ext ctx in
    let after = noted note_message req.messages sent in
    let u : only is_unknown req.extra ≡ true = ground (arith, h) in
    let at : (k : String)
        → is_unknown k ≡ false
        → get_field k o ≡ after_puts k (request_fields req) none =
      λ k q. request-field req k q u in
    request_to_ir-stages serde o req.messages req.tools (without_ext req) sent after
      (ap (λ x. messages_of serde x sent) (at "messages" refl)
        ∙ messages_of-trip serde req.messages sent (ground (arith, h)))
      (rw (at "max_tokens" refl, at "max_completion_tokens" refl)
        (limit-silent req.max_tokens_name req.max_tokens after))
      (ap (λ x. tools_of x after) (at "tools" refl) ∙ tools-trip req.tools after)
      (request_of-trip serde o req h at (
        keep-put_all is_unknown (request_fields req) req.extra refl
        ∙ keep-only is_unknown req.extra u))
