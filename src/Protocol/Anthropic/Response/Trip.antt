-- ===== src/Protocol/Anthropic/Response/Trip.antt =====
-- src/protocol/anthropic.rs: what is read back from a response that was written.
use nextapi.Base.{
  ℤ, String, Bool, true, false, ◌≡◌, refl, ap, ◌∙◌, Option, none, some, List, [], ◌∷◌, All, arith,
  not, text_eq, is_text,
}
use nextapi.Protocol.Chat.Message.Trip.{text_at-field}
use nextapi.Protocol.Chat.Request.Trip.{index-field}
use nextapi.Base.Json.{
  as_str, Value, str, obj, Fields, get, get_field, index, put_all, array, Serde,
}
use nextapi.Base.Json.Laws.{get-keep_fields, get-put_all, after_puts, only, get-only}
use nextapi.Protocol.Ir.{
  ConvCtx, Conv, done, failed, and_then, IrToolCall, IrMessage, IrUsage, IrChoice, IrResponse,
}
use nextapi.Protocol.Finish.{normalize_finish_reason}
use nextapi.Protocol.Chat.Parts.{text_at}
use nextapi.Protocol.Chat.Usage.{without}
use nextapi.Protocol.Anthropic.Blocks.{assistant_blocks}
use nextapi.Protocol.Anthropic.Events.{reverse_finish_reason}
use nextapi.Protocol.Anthropic.Response.{
  response_message, choices_of, reversed, raw_reason, str_or_null, write_usage, finish_at,
  is_unknown, stop_reason_of, response_to_ir, response_from_ir, response_fields, sent_extra,
}
use nextapi.Protocol.Anthropic.Response.Spoken.{spoken, IsCanonical, kept, message-back}

-- What is not there is not sent.
get-without :
    (k j : String) (fs : Fields) → get_field k fs ≡ none → get_field k (without j fs) ≡ none
get-without k j fs h = get-keep_fields (λ i. not (is_text i j)) k fs ∙ ground (arith, h)

get-sent_extra :
    (k : String) (fs : Fields) → get_field k fs ≡ none → get_field k (sent_extra fs) ≡ none
get-sent_extra k fs h =
    get-without k "thinking_signature" (without "anthropic_stop_reason" fs)
      (get-without k "anthropic_stop_reason" fs h)

-- The identifier, the model and the choices of what was read.
abbrev pub told : Conv IrResponse → Option (String × (String × List IrChoice))
told (failed e) = none
told (done r) = some (r.id, (r.model, r.choices))

abbrev pub returns : Option String → Bool
returns none = true
returns (some s) = is_text (normalize_finish_reason (reverse_finish_reason s)) s

-- A response with one choice, in which an assistant speaks.
abbrev pub one_choice :
    (id model : String) (created : ℤ)
    → IrMessage
    → Option String
    → Option IrUsage
    → Fields
    → IrResponse
one_choice id model created m finish usage extra = record {
  id = id;
  model = model;
  created = created;
  choices = record { index = 0; message = m; finish_reason = finish } ∷ [];
  usage = usage;
  system_fingerprint = none;
  extra = extra;
}

-- The finish reason that is read back: the raw stop reason, where one was kept aside, goes first.
abbrev pub finish_sent : (raw finish : Option String) → Option String
finish_sent none finish = finish
finish_sent (some raw) finish = some (normalize_finish_reason raw)

abbrev pub comes_back : (raw finish : Option String) → Bool
comes_back none finish = returns finish
comes_back (some raw) finish = true

-- The raw stop reason that a response keeps aside, unless it is empty.
abbrev pub kept_reason : Fields → Option String
kept_reason extra = raw_reason (get_field "anthropic_stop_reason" extra)

returns-finish_at :
    (finish : Option String) → returns finish ≡ true → finish_at (reversed finish) ≡ finish
returns-finish_at none h = refl
returns-finish_at (some s) h =
    ap some (text_eq (normalize_finish_reason (reverse_finish_reason s)) s h)

stop_reason_of-back :
    (raw finish : Option String) (ctx : ConvCtx)
    → comes_back raw finish ≡ true
    → finish_at (stop_reason_of raw finish ctx).1 ≡ finish_sent raw finish
unfolding stop_reason_of
stop_reason_of-back none finish ctx h = returns-finish_at finish h
stop_reason_of-back (some raw) finish ctx h = refl

reason-back :
    (v : Value) (sent : Option String)
    → index v "stop_reason" ≡ str_or_null sent
    → text_at v "stop_reason" ≡ sent
reason-back v none e = ap as_str e
reason-back v (some s) e = ap as_str e

-- The reader, by what it finds in the body.
read-back :
    (serde : Serde) (o : Fields) (ctx : ConvCtx) (id model : String) (content : Value)
    (sent finish : Option String) (extra : Fields) (m : IrMessage)
    → get_field "id" o ≡ some (str id)
    → get_field "model" o ≡ some (str model)
    → get_field "content" o ≡ some content
    → get_field "stop_reason" o ≡ some (str_or_null sent)
    → finish_at sent ≡ finish
    → response_message serde content ctx ≡ (ctx, (extra, m))
    → told (response_to_ir serde (obj o) ctx).1
      ≡ some (id, (model, record { index = 0; message = m; finish_reason = finish } ∷ []))
unfolding response_to_ir choices_of get
read-back serde o ctx id model content sent finish extra m ei em ec er h g =
    let t = reason-back (obj o) sent (index-field "stop_reason" o (some (str_or_null sent)) er) in
    rw (text_at-field "id" o (some id) ei, text_at-field "model" o (some model) em, ec, t, g, h)
      refl

-- What an assistant says in a response with one choice is read back from the body that is written for it, with the
-- identifier and the model, if the arguments of tool calls are the text that their value is written as and only unknown
-- fields are kept aside. If a raw stop reason that is not empty is kept aside, the finish reason read back is that one,
-- normalised; else it is the finish reason of the response, if this is one that comes back from Anthropic's words.
pub told-response_to_ir :
    (serde : Serde) (id model : String) (created : ℤ) (reasoning : Option String) (ts : List String)
    (calls : List IrToolCall) (finish : Option String) (usage : Option IrUsage) (extra : Fields)
    (ctx : ConvCtx)
    → All (IsCanonical serde) calls
    → comes_back (kept_reason extra) finish ≡ true
    → only is_unknown extra ≡ true
    → told
        (and_then
          (response_from_ir serde
            (one_choice id model created (spoken reasoning ts calls) finish usage extra)
            ctx)
          (response_to_ir serde)).1
      ≡ some (
        id,
        (
          model,
          record {
            index = 0;
            message = spoken reasoning ts calls;
            finish_reason = finish_sent (kept_reason extra) finish;
          }
              ∷ [],
        ),
      )
unfolding response_from_ir put_all
told-response_to_ir serde id model created reasoning ts calls finish usage extra ctx hc hf hu =
    let m = spoken reasoning ts calls in
    let r = one_choice id model created m finish usage extra in
    let blocks = (assistant_blocks serde m extra ctx).1 in
    let (ctx₁, sent) =
      stop_reason_of (kept_reason extra) finish (assistant_blocks serde m extra ctx).0 in
    let (ctx₂, u) = write_usage usage ctx₁ in
    let fields = response_fields r blocks sent u in
    let o = put_all fields (sent_extra extra) in
    let at : (k : String) → is_unknown k ≡ false → get_field k o ≡ after_puts k fields none = λ k h.
      get-put_all k fields (sent_extra extra)
      ∙ ap (λ d. after_puts k fields d)
          (get-sent_extra k extra (get-only is_unknown k extra hu h)) in
    read-back serde o ctx₂ id model (array blocks) sent (finish_sent (kept_reason extra) finish)
      (kept serde reasoning extra) m (at "id" refl) (at "model" refl) (at "content" refl)
      (at "stop_reason" refl)
      (stop_reason_of-back (kept_reason extra) finish (assistant_blocks serde m extra ctx).0 hf)
      (message-back serde reasoning ts calls extra ctx ctx₂ hc)
