-- ===== src/Protocol/Chat/Response/Trip.antt =====
-- src/protocol/chat.rs: what is read back from a response that was written.
use nextapi.Base.{
  ℕ, ◌^◌, ℤ, String, Bool, true, false, all, ◌&&◌, Option, none, some, List, map, ◌≡◌, refl, ap,
  ◌∙◌, arith, ltb, is_text, text_eq,
}
use nextapi.Base.Json.{
  Value, int, Fields, no_fields, get_field, put_all, keep_fields, index, get, obj, as_u64, fits_i64,
  Serde, array,
}
use nextapi.Base.Json.Laws.{get-put_all, after_puts, only, get-only, keep-only, keep-put_all}
use nextapi.Protocol.Ir.{ConvCtx, and_then, done, IrUsage, IrChoice, IrResponse}
use nextapi.Protocol.Finish.{normalize_finish_reason}
use nextapi.Protocol.Chat.Parts.{text_at}
use nextapi.Protocol.Chat.Parts.Trip.{parse_each-map, noted}
use nextapi.Protocol.Chat.Message.Trip.{
  normal_message, note_message, parse_message-message_to_json, text_at-field,
}
use nextapi.Protocol.Chat.Request.{to_u32}
use nextapi.Protocol.Chat.Request.Trip.{index-field}
use nextapi.Protocol.Chat.Usage.{or_zero, u64_value}
use nextapi.Protocol.Chat.Response.{
  parse_choice, choice_with, message_of, choices_of, choice_fields, choice_to_json, finish_of,
  index_of, i64_of, usage_of, is_response_extra, response_of, with_choices, response_to_ir,
  write_usage, response_fields, response_from_ir,
}

abbrev pub settled : Option String → Bool
settled none = true
settled (some s) = is_text (normalize_finish_reason s) s

-- A choice whose message can be carried, with an index of 32 bits and a finish reason in OpenAI's words.
unfoldable pub normal_choice : IrChoice → Bool
unfolding normal_message
normal_choice c = normal_message c.message && ltb c.index (2 ^ 32) && settled c.finish_reason

unfoldable pub normal_response : IrResponse → Bool
unfolding normal_choice
normal_response r =
    all normal_choice r.choices && fits_i64 r.created && only is_response_extra r.extra

pub index-trip :
    (v : Value) (n : ℕ) → index v "index" ≡ u64_value n → ltb n (2 ^ 32) ≡ true → index_of v ≡ n
index-trip v n e h = ap (λ x. or_zero (to_u32 (as_u64 x))) e ∙ rw h refl

pub finish-trip :
    (v : Value) (o : Option String)
    → text_at v "finish_reason" ≡ o
    → settled o ≡ true
    → finish_of v ≡ o
finish-trip v none e h = rw (e, finish_of) refl
finish-trip v (some s) e h = rw (e, finish_of) (ap some (text_eq (normalize_finish_reason s) s h))

choice-field :
    (c : IrChoice) (k : String)
    → get_field k (put_all (choice_fields c) no_fields) ≡ after_puts k (choice_fields c) none
unfolding get_field
choice-field c k = get-put_all k (choice_fields c) no_fields

-- What reading a written choice notes.
abbrev pub note_choice : IrChoice → ConvCtx → ConvCtx
note_choice c ctx = note_message c.message ctx

choice-trip :
    (serde : Serde) (c : IrChoice) (ctx : ConvCtx)
    → normal_choice c ≡ true
    → parse_choice serde (choice_to_json c) ctx ≡ (note_choice c ctx, done c)
unfolding parse_choice choice_to_json choice_fields normal_choice get
choice-trip serde c ctx h =
    let o = put_all (choice_fields c) no_fields in
    ap (λ x. choice_with (obj o) (message_of serde x ctx)) (choice-field c "message")
    ∙ ap (λ x. choice_with (obj o) x)
        (parse_message-message_to_json serde c.message ctx (ground (arith, h)))
    ∙ ap
        (λ i. (
          note_choice c ctx,
          done (record { index = i; message = c.message; finish_reason = finish_of (obj o) }),
        ))
        (index-trip (obj o) c.index
          (index-field "index" o (some (u64_value c.index)) (choice-field c "index"))
          (ground (arith, h)))
    ∙ ap
        (λ f. (
          note_choice c ctx,
          done (record { index = c.index; message = c.message; finish_reason = f }),
        ))
        (finish-trip (obj o) c.finish_reason
          (text_at-field "finish_reason" o c.finish_reason (choice-field c "finish_reason"))
          (ground (arith, h)))

choices-trip :
    (serde : Serde) (cs : List IrChoice) (ctx : ConvCtx)
    → all normal_choice cs ≡ true
    → choices_of serde (some (array (map choice_to_json cs))) ctx
      ≡ (noted note_choice cs ctx, done cs)
unfolding choices_of
choices-trip serde cs ctx h =
    parse_each-map (parse_choice serde) choice_to_json normal_choice note_choice
      (λ c x k. choice-trip serde c x k) cs ctx h

pub created-field :
    (k : String) (fs : Fields) (z : ℤ)
    → get_field k fs ≡ some (int z)
    → fits_i64 z ≡ true
    → i64_of (index (obj fs) k) ≡ z
created-field k fs z e h = ap i64_of (index-field k fs (some (int z)) e) ∙ rw (h, i64_of) refl

-- The response with the usage that its written form is read as.
abbrev pub with_usage : Option IrUsage → IrResponse → IrResponse
with_usage u r = record {
  id = r.id;
  model = r.model;
  created = r.created;
  choices = r.choices;
  usage = u;
  system_fingerprint = r.system_fingerprint;
  extra = r.extra;
}

response-field :
    (r : IrResponse) (usage : Option Value) (k : String)
    → is_response_extra k ≡ false
    → only is_response_extra r.extra ≡ true
    → get_field k (put_all (response_fields r usage) r.extra)
      ≡ after_puts k (response_fields r usage) none
response-field r usage k q h =
    get-put_all k (response_fields r usage) r.extra
    ∙ ap (λ d. after_puts k (response_fields r usage) d) (get-only is_response_extra k r.extra h q)

response_of-trip :
    (o : Fields) (r : IrResponse) (usage : Option Value)
    → fits_i64 r.created ≡ true
    → ((k : String)
        → is_response_extra k ≡ false
        → get_field k o ≡ after_puts k (response_fields r usage) none)
    → keep_fields is_response_extra o ≡ r.extra
    → response_of o r.choices ≡ with_usage (usage_of usage) r
unfolding response_fields get
response_of-trip o r usage h at e =
    rw
      (
        text_at-field "id" o (some r.id) (at "id" refl),
        text_at-field "model" o (some r.model) (at "model" refl),
        created-field "created" o r.created (at "created" refl) h,
        at "usage" refl,
        text_at-field "system_fingerprint" o r.system_fingerprint (at "system_fingerprint" refl),
        e,
      )
      refl

written-trip :
    (serde : Serde) (r : IrResponse) (usage : Option Value) (ctx : ConvCtx)
    → normal_response r ≡ true
    → response_to_ir serde (obj (put_all (response_fields r usage) r.extra)) ctx
      ≡ (noted note_choice r.choices ctx, done (with_usage (usage_of usage) r))
unfolding response_to_ir normal_response response_fields get
written-trip serde r usage ctx h =
    let o = put_all (response_fields r usage) r.extra in
    let u : only is_response_extra r.extra ≡ true = ground (arith, h) in
    let at : (k : String)
        → is_response_extra k ≡ false
        → get_field k o ≡ after_puts k (response_fields r usage) none =
      λ k q. response-field r usage k q u in
    ap (λ x. with_choices o (choices_of serde x ctx)) (at "choices" refl)
    ∙ ap (λ x. with_choices o x) (choices-trip serde r.choices ctx (ground (arith, h)))
    ∙ ap (λ x. (noted note_choice r.choices ctx, done x))
        (response_of-trip o r usage (ground (arith, h)) at (
          keep-put_all is_response_extra (response_fields r usage) r.extra refl
          ∙ keep-only is_response_extra r.extra u))

-- A response whose messages can be carried, whose indices and creation time are in range, whose finish reasons are
-- normalised and which keeps only unknown fields aside is read back from the body that is written for it, with the
-- usage that the written usage is read as. What is noted is what writing the usage notes and then, for each message of
-- the user and for no other, a role that is not known.
pub response_to_ir-response_from_ir :
    (serde : Serde) (r : IrResponse) (ctx : ConvCtx)
    → normal_response r ≡ true
    → and_then (response_from_ir r ctx) (response_to_ir serde) ≡ (
      noted note_choice r.choices (write_usage r.usage ctx).0,
      done (with_usage (usage_of (write_usage r.usage ctx).1) r),
    )
unfolding response_from_ir
response_to_ir-response_from_ir serde r ctx h =
    written-trip serde r (write_usage r.usage ctx).1 (write_usage r.usage ctx).0 h
