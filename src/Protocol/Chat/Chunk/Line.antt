-- ===== src/Protocol/Chat/Chunk/Line.antt =====
-- src/protocol/chat.rs: what is read back from the line of a chunk that was written.
use nextapi.Base.{
  String, Bool, true, false, all, ◌&&◌, Option, none, some, List, map, ◌≡◌, refl, ap, ◌∙◌, arith,
  trims_to,
}
use nextapi.Base.Json.{
  Value, Fields, obj, get_field, put_all, keep_fields, get, Serde, array, fits_i64,
}
use nextapi.Base.Json.Laws.{get-put_all, after_puts, only, get-only, keep-only, keep-put_all}
use nextapi.Protocol.Ir.{ConvCtx, done, IrUsage, IrChunkChoice, IrChunk}
use nextapi.Protocol.Chat.Parts.{parse_each}
use nextapi.Protocol.Chat.Parts.Trip.{parse_each-map, noted}
use nextapi.Protocol.Chat.Message.{array_or_empty}
use nextapi.Protocol.Chat.Message.Trip.{text_at-field}
use nextapi.Protocol.Chat.Response.{usage_of, write_usage}
use nextapi.Protocol.Chat.Response.Trip.{created-field}
use nextapi.Protocol.Chat.Usage.{usage_to_json}
use nextapi.Protocol.Chat.Chunk.{
  parse_chunk_choice, chunk_choice_to_json, is_chunk_extra, usage_unless_null, with_choices,
  chunk_of, read_chunk, chunk_to_ir, chunk_fields, chunk_body,
}
use nextapi.Protocol.Chat.Chunk.Trip.{
  normal_chunk_choice, note_chunk_choice, parse_chunk_choice-chunk_choice_to_json,
}

unfoldable pub normal_chunk : IrChunk → Bool
normal_chunk c =
    all normal_chunk_choice c.choices && fits_i64 c.created && only is_chunk_extra c.extra

abbrev pub with_usage : Option IrUsage → IrChunk → IrChunk
with_usage u c = record {
  id = c.id;
  model = c.model;
  created = c.created;
  choices = c.choices;
  usage = u;
  extra = c.extra;
}

-- A written usage is never null.
usage_written :
    (u : Option IrUsage) (ctx : ConvCtx)
    → usage_unless_null (write_usage u ctx).1 ≡ usage_of (write_usage u ctx).1
unfolding usage_to_json
usage_written none ctx = refl
usage_written (some u) ctx = refl

choices-trip :
    (cs : List IrChunkChoice) (ctx : ConvCtx)
    → all normal_chunk_choice cs ≡ true
    → parse_each parse_chunk_choice
        (array_or_empty (some (array (map chunk_choice_to_json cs))))
        ctx
      ≡ (noted note_chunk_choice cs ctx, done cs)
choices-trip cs ctx h =
    parse_each-map parse_chunk_choice chunk_choice_to_json normal_chunk_choice note_chunk_choice
      (λ c x k. parse_chunk_choice-chunk_choice_to_json c x k) cs ctx h

chunk-field :
    (c : IrChunk) (usage : Option Value) (k : String)
    → is_chunk_extra k ≡ false
    → only is_chunk_extra c.extra ≡ true
    → get_field k (put_all (chunk_fields c usage) c.extra)
      ≡ after_puts k (chunk_fields c usage) none
chunk-field c usage k q h =
    get-put_all k (chunk_fields c usage) c.extra
    ∙ ap (λ d. after_puts k (chunk_fields c usage) d) (get-only is_chunk_extra k c.extra h q)

fields-trip :
    (o : Fields) (c : IrChunk) (usage : Option Value) (ctx : ConvCtx)
    → fits_i64 c.created ≡ true
    → ((k : String)
        → is_chunk_extra k ≡ false
        → get_field k o ≡ after_puts k (chunk_fields c usage) none)
    → keep_fields is_chunk_extra o ≡ c.extra
    → with_choices o (ctx, done c.choices)
      ≡ (ctx, done (some (with_usage (usage_unless_null usage) c)))
unfolding get
fields-trip o c usage ctx h at e =
    rw
      (
        text_at-field "id" o (some c.id) (at "id" refl),
        text_at-field "model" o (some c.model) (at "model" refl),
        created-field "created" o c.created (at "created" refl) h,
        at "usage" refl,
        e,
      )
      refl

body-trip :
    (c : IrChunk) (usage : Option Value) (ctx : ConvCtx)
    → normal_chunk c ≡ true
    → chunk_of (obj (put_all (chunk_fields c usage) c.extra)) ctx ≡ (
      noted note_chunk_choice c.choices ctx,
      done (some (with_usage (usage_unless_null usage) c)),
    )
unfolding normal_chunk get
body-trip c usage ctx h =
    let o = put_all (chunk_fields c usage) c.extra in
    let u : only is_chunk_extra c.extra ≡ true = ground (arith, h) in
    let at : (k : String)
        → is_chunk_extra k ≡ false
        → get_field k o ≡ after_puts k (chunk_fields c usage) none =
      λ k q. chunk-field c usage k q u in
    ap (λ x. with_choices o (parse_each parse_chunk_choice (array_or_empty x) ctx))
      (at "choices" refl)
    ∙ ap (λ x. with_choices o x) (choices-trip c.choices ctx (ground (arith, h)))
    ∙ fields-trip o c usage (noted note_chunk_choice c.choices ctx) (ground (arith, h)) at (
        keep-put_all is_chunk_extra (chunk_fields c usage) c.extra refl
        ∙ keep-only is_chunk_extra c.extra u)

-- A line that reads as the body written for a stream chunk, and is not the end mark, is read back as the chunk,
-- with the usage that the written usage is read as, if indices and creation time are in range, finish reasons are
-- normalised and only unknown fields are kept aside. What is noted is, for each delta with the role of the user and for
-- no other, a role that is not known.
pub chunk_to_ir-chunk_body :
    (serde : Serde) (c : IrChunk) (line : String) (ctx : ConvCtx)
    → normal_chunk c ≡ true
    → serde.read line ≡ some (chunk_body c ctx).1
    → trims_to line "[DONE]" ≡ false
    → chunk_to_ir serde line ctx ≡ (
      noted note_chunk_choice c.choices ctx,
      done (some (with_usage (usage_of (write_usage c.usage ctx).1) c)),
    )
unfolding chunk_to_ir chunk_body
chunk_to_ir-chunk_body serde c line ctx h r t = rw t (
    ap (λ v. read_chunk v (serde.read_error line) ctx) r
    ∙ body-trip c (write_usage c.usage ctx).1 ctx h
    ∙ ap (λ u. (noted note_chunk_choice c.choices ctx, done (some (with_usage u c))))
        (usage_written c.usage ctx))
