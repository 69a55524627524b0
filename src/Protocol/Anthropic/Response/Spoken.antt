-- ===== src/Protocol/Anthropic/Response/Spoken.antt =====
-- src/protocol/anthropic.rs: what the blocks written for what an assistant says are read back as.
use nextapi.Base.{
  String, ◌≡◌, refl, ap, ◌∙◌, inl, inr, Option, none, some, List, [], ◌∷◌, ◌++◌, map, All,
  Option-cases, or_empty,
}
use nextapi.Base.Json.{
  Value, obj, Fields, no_fields, get, get_field, index, put_field, array, Serde,
}
use nextapi.Base.Json.Laws.{items-to_items}
use nextapi.Sse.Chunks.{append_nil, append_assoc}
use nextapi.Protocol.Ir.{ConvCtx, assistant, text, IrToolCall, IrMessage}
use nextapi.Protocol.Chat.Parts.{text_at}
use nextapi.Protocol.Chat.Response.{no_message}
use nextapi.Protocol.Anthropic.Blocks.{
  parts_content, input_to_arguments, text_block, part_blocks, part_to_anth_block,
  content_to_anthropic_blocks, opt_blocks, signature_in, thinking_block, opt_thinking, input_of,
  tool_use_block, assistant_blocks,
}
use nextapi.Protocol.Anthropic.Message.{Gathered, keep_signature}
use nextapi.Protocol.Anthropic.Response.{
  add_response_kind, add_response_blocks, nothing, response_message,
}

-- What an assistant says: its reasoning, its texts, its tool calls.
abbrev pub spoken : Option String → List String → List IrToolCall → IrMessage
spoken reasoning ts calls = record no_message {
  role = assistant;
  content = parts_content (map text ts);
  tool_calls = calls;
  reasoning_content = reasoning;
}

-- The arguments are the text that their value is written as.
abbrev pub IsCanonical : Serde → IrToolCall → Type 0
IsCanonical serde tc = input_to_arguments serde (input_of serde tc.arguments) ≡ tc.arguments

part_blocks-text :
    (ts : List String) (ctx : ConvCtx) → part_blocks (map text ts) ctx ≡ (ctx, map text_block ts)
unfolding part_blocks part_to_anth_block
part_blocks-text [] ctx = refl
part_blocks-text (t ∷ ts) ctx = rw (part_blocks-text ts ctx) refl

opt_blocks-text :
    (ts : List String) (ctx : ConvCtx)
    → opt_blocks (parts_content (map text ts)) ctx ≡ (ctx, map text_block ts)
unfolding parts_content content_to_anthropic_blocks
opt_blocks-text [] ctx = refl
opt_blocks-text (t ∷ []) ctx = refl
opt_blocks-text (t ∷ (u ∷ ts)) ctx = part_blocks-text (t ∷ (u ∷ ts)) ctx

module _ (serde : Serde) where
  blocks-append :
      (xs ys : List Value) (g : Gathered) (ctx : ConvCtx)
      → add_response_blocks serde (xs ++ ys) g ctx
        ≡ add_response_blocks serde ys
            (add_response_blocks serde xs g ctx).1
            (add_response_blocks serde xs g ctx).0
  unfolding add_response_blocks
  blocks-append [] ys g ctx = refl
  blocks-append (obj o ∷ xs) ys g ctx =
      let h = add_response_kind serde (or_empty (text_at (obj o) "type")) (obj o) g ctx in
      blocks-append xs ys h.1 h.0
  blocks-append (v ∷ xs) ys g ctx = blocks-append xs ys g ctx

  texts-back :
      (ts : List String) (g : Gathered) (ctx : ConvCtx)
      → add_response_blocks serde (map text_block ts) g ctx
        ≡ (ctx, record g { found = g.found ++ map text ts })
  unfolding add_response_blocks add_response_kind index get get_field
  texts-back [] g ctx = rw (append_nil g.found) refl
  texts-back (t ∷ ts) g ctx =
      texts-back ts (record g { found = g.found ++ (text t ∷ []) }) ctx
      ∙ ap (λ x. (ctx, record g { found = x })) (append_assoc g.found (text t ∷ []) (map text ts))

  calls-back :
      (tcs : List IrToolCall) (g : Gathered) (ctx : ConvCtx)
      → All (IsCanonical serde) tcs
      → add_response_blocks serde (map (λ tc. tool_use_block serde tc) tcs) g ctx
        ≡ (ctx, record g { calls = g.calls ++ tcs })
  unfolding add_response_blocks add_response_kind index get get_field
  calls-back [] g ctx h = rw (append_nil g.calls) refl
  calls-back (tc ∷ tcs) g ctx (h, hs) =
      ap
        (λ a.
          add_response_blocks serde (map (λ tc. tool_use_block serde tc) tcs)
            (record g {
              calls = g.calls ++ (record { id = tc.id; name = tc.name; arguments = a } ∷ []);
            })
            ctx)
        h
      ∙ calls-back tcs (record g { calls = g.calls ++ (tc ∷ []) }) ctx hs
      ∙ ap (λ x. (ctx, record g { calls = x })) (append_assoc g.calls (tc ∷ []) tcs)

  -- What is kept aside of a thinking block.
  abbrev pub kept : Option String → Fields → Fields
  kept none extra = no_fields
  kept (some t) extra = keep_signature (signature_in extra) no_fields

  thinking-back :
      (reasoning : Option String) (extra : Fields) (ctx : ConvCtx)
      → add_response_blocks serde (opt_thinking reasoning extra) nothing ctx
        ≡ (ctx, record nothing { reasoning = reasoning; extra = kept reasoning extra })
  unfolding add_response_blocks add_response_kind thinking_block index get get_field put_field
  thinking-back none extra ctx = refl
  thinking-back (some t) extra ctx = elim (Option-cases (signature_in extra)) [
    | inl e ↦ rw e refl
    | inr (sig, e) ↦ rw e refl
  ]

  -- The blocks of what an assistant says give it back.
  pub message-back :
      (reasoning : Option String) (ts : List String) (calls : List IrToolCall) (extra : Fields)
      (ctx after : ConvCtx)
      → All (IsCanonical serde) calls
      → response_message serde
          (array (assistant_blocks serde (spoken reasoning ts calls) extra ctx).1)
          after
        ≡ (after, (kept reasoning extra, spoken reasoning ts calls))
  unfolding response_message assistant_blocks
  message-back reasoning ts calls extra ctx after h =
      let first = opt_thinking reasoning extra in
      let uses = map (λ tc. tool_use_block serde tc) calls in
      let g₁ = record nothing { reasoning = reasoning; extra = kept reasoning extra } in
      let g₂ = record g₁ { found = map text ts } in
      let gather : add_response_blocks serde (first ++ map text_block ts ++ uses) nothing after
          ≡ (after, record g₂ { calls = calls }) =
        blocks-append (first ++ map text_block ts) uses nothing after
        ∙ rw
            (
              blocks-append first (map text_block ts) nothing after,
              thinking-back reasoning extra after,
              texts-back ts g₁ after,
            )
            (calls-back calls g₂ after h) in
      rw (opt_blocks-text ts ctx, items-to_items (first ++ map text_block ts ++ uses), gather) refl
