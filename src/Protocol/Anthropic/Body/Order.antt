-- ===== src/Protocol/Anthropic/Body/Order.antt =====
-- The blocks of the messages of a body are those of the messages of the request, in order.
use nextapi.Base.{◌≡◌, refl, ap, ◌∙◌, List, [], ◌∷◌, ◌++◌}
use nextapi.Base.Json.{Value, Fields, Serde}
use nextapi.Sse.Chunks.{append_assoc}
use nextapi.Protocol.Ir.{ConvCtx, IrRole, system, user, assistant, tool, IrMessage}
use nextapi.Protocol.Anthropic.Blocks.{opt_blocks, assistant_blocks, tool_result_block}
use nextapi.Protocol.Anthropic.Body.{Turn, flush, turns}

abbrev pub turn_blocks : List Turn → List Value
turn_blocks [] = []
turn_blocks (t ∷ ts) = t.blocks ++ turn_blocks ts

-- The blocks of one message of the request: none of a system message, one of the result of a tool.
abbrev pub message_blocks : Serde → Fields → IrRole → IrMessage → ConvCtx → ConvCtx × List Value
message_blocks serde extra system m ctx = (ctx, [])
message_blocks serde extra user m ctx = opt_blocks m.content ctx
message_blocks serde extra assistant m ctx = assistant_blocks serde m extra ctx
message_blocks serde extra tool m ctx = let (ctx₁, b) = tool_result_block m ctx in (ctx₁, b ∷ [])

abbrev pub all_blocks : Serde → Fields → List IrMessage → ConvCtx → ConvCtx × List Value
all_blocks serde extra [] ctx = (ctx, [])
all_blocks serde extra (m ∷ ms) ctx =
    let (ctx₁, bs) = message_blocks serde extra m.role m ctx in
    let (ctx₂, rest) = all_blocks serde extra ms ctx₁ in (ctx₂, bs ++ rest)

flush-blocks :
    (pending : List Value) (ts : List Turn)
    → turn_blocks (flush pending ++ ts) ≡ pending ++ turn_blocks ts
flush-blocks [] ts = refl
flush-blocks (b ∷ bs) ts = refl

-- The turns of a message that is known by its role.
module _ (serde : Serde) (extra : Fields) (m : IrMessage) (ms : List IrMessage)
    (next : (pending : List Value) (ctx : ConvCtx)
      → ((turns serde extra ms pending ctx).0 ≡ (all_blocks serde extra ms ctx).0)
        × (turn_blocks (turns serde extra ms pending ctx).1
            ≡ pending ++ (all_blocks serde extra ms ctx).1)) where
  turns-role :
      (role : IrRole) (pending : List Value) (ctx : ConvCtx)
      → m.role ≡ role
      → ((turns serde extra (m ∷ ms) pending ctx).0 ≡ (all_blocks serde extra (m ∷ ms) ctx).0)
        × (turn_blocks (turns serde extra (m ∷ ms) pending ctx).1
            ≡ pending ++ (all_blocks serde extra (m ∷ ms) ctx).1)
  unfolding turns
  turns-role system pending ctx e = rw (e, turns) (next pending ctx)
  turns-role user pending ctx e =
      let (ctx₁, bs) = opt_blocks m.content ctx in
      let (a, b) = next [] ctx₁ in
      rw (e, turns)
        (
          a,
          ap (λ x. (pending ++ bs) ++ x) b
              ∙ append_assoc pending bs (all_blocks serde extra ms ctx₁).1,
        )
  turns-role assistant pending ctx e =
      let (ctx₁, bs) = assistant_blocks serde m extra ctx in
      let (a, b) = next [] ctx₁ in
      rw (e, turns) (a, flush-blocks pending _ ∙ ap (λ x. pending ++ (bs ++ x)) b)
  turns-role tool pending ctx e =
      let (ctx₁, r) = tool_result_block m ctx in
      let (a, b) = next (pending ++ (r ∷ [])) ctx₁ in
      rw (e, turns) (a, b ∙ append_assoc pending (r ∷ []) (all_blocks serde extra ms ctx₁).1)

-- The blocks of the messages of a body are, in order, those that waited and then those of the messages of the request but the
-- system's, each once: the result of a tool moves into the next message and is never lost; what is noted as dropped is
-- what the messages note one after the other.
pub turns-all_blocks :
    (serde : Serde) (extra : Fields) (ms : List IrMessage) (pending : List Value) (ctx : ConvCtx)
    → ((turns serde extra ms pending ctx).0 ≡ (all_blocks serde extra ms ctx).0)
      × (turn_blocks (turns serde extra ms pending ctx).1
          ≡ pending ++ (all_blocks serde extra ms ctx).1)
unfolding turns
turns-all_blocks serde extra [] [] ctx = (refl, refl)
turns-all_blocks serde extra [] (b ∷ bs) ctx = (refl, refl)
turns-all_blocks serde extra (m ∷ ms) pending ctx =
    turns-role serde extra m ms (λ p c. turns-all_blocks serde extra ms p c) m.role pending ctx refl
