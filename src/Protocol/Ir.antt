-- ===== src/Protocol/Ir.antt =====
-- src/protocol/ir.rs: the intermediate representation of requests, responses and stream chunks; the context of a
-- conversion of src/protocol/mod.rs. A float is its finite decimal text. A map is `Fields`.
use Prim.Native.String.{◌++◌}
use nextapi.Base.{ℕ, ℤ, String, Bool, Option, none, some, List, [], ◌∷◌}
use nextapi.Base.Json.{Value, Fields, no_fields}

pub record DegradedItem : Type 0 where
  pub item : String
  pub reason : String

-- `ConvCtx`: what was dropped or simplified, the newest last.
abbrev pub ConvCtx : Type 0
ConvCtx = List DegradedItem

abbrev pub snoc : ConvCtx → DegradedItem → ConvCtx
snoc [] d = d ∷ []
snoc (x ∷ xs) d = x ∷ snoc xs d

unfoldable pub degrade : String → String → ConvCtx → ConvCtx
degrade item reason ctx = snoc ctx (record { item = item; reason = reason })

abbrev pub join_comma : ConvCtx → String
join_comma [] = ""
join_comma (d ∷ []) = d.item
join_comma (d ∷ (e ∷ ds)) = d.item ++ "," ++ join_comma (e ∷ ds)

unfoldable pub degraded_header : ConvCtx → Option String
degraded_header [] = none
degraded_header (d ∷ ds) = some (join_comma (d ∷ ds))

pub data ConvertError : Type 0 where
  parse : String → ConvertError
  unsupported : String → ConvertError

-- What a conversion gives that may fail.
pub data Conv {ℓ} (A : Type ℓ) : Type ℓ where
  done : A → Conv A
  failed : ConvertError → Conv A

-- `?`: the second conversion on what the first gives, with its context.
abbrev pub and_then {ℓ ℓ'} :
    {A : Type ℓ} {B : Type ℓ'}
    → ConvCtx × Conv A
    → (A → ConvCtx → ConvCtx × Conv B)
    → ConvCtx × Conv B
and_then (ctx, failed e) f = (ctx, failed e)
and_then (ctx, done a) f = f a ctx

pub data IrRole : Type 0 where
  system : IrRole
  user : IrRole
  assistant : IrRole
  tool : IrRole

pub data IrPart : Type 0 where
  text : String → IrPart
  image_url : (url : String) → IrPart
  image_inline : (media_type payload : String) → IrPart
  input_audio : (payload format : String) → IrPart
  file : (name : String) (url payload : Option String) → IrPart

pub data IrContent : Type 0 where
  plain : String → IrContent
  parts : List IrPart → IrContent

pub record IrToolCall : Type 0 where
  pub id : String
  pub name : String
  pub arguments : String

pub record IrTool : Type 0 where
  pub name : String
  pub description : Option String
  pub parameters : Value

pub record IrMessage : Type 0 where
  pub role : IrRole
  pub content : Option IrContent
  pub name : Option String
  pub tool_calls : List IrToolCall
  pub tool_call_id : Option String
  pub reasoning_content : Option String

pub record IrExt : Type 0 where
  pub thinking : Option Value
  pub web_search : Option Value
  pub cache_control : Option Value
  pub top_k : Option ℕ
  pub service_tier : Option String
  pub extra : Fields

pub data MaxTokensField : Type 0 where
  max_tokens_field : MaxTokensField
  max_completion_tokens_field : MaxTokensField

pub record IrRequest : Type 0 where
  pub model : String
  pub messages : List IrMessage
  pub tools : List IrTool
  pub tool_choice : Option Value
  pub temperature : Option String
  pub top_p : Option String
  pub max_tokens : Option ℕ
  pub max_tokens_name : Option MaxTokensField
  pub stop : Option (List String)
  pub stream : Bool
  pub stream_include_usage : Bool
  pub response_format : Option Value
  pub seed : Option ℤ
  pub user_name : Option String
  pub n : Option ℕ
  pub ext : IrExt
  pub extra : Fields

pub record IrUsage : Type 0 where
  pub prompt_tokens : ℕ
  pub completion_tokens : ℕ
  pub cache_read_tokens : Option ℕ
  pub cache_write_tokens : Option ℕ
  pub total_tokens : Option ℕ
  pub extra : Fields

pub record IrChoice : Type 0 where
  pub index : ℕ
  pub message : IrMessage
  pub finish_reason : Option String

pub record IrResponse : Type 0 where
  pub id : String
  pub model : String
  pub created : ℤ
  pub choices : List IrChoice
  pub usage : Option IrUsage
  pub system_fingerprint : Option String
  pub extra : Fields

pub record IrToolCallDelta : Type 0 where
  pub index : ℕ
  pub id : Option String
  pub name : Option String
  pub arguments : Option String

pub record IrDelta : Type 0 where
  pub role : Option IrRole
  pub content : Option String
  pub reasoning_content : Option String
  pub tool_calls : List IrToolCallDelta

pub record IrChunkChoice : Type 0 where
  pub index : ℕ
  pub delta : IrDelta
  pub finish_reason : Option String

pub record IrChunk : Type 0 where
  pub id : String
  pub model : String
  pub created : ℤ
  pub choices : List IrChunkChoice
  pub usage : Option IrUsage
  pub extra : Fields

abbrev pub no_ext : IrExt
no_ext = record {
  thinking = none;
  web_search = none;
  cache_control = none;
  top_k = none;
  service_tier = none;
  extra = no_fields;
}
