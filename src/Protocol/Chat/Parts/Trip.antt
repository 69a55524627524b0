-- ===== src/Protocol/Chat/Parts/Trip.antt =====
-- src/protocol/chat.rs: what is read back from a part that was written.
use Prim.Native.Char.{code}
use nextapi.Base.{
  ◌+++◌, String, Bool, true, false, all, ◌&&◌, not, Option, none, some, List, [], ◌∷◌, map, ◌≡◌,
  refl, ap, ◌∙◌, eqb, Bool-cases, Option-cases, inl, inr, arith, cut_at, strip_text, is_empty_text,
}
use nextapi.Base.Json.{Value, items, to_items, get_field, put_field, index, get}
use nextapi.Base.Json.Laws.{items-to_items}
use nextapi.Protocol.Ir.{
  ConvCtx, Conv, done, IrPart, text, image_url, image_inline, input_audio, file, IrContent, plain,
  parts,
}
use nextapi.Protocol.Chat.Parts.{
  split_data_url, image_of, parse_image_url, parse_file, parse_part, parse_all, parse_each,
  parse_content, opt_content, non_empty_parts, part_to_json, content_to_json, is_none,
}

-- A part that a request can carry: no empty address, no inline data in the place of an address, a media type without a semicolon.
unfoldable pub normal_part : IrPart → Bool
normal_part (text s) = true
normal_part (image_url url) = not (is_empty_text url) && is_none (strip_text "data:" url)
normal_part (image_inline media payload) = is_none (cut_at b';' media)
normal_part (input_audio payload format) = true
normal_part (file name url payload) = not (is_empty_text name && is_none url && is_none payload)

unfoldable pub normal_parts : List IrPart → Bool
unfolding normal_part
normal_parts [] = true
normal_parts (p ∷ ps) = normal_part p && normal_parts ps

unfoldable pub normal_content : Option IrContent → Bool
unfolding normal_parts
normal_content none = true
normal_content (some (plain s)) = true
normal_content (some (parts [])) = false
normal_content (some (parts (p ∷ ps))) = normal_parts (p ∷ ps)

none_of {ℓ} : {A : Type ℓ} (o : Option A) → is_none o ≡ true → o ≡ none
none_of none h = refl
none_of (some v) h = ground (arith, h)

cut_at-append :
    (media rest : String)
    → is_none (cut_at b';' media) ≡ true
    → cut_at b';' (media +++ ";" +++ rest) ≡ some (media, rest)
unfolding cut_at ◌+++◌
cut_at-append String.[] rest h = refl
cut_at-append (String.◌∷◌ c media) rest h = elim (Bool-cases (eqb (code c) b';')) [
  | inl e ↦ ground (arith, e, h)
  | inr e ↦ elim (Option-cases (cut_at b';' media)) [
    | inl q ↦ rw (e, cut_at-append media rest (rw q refl)) refl
    | inr (x, q) ↦ ground (arith, e, h, q)
  ]
]

image_of-url :
    (url : String) (ctx : ConvCtx)
    → normal_part (image_url url) ≡ true
    → image_of url ctx ≡ (ctx, some (image_url url))
unfolding image_of normal_part
image_of-url String.[] ctx h = ground (arith, h)
image_of-url (String.◌∷◌ c s) ctx h = rw (none_of (strip_text "data:" (String.◌∷◌ c s)) h) refl

split_data_url-append :
    (media payload : String)
    → is_none (cut_at b';' media) ≡ true
    → split_data_url (media +++ ";base64," +++ payload) ≡ (media, payload)
unfolding split_data_url ◌+++◌ cut_at
split_data_url-append media payload h =
    rw (cut_at-append media ("base64," +++ payload) h, split_data_url) refl

image_of-data :
    (rest : String) (ctx : ConvCtx)
    → image_of ("data:" +++ rest) ctx
      ≡ (ctx, some (image_inline (split_data_url rest).0 (split_data_url rest).1))
unfolding image_of strip_text ◌+++◌
image_of-data rest ctx = refl

image_of-inline :
    (media payload : String) (ctx : ConvCtx)
    → normal_part (image_inline media payload) ≡ true
    → image_of ("data:" +++ media +++ ";base64," +++ payload) ctx
      ≡ (ctx, some (image_inline media payload))
unfolding normal_part
image_of-inline media payload ctx h =
    image_of-data (media +++ ";base64," +++ payload) ctx
    ∙ ap (λ r. (ctx, some (image_inline r.0 r.1))) (split_data_url-append media payload h)

-- The cases of a file: with a name, with neither name nor address, with an address.
file-trip :
    (name : String) (url payload : Option String) (ctx : ConvCtx)
    → normal_part (file name url payload) ≡ true
    → parse_part (part_to_json (file name url payload)) ctx ≡ (ctx, some (file name url payload))
unfolding parse_part part_to_json parse_file normal_part index get get_field put_field
file-trip String.[] none none ctx h = ground (arith, h)
file-trip String.[] none (some d) ctx h = refl
file-trip String.[] (some u) none ctx h = refl
file-trip String.[] (some u) (some d) ctx h = refl
file-trip (String.◌∷◌ c s) none none ctx h = refl
file-trip (String.◌∷◌ c s) none (some d) ctx h = refl
file-trip (String.◌∷◌ c s) (some u) none ctx h = refl
file-trip (String.◌∷◌ c s) (some u) (some d) ctx h = refl

part-trip :
    (p : IrPart) (ctx : ConvCtx)
    → normal_part p ≡ true
    → parse_part (part_to_json p) ctx ≡ (ctx, some p)
unfolding parse_part part_to_json parse_image_url index get get_field put_field
part-trip (text s) ctx h = refl
part-trip (image_url url) ctx h = image_of-url url ctx h
part-trip (image_inline media payload) ctx h = image_of-inline media payload ctx h
part-trip (input_audio payload format) ctx h = refl
part-trip (file name url payload) ctx h = file-trip name url payload ctx h

parse_all-trip :
    (ps : List IrPart) (ctx : ConvCtx)
    → normal_parts ps ≡ true
    → parse_all parse_part (map part_to_json ps) ctx ≡ (ctx, ps)
unfolding parse_all normal_parts
parse_all-trip [] ctx h = refl
parse_all-trip (p ∷ ps) ctx h =
    rw (part-trip p ctx (ground (arith, h))) (rw (parse_all-trip ps ctx (ground (arith, h))) refl)

-- What parse_content makes of the values of an array.
parsed : ConvCtx → List Value → ConvCtx × Option IrContent
parsed ctx vs = let r = parse_all parse_part vs ctx in (r.0, non_empty_parts r.1)

pub content-trip :
    (c : Option IrContent) (ctx : ConvCtx)
    → normal_content c ≡ true
    → parse_content (opt_content c) ctx ≡ (ctx, c)
unfolding parse_content content_to_json normal_content parsed
content-trip none ctx h = refl
content-trip (some (plain s)) ctx h = refl
content-trip (some (parts [])) ctx h = ground (arith, h)
content-trip (some (parts (p ∷ ps))) ctx h =
    ap (λ vs. parsed ctx vs) (items-to_items (map part_to_json (p ∷ ps)))
    ∙ ap (λ r. (r.0, non_empty_parts r.1)) (parse_all-trip (p ∷ ps) ctx h)

-- What is noted of the elements, one after the other.
abbrev pub noted {ℓ} : {A : Type ℓ} → (A → ConvCtx → ConvCtx) → List A → ConvCtx → ConvCtx
noted note [] ctx = ctx
noted note (x ∷ xs) ctx = noted note xs (note x ctx)

parse_each-trip {ℓ} :
    {A : Type ℓ} (f : Value → ConvCtx → ConvCtx × Conv A) (print : A → Value) (ok : A → Bool)
    (note : A → ConvCtx → ConvCtx)
    → ((a : A) (ctx : ConvCtx) → ok a ≡ true → f (print a) ctx ≡ (note a ctx, done a))
    → (xs : List A) (ctx : ConvCtx) → all ok xs ≡ true
    → parse_each f (map print xs) ctx ≡ (noted note xs ctx, done xs)
unfolding parse_each
parse_each-trip f print ok note g [] ctx h = refl
parse_each-trip f print ok note g (x ∷ xs) ctx h =
    let e = g x ctx (ground (arith, h)) in
    rw (e, parse_each)
      (rw e (rw (parse_each-trip f print ok note g xs (note x ctx) (ground (arith, h))) refl))

-- A sequence of which each element is read back is read back.
pub parse_each-map {ℓ} :
    {A : Type ℓ} (f : Value → ConvCtx → ConvCtx × Conv A) (print : A → Value) (ok : A → Bool)
    (note : A → ConvCtx → ConvCtx)
    → ((a : A) (ctx : ConvCtx) → ok a ≡ true → f (print a) ctx ≡ (note a ctx, done a))
    → (xs : List A) (ctx : ConvCtx) → all ok xs ≡ true
    → parse_each f (items (to_items (map print xs))) ctx ≡ (noted note xs ctx, done xs)
unfolding parse_each
parse_each-map f print ok note g xs ctx h =
    ap (λ vs. parse_each f vs ctx) (items-to_items (map print xs))
    ∙ parse_each-trip f print ok note g xs ctx h
