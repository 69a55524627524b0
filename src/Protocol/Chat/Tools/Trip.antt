-- ===== src/Protocol/Chat/Tools/Trip.antt =====
-- src/protocol/chat.rs: what is read back from tools that were written.
use nextapi.Base.{
  String, Bool, true, false, not, Option, none, some, List, [], ◌∷◌, map, ◌≡◌, refl, ap, ◌∙◌, arith,
}
use nextapi.Base.Json.{
  Value, str, null, bool, int, float, arr, no_fields, get_field, put_all, put_field, index, get,
  obj,
}
use nextapi.Base.Json.Laws.{items-to_items}
use nextapi.Protocol.Ir.{ConvCtx, done, IrTool}
use nextapi.Protocol.Chat.Parts.{opt_str}
use nextapi.Protocol.Chat.Tools.{
  parse_tool, function_of, parse_tool_list, parse_tools, tools_of, on_some, on_items, tool_to_json,
  chat_tool_choice, is_named,
}

abbrev pub small {ℓ} : {A : Type ℓ} → (A → Bool) → Option A → Bool
small p none = true
small p (some a) = p a

abbrev pub chat_choice : Value → Bool
chat_choice (obj o) = not (is_named o)
chat_choice _ = true

tool_function-trip :
    (name : String) (d : Option String) (v : Value)
    → parse_tool (
        obj (
          put_all
            (("name", some (str name)) ∷ ("description", opt_str d) ∷ ("parameters", some v) ∷ [])
            no_fields))
      ≡ record { name = name; description = d; parameters = v }
unfolding index get get_field put_all put_field
tool_function-trip name none v = refl
tool_function-trip name (some d) v = refl

tool_list-trip :
    (ts : List IrTool) (ctx : ConvCtx) → parse_tool_list (map tool_to_json ts) ctx ≡ (ctx, ts)
unfolding parse_tool_list tool_to_json index get get_field put_all put_field
tool_list-trip [] ctx = refl
tool_list-trip (t ∷ ts) ctx =
    ap (λ r. (r.0, parse_tool (function_of t) ∷ r.1)) (tool_list-trip ts ctx)
    ∙ ap (λ x. (ctx, x ∷ ts)) (tool_function-trip t.name t.description t.parameters)

pub tools-trip :
    (ts : List IrTool) (ctx : ConvCtx) → tools_of (on_items tool_to_json ts) ctx ≡ (ctx, done ts)
unfolding parse_tools
tools-trip [] ctx = refl
tools-trip (t ∷ ts) ctx =
    ap (λ vs. ((parse_tool_list vs ctx).0, done (parse_tool_list vs ctx).1))
      (items-to_items (map tool_to_json (t ∷ ts)))
    ∙ ap (λ r. (r.0, done r.1)) (tool_list-trip (t ∷ ts) ctx)

not-true : (b : Bool) → not b ≡ true → b ≡ false
not-true b h = ground (arith, h)

pub choice-trip : (o : Option Value) → small chat_choice o ≡ true → on_some chat_tool_choice o ≡ o
unfolding chat_tool_choice
choice-trip none h = refl
choice-trip (some (obj o)) h = ap some (rw (not-true (is_named o) h) refl)
choice-trip (some null) h = refl
choice-trip (some (bool b)) h = refl
choice-trip (some (int z)) h = refl
choice-trip (some (float s)) h = refl
choice-trip (some (str s)) h = refl
choice-trip (some (arr xs)) h = refl
