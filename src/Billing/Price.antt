-- ===== src/Billing/Price.antt =====
-- src/billing/mod.rs: the price of a request, `price_with_rules`, and its parts. The order of the table of the best rules
-- stands for the order of the map, which the source leaves open.
pub mod Best
use nextapi.Base.{
  ℕ, ℤ, pos, ◌^◌, String, Bool, true, false, ◌&&◌, ◌||◌, not, Option, none, some, List, [], ◌∷◌,
  ◌++◌, map, filter, if◌then◌else◌, lt_z, is_text, is_empty_text, Table, lookup, insert, String_eq,
}
use nextapi.Base.Json.{Value, null, str, obj, Fields, no_fields, field, put_some, Serde}
use nextapi.Entities.{Uuid}
use nextapi.Billing.Decimal.{Decimals}
use nextapi.Billing.Rule.{
  PriceRuleRow, PricingInput, Readers, Local, in_effect, better_rule, match_segment,
}

pub record PricedLine {ℓ} (D : Type ℓ) : Type ℓ where
  pub unit : String
  pub currency : String
  pub quantity : D
  pub price : D
  pub cost : D
  pub rule_id : Uuid
  pub matched_segment : Option String

unfoldable pub normalize_dimension_key : Serde → Option Value → String
normalize_dimension_key serde none = ""
normalize_dimension_key serde (some null) = ""
normalize_dimension_key serde (some (obj no_fields)) = ""
normalize_dimension_key serde (some v) = serde.print v

abbrev opt_text : Option String → Option Value
opt_text none = none
opt_text (some s) = some (str s)

abbrev pub units : List String
units =
    "token_in" ∷ "token_out" ∷ "token_cache_write" ∷ "token_cache_read" ∷ "image" ∷ "video_second"
    ∷ []

abbrev is_token_unit : String → Bool
is_token_unit u =
    is_text u "token_in"
    || is_text u "token_out"
    || is_text u "token_cache_write"
    || is_text u "token_cache_read"

abbrev or_none {ℓ} : {A : Type ℓ} → Option A → List A → List A
or_none none xs = xs
or_none (some x) xs = x ∷ xs

abbrev size_key : Option String → Serde → String
size_key none serde = ""
size_key (some s) serde =
    normalize_dimension_key serde (some (obj (field "image_size" (str s) no_fields)))

module _ {ℓ} {D : Type ℓ} where
  unfoldable pub input_dimension_key : Serde → String → PricingInput D → String
  unfolding normalize_dimension_key
  input_dimension_key serde unit input =
      if is_text unit "image"
      then size_key input.image_size serde
      else if is_text unit "video_second"
      then normalize_dimension_key serde (
          some (
            obj (
              put_some "task_type" (opt_text input.video_task_type)
                (put_some "resolution" (opt_text input.video_resolution) no_fields))))
      else ""

  -- The better of the rules of each currency.
  unfoldable pub keep_better :
      PriceRuleRow D → Table String (PriceRuleRow D) → Table String (PriceRuleRow D)
  keep_better r best = elim (lookup r.currency best) [
    | none ↦ insert r.currency r best
    | some b ↦ if better_rule r b then insert r.currency r best else best
  ]

  unfoldable pub best_from :
      List (PriceRuleRow D) → Table String (PriceRuleRow D) → Table String (PriceRuleRow D)
  unfolding keep_better
  best_from [] best = best
  best_from (r ∷ rs) best = best_from rs (keep_better r best)

  abbrev pub best_by_cur : List (PriceRuleRow D) → Table String (PriceRuleRow D)
  best_by_cur cands = best_from cands []

  abbrev or_general : List (PriceRuleRow D) → String → List (PriceRuleRow D) → List (PriceRuleRow D)
  or_general [] dim active =
      if is_empty_text dim then [] else filter (λ r. is_empty_text r.dimension_key) active
  or_general (c ∷ cs) dim active = c ∷ cs

  -- The rules of a unit in effect, for its dimensions, or for none in particular.
  unfoldable pub candidates :
      List (PriceRuleRow D) → String → String → PricingInput D → List (PriceRuleRow D)
  candidates rules unit dim input =
      let active = filter (λ r. is_text r.unit unit && r.enabled && in_effect r input.at) rules in
      or_general (filter (λ r. is_text r.dimension_key dim) active) dim active

  module _ (num : Decimals D) (readers : Readers D) where
    abbrev measure : Option ℤ → Option D
    measure none = none
    measure (some n) = if lt_z (pos 0) n then some (num.of_int n) else none

    -- Whole seconds, rounded up, at least one.
    unfoldable pub ceil_seconds : D → D
    ceil_seconds s =
        let s₀ = if num.less s num.zero then num.zero else s in
        let c = num.trunc s₀ in
        let c₁ = if num.less num.zero (num.fract s₀) then num.add c num.one else c in
        if num.less c₁ num.one then num.one else c₁

    abbrev seconds_of : Option D → Option D
    seconds_of none = none
    seconds_of (some s) = some (ceil_seconds s)

    unfoldable pub unit_quantity : String → PricingInput D → Option D
    unfolding ceil_seconds
    unit_quantity unit input =
        if is_text unit "token_in"
        then measure input.prompt_tokens
        else if is_text unit "token_out"
        then measure input.completion_tokens
        else if is_text unit "token_cache_write"
        then measure input.cache_write_tokens
        else if is_text unit "token_cache_read"
        then measure input.cache_read_tokens
        else if is_text unit "image"
        then measure input.images
        else if is_text unit "video_second"
        then seconds_of input.video_seconds
        else none

    unfoldable pub unit_cost_divisor : String → D
    unit_cost_divisor unit = if is_token_unit unit then num.million else num.one

    abbrev price_or_base : Option (D × Option String) → D → D × Option String
    price_or_base none base = (base, none)
    price_or_base (some p) base = p

    unfoldable pub line_of :
        Local → PricingInput D → String → D → String × PriceRuleRow D → PricedLine D
    unfolding unit_cost_divisor match_segment
    line_of local input unit quantity (cur, rule) =
        let (price, seg_name) =
          price_or_base (match_segment readers rule input local) rule.base_price in
        record {
          unit = unit;
          currency = cur;
          quantity = quantity;
          price = price;
          cost = num.div (num.mul price quantity) (unit_cost_divisor unit);
          rule_id = rule.id;
          matched_segment = seg_name;
        }

    abbrev unit_lines :
        Serde
        → List (PriceRuleRow D)
        → PricingInput D
        → Local
        → String
        → Option D
        → List (PricedLine D)
    unit_lines serde rules input local unit none = []
    unit_lines serde rules input local unit (some quantity) =
        map (line_of local input unit quantity)
          (best_by_cur (candidates rules unit (input_dimension_key serde unit input) input))

    unfoldable pub lines_of :
        Serde → List (PriceRuleRow D) → PricingInput D → Local → List String → List (PricedLine D)
    unfolding unit_quantity input_dimension_key candidates best_from line_of
    lines_of serde rules input local [] = []
    lines_of serde rules input local (u ∷ us) =
        unit_lines serde rules input local u (unit_quantity u input)
        ++ lines_of serde rules input local us
