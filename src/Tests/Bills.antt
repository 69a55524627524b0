-- ===== src/Tests/Bills.antt =====
-- Rules, rates and a request that the theorems on prices are applied to; the numbers stand for decimals.
use nextapi.Base.{
  ℕ, ℤ, pos, ◌+◌, ◌*◌, ◌/◌, ltb, eqb, pos_part, String, true, none, some, [], ◌∷◌, any, ◌≡◌, refl,
  inl, inr, lookup, String_eq, pair_eq,
}
use nextapi.Base.Json.{Serde}
use nextapi.Billing.Decimal.{Decimals}
use nextapi.Billing.Rule.{PriceRuleRow, PricingInput, Readers, Local}
use nextapi.Billing.Price.{best_by_cur}
use nextapi.Billing.Price.Best.{In, id_of, best_by_cur-choice}
use nextapi.Billing.Fx.{FxRateRow, build_fx_set}
use nextapi.Billing.Fx.Laws.{sets, is_manual, build_fx_set-manual}
use nextapi.Billing.Total.{price_with_rules}
use nextapi.Billing.Total.Both.{is_some, in_either, price_with_rules-both}

abbrev nat : Decimals ℕ
nat = record {
  zero = 0;
  one = 1;
  million = 1000000;
  add = λ a b. a + b;
  mul = λ a b. a * b;
  div = λ a b. a / b;
  trunc = λ a. a;
  fract = λ a. 0;
  less = λ a b. ltb a b;
  is_zero = λ a. eqb a 0;
  of_int = λ z. pos_part z;
  usd_cny = 7;
}

abbrev rule : ℕ → ℤ → String → PriceRuleRow ℕ
rule n priority currency = record {
  id = n;
  unit = "token_in";
  currency = currency;
  base_price = 3000;
  dimension_key = "";
  segments = none;
  context_basis = "prompt_tokens";
  effective_from = none;
  effective_to = none;
  priority = priority;
  sort_order = pos 0;
  enabled = true;
  created_at = 5;
}

abbrev low : PriceRuleRow ℕ
low = rule 1 (pos 1) "CNY"

abbrev high : PriceRuleRow ℕ
high = rule 2 (pos 2) "CNY"

swapped : (a b : PriceRuleRow ℕ) (r : PriceRuleRow ℕ) → In r (a ∷ b ∷ []) → In r (b ∷ a ∷ [])
swapped a b r (inl e) = inr (inl e)
swapped a b r (inr (inl e)) = inl e
swapped a b r (inr (inr i)) = elim i [ ]

best_by_cur-choice_example :
    id_of (lookup "CNY" (best_by_cur (low ∷ high ∷ [])))
    ≡ id_of (lookup "CNY" (best_by_cur (high ∷ low ∷ [])))
best_by_cur-choice_example =
    best_by_cur-choice "CNY" (low ∷ high ∷ []) (high ∷ low ∷ []) (swapped low high)
      (swapped high low)

abbrev rate : String → ℕ → FxRateRow ℕ
rate source value = record {
  currency_from = "USD";
  currency_to = "CNY";
  rate = value;
  source = source;
  fetched_at = some 10;
}

build_fx_set-manual_example :
    is_manual
      (lookup ("USD", "CNY") (build_fx_set nat (rate "auto" 6 ∷ rate "manual" 8 ∷ []) 20 60))
    ≡ true
unfolding sets
build_fx_set-manual_example =
    build_fx_set-manual nat (rate "auto" 6 ∷ rate "manual" 8 ∷ []) 20 60 ("USD", "CNY") refl

abbrev serde : Serde
serde = record {
  print = λ v. "{}";
  read = λ s. none;
  read_error = λ s. "EOF";
  float_of_int = λ z. "1.0";
  int_text = λ z. "1";
}

abbrev readers : Readers ℕ
readers = record { i32 = λ s. none; segments = λ v. none }

abbrev input : PricingInput ℕ
input = record {
  at = 7;
  prompt_tokens = some (pos 2000);
  completion_tokens = none;
  cache_write_tokens = none;
  cache_read_tokens = none;
  images = none;
  image_size = none;
  video_seconds = none;
  video_resolution = none;
  video_task_type = none;
}

abbrev noon : Local
noon = record { weekday = "mon"; minutes = pos 720 }

price_with_rules-both_example :
    let r = price_with_rules nat serde readers (low ∷ high ∷ []) [] input noon in
    (is_some r.cost_cny ≡ any (in_either nat) r.lines)
    × (is_some r.cost_usd ≡ any (in_either nat) r.lines)
price_with_rules-both_example =
    price_with_rules-both nat serde readers (low ∷ high ∷ []) [] input noon
