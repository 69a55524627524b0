-- ===== src/Billing/Total.antt =====
-- src/billing/mod.rs: the sums of a price in both currencies, and `price_with_rules` as a whole.
pub mod Both
use nextapi.Base.{
  String, Bool, true, false, ◌||◌, not, Option, none, some, List, [], ◌∷◌, if◌then◌else◌, is_text,
}
use nextapi.Base.Json.{Serde}
use nextapi.Billing.Decimal.{Decimals}
use nextapi.Billing.Rule.{PriceRuleRow, PricingInput, Readers, Local}
use nextapi.Billing.Fx.{FxSet, FxRate, convert}
use nextapi.Billing.Price.{PricedLine, lines_of, units}

-- A rate that was used: from, to and the rate.
pub record FxUse {ℓ} (D : Type ℓ) : Type ℓ where
  pub from : String
  pub to : String
  pub used : FxRate D

pub record PricingResult {ℓ} (D : Type ℓ) : Type ℓ where
  pub lines : List (PricedLine D)
  pub cost_cny : Option D
  pub cost_usd : Option D
  pub fx_snapshot : List (FxUse D)
  pub priced : Bool

-- The sums while the lines are walked: what is there of each currency, whether there is any, and the rates used.
pub record Sums {ℓ} (D : Type ℓ) : Type ℓ where
  pub cny : D
  pub usd : D
  pub has_cny : Bool
  pub has_usd : Bool
  pub uses : List (FxUse D)

abbrev snoc_use {ℓ} : {A : Type ℓ} → List A → A → List A
snoc_use [] x = x ∷ []
snoc_use (y ∷ ys) x = y ∷ snoc_use ys x

abbrev is_nil {ℓ} : {A : Type ℓ} → List A → Bool
is_nil [] = true
is_nil (x ∷ xs) = false

abbrev pub if_obtained {ℓ} : {A : Type ℓ} → Bool → A → Option A
if_obtained true a = some a
if_obtained false a = none

module _ {ℓ} {D : Type ℓ} (num : Decimals D) where
  abbrev pub no_sums : Sums D
  no_sums = record { cny = num.zero; usd = num.zero; has_cny = false; has_usd = false; uses = [] }

  -- The costs that are in a currency already.
  unfoldable pub add_direct : PricedLine D → Sums D → Sums D
  add_direct line s =
      if is_text line.currency "CNY"
      then record s { cny = num.add s.cny line.cost; has_cny = true }
      else if is_text line.currency "USD"
      then record s { usd = num.add s.usd line.cost; has_usd = true }
      else s

  abbrev with_use : String → String → Option (FxRate D) → List (FxUse D) → List (FxUse D)
  with_use from to none uses = uses
  with_use from to (some r) uses = snoc_use uses (record { from = from; to = to; used = r })

  abbrev into_cny : Option (D × Option (FxRate D)) → Sums D → Sums D
  into_cny none s = s
  into_cny (some (v, r)) s = record s {
    cny = num.add s.cny v;
    has_cny = true;
    uses = with_use "USD" "CNY" r s.uses;
  }

  abbrev into_usd : Option (D × Option (FxRate D)) → Sums D → Sums D
  into_usd none s = s
  into_usd (some (v, r)) s = record s {
    usd = num.add s.usd v;
    has_usd = true;
    uses = with_use "CNY" "USD" r s.uses;
  }

  -- The costs that are converted into the other currency.
  unfoldable pub add_converted : FxSet D → PricedLine D → Sums D → Sums D
  unfolding convert
  add_converted set line s =
      if is_text line.currency "USD"
      then into_cny (convert num set "USD" "CNY" line.cost) s
      else if is_text line.currency "CNY"
      then into_usd (convert num set "CNY" "USD" line.cost) s
      else s

  unfoldable pub over_lines :
      (PricedLine D → Sums D → Sums D) → List (PricedLine D) → Sums D → Sums D
  over_lines f [] s = s
  over_lines f (l ∷ ls) s = over_lines f ls (f l s)

  unfoldable pub sums : FxSet D → List (PricedLine D) → Sums D
  unfolding over_lines add_direct add_converted
  sums set lines = over_lines (add_converted set) lines (over_lines add_direct lines no_sums)

  abbrev pub result_of : List (PricedLine D) → Sums D → PricingResult D
  result_of lines s = record {
    lines = lines;
    cost_cny = if_obtained s.has_cny s.cny;
    cost_usd = if_obtained s.has_usd s.usd;
    fx_snapshot = s.uses;
    priced = not (is_nil lines);
  }

  unfoldable pub price_with_rules :
      Serde → Readers D → List (PriceRuleRow D) → FxSet D → PricingInput D → Local → PricingResult D
  unfolding lines_of sums
  price_with_rules serde readers rules set input local =
      let lines = lines_of num readers serde rules input local units in
      result_of lines (sums set lines)
