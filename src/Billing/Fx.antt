-- ===== src/Billing/Fx.antt =====
-- src/billing/fx.rs: the exchange rates that a price is converted with.
pub mod Laws
use nextapi.Base.{
  ℕ, ℤ, pos, negsuc, ◌-◌, ◌*◌, ◌/◌, ◌^◌, String, Bool, true, false, ◌&&◌, ◌||◌, not, Option, none,
  some, List, [], ◌∷◌, if◌then◌else◌, le_z, leb, ltb, is_text, Table, lookup, insert, String_eq,
  pair_eq,
}
use nextapi.Entities.{Time}
use nextapi.Billing.Decimal.{Decimals}

pub record FxRate {ℓ} (D : Type ℓ) : Type ℓ where
  pub rate : D
  pub source : String
  pub at : Option Time
  pub inverse : Bool

pub record FxRateRow {ℓ} (D : Type ℓ) : Type ℓ where
  pub currency_from : String
  pub currency_to : String
  pub rate : D
  pub source : String
  pub fetched_at : Option Time

-- `FxSet`: the usable rates by their two currencies.
abbrev pub FxSet {ℓ} : Type ℓ → Type ℓ
FxSet D = Table (String × String) (FxRate D)

-- `num_minutes` of a difference of instants: towards zero.
abbrev minutes_between : Time → Time → ℤ
minutes_between now ts =
    let ahead = (ts - now) / 60000000000 in
    if leb ts now
    then pos ((now - ts) / 60000000000)
    else if leb ahead 0
    then pos 0
    else negsuc (ahead - 1)

-- `as i64` of an unsigned number of 64 bits.
abbrev as_signed : ℕ → ℤ
as_signed n = if ltb n (2 ^ 63) then pos n else negsuc (2 ^ 64 - n - 1)

unfoldable pub is_allowed :
    (source : String) (fetched : Option Time) (now : Time) (stale_max : ℕ) → Bool
is_allowed source none now stale_max = is_text source "manual"
is_allowed source (some ts) now stale_max =
    is_text source "manual"
    || (is_text source "auto" && le_z (minutes_between now ts) (as_signed stale_max))

module _ {ℓ} {D : Type ℓ} where
  abbrev pub pair_of : FxRateRow D → String × String
  pair_of row = (row.currency_from, row.currency_to)

  abbrev pub rate_of : FxRateRow D → FxRate D
  rate_of row = record {
    rate = row.rate;
    source = row.source;
    at = row.fetched_at;
    inverse = false;
  }

  -- A manual rate takes the place of another; else the first one stays.
  abbrev pub takes_place : FxRateRow D → Option (FxRate D) → Bool
  takes_place row none = true
  takes_place row (some held) = is_text row.source "manual" && not (is_text held.source "manual")

  unfoldable pub add_row : Time → ℕ → FxRateRow D → FxSet D → FxSet D
  unfolding is_allowed
  add_row now stale_max row direct =
      if is_allowed row.source row.fetched_at now stale_max
        && takes_place row (lookup (pair_of row) direct)
      then insert (pair_of row) (rate_of row) direct
      else direct

  unfoldable pub direct_rates : Time → ℕ → List (FxRateRow D) → FxSet D → FxSet D
  unfolding add_row
  direct_rates now stale_max [] direct = direct
  direct_rates now stale_max (row ∷ rows) direct =
      direct_rates now stale_max rows (add_row now stale_max row direct)

  abbrev pub is_absent : Option (FxRate D) → Bool
  is_absent none = true
  is_absent (some r) = false

  module _ (num : Decimals D) where
    abbrev pub inverse_of : FxRate D → FxRate D
    inverse_of v = record {
      rate = num.div num.one v.rate;
      source = v.source;
      at = v.at;
      inverse = true;
    }

    -- A rate that is missing is filled by the inverse of the other direction.
    unfoldable pub add_inverse : (String × String) → FxRate D → FxSet D → FxSet D
    add_inverse (from, to) v map =
        if is_absent (lookup (to, from) map) && not (num.is_zero v.rate)
        then insert (to, from) (inverse_of v) map
        else map

    unfoldable pub add_inverses : FxSet D → FxSet D → FxSet D
    unfolding add_inverse
    add_inverses [] map = map
    add_inverses ((k, v) ∷ rest) map = add_inverses rest (add_inverse k v map)

    unfoldable pub build_fx_set : List (FxRateRow D) → Time → ℕ → FxSet D
    unfolding direct_rates add_inverses
    build_fx_set rows now stale_max =
        let direct = direct_rates now stale_max rows [] in add_inverses direct direct

    abbrev pub builtin : D → D → Bool → D × Option (FxRate D)
    builtin amount rate inverse = (
      num.mul amount rate,
      some (record { rate = rate; source = "builtin"; at = none; inverse = inverse }),
    )

    abbrev pub by_default : String → String → D → Option (D × Option (FxRate D))
    by_default from to amount =
        if is_text from "USD" && is_text to "CNY"
        then some (builtin amount num.usd_cny false)
        else if is_text from "CNY" && is_text to "USD"
        then some (builtin amount (num.div num.one num.usd_cny) true)
        else none

    unfoldable pub convert : FxSet D → String → String → D → Option (D × Option (FxRate D))
    convert set from to amount =
        if is_text from to then some (amount, none) else elim (lookup (from, to) set) [
          | some r ↦ some (num.mul amount r.rate, some r)
          | none ↦ by_default from to amount
        ]
