-- ===== src/Billing/Decimal.antt =====
-- The decimal numbers of the crate rust_decimal, as an interface: what src/billing asks of them.
use nextapi.Base.{ℤ, Bool}

pub record Decimals {ℓ} (D : Type ℓ) : Type ℓ where
  pub zero : D
  pub one : D
  pub million : D
  pub add : D → D → D
  pub mul : D → D → D
  pub div : D → D → D
  pub trunc : D → D
  pub fract : D → D
  pub less : D → D → Bool
  pub is_zero : D → Bool
  pub of_int : ℤ → D
  -- The constant `DEFAULT_USD_CNY` as a number.
  pub usd_cny : D
