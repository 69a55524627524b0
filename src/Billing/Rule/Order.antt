-- ===== src/Billing/Rule/Order.antt =====
-- src/billing/mod.rs: `better_rule` is a strict order in which two rules of different ids are never alike.
use nextapi.Base.{ℕ, ℤ, Bool, true, false, not, lt_z, eq_z, ltb, eqb, if◌then◌else◌, ◌≡◌, arith}
use nextapi.Billing.Rule.{PriceRuleRow, better_rule}

-- Where the first keys differ they decide, else what follows does.
abbrev by_key : (higher equal rest : Bool) → Bool
by_key higher equal rest = if not equal then higher else rest

-- If neither `a` comes before `b` nor `b` before `c`, then `a` does not come before `c`: for one key and the rest.
keys_trans_up :
    (a b c : ℤ) (ab bc ac : Bool)
    → (ab ≡ false → bc ≡ false → ac ≡ false)
    → by_key (lt_z a b) (eq_z a b) ab ≡ false
    → by_key (lt_z b c) (eq_z b c) bc ≡ false
    → by_key (lt_z a c) (eq_z a c) ac ≡ false
keys_trans_up a b c ab bc ac r p q = ground arith

keys_trans_down :
    (a b c : ℤ) (ab bc ac : Bool)
    → (ab ≡ false → bc ≡ false → ac ≡ false)
    → by_key (lt_z b a) (eq_z a b) ab ≡ false
    → by_key (lt_z c b) (eq_z b c) bc ≡ false
    → by_key (lt_z c a) (eq_z a c) ac ≡ false
keys_trans_down a b c ab bc ac r p q = ground arith

keys_trans_last :
    (a b c i j k : ℕ)
    → by_key (ltb a b) (eqb a b) (ltb i j) ≡ false
    → by_key (ltb b c) (eqb b c) (ltb j k) ≡ false
    → by_key (ltb a c) (eqb a c) (ltb i k) ≡ false
keys_trans_last a b c i j k p q = ground arith

-- Of two elements one comes before the other unless the rest of the keys cannot tell either.
keys_total_up :
    (a b : ℤ) (ab ba : Bool) {P : Type 0}
    → (ab ≡ false → ba ≡ false → P)
    → by_key (lt_z a b) (eq_z a b) ab ≡ false
    → by_key (lt_z b a) (eq_z b a) ba ≡ false
    → P
keys_total_up a b ab ba r p q = r (ground arith) (ground arith)

keys_total_down :
    (a b : ℤ) (ab ba : Bool) {P : Type 0}
    → (ab ≡ false → ba ≡ false → P)
    → by_key (lt_z b a) (eq_z a b) ab ≡ false
    → by_key (lt_z a b) (eq_z b a) ba ≡ false
    → P
keys_total_down a b ab ba r p q = r (ground arith) (ground arith)

keys_total_last :
    (a b i j : ℕ)
    → by_key (ltb a b) (eqb a b) (ltb i j) ≡ false
    → by_key (ltb b a) (eqb b a) (ltb j i) ≡ false
    → i ≡ j
keys_total_last a b i j p q = ground arith

module _ {ℓ} {D : Type ℓ} where
  pub better_rule_trans :
      (a b c : PriceRuleRow D)
      → better_rule a b ≡ false
      → better_rule b c ≡ false
      → better_rule a c ≡ false
  unfolding better_rule
  better_rule_trans a b c = keys_trans_down a.priority b.priority c.priority _ _ _ (
      keys_trans_up a.sort_order b.sort_order c.sort_order _ _ _
        (keys_trans_last a.created_at b.created_at c.created_at a.id b.id c.id))

  pub better_rule-total :
      (a b : PriceRuleRow D) → better_rule a b ≡ false → better_rule b a ≡ false → a.id ≡ b.id
  unfolding better_rule
  better_rule-total a b = keys_total_down a.priority b.priority _ _ (
      keys_total_up a.sort_order b.sort_order _ _
        (keys_total_last a.created_at b.created_at a.id b.id))

  -- A rule that takes another's place is not replaced by it.
  pub better_rule-asym : (a b : PriceRuleRow D) → better_rule a b ≡ true → better_rule b a ≡ false
  unfolding better_rule
  better_rule-asym a b h = ground arith

  pub better_rule_irrefl : (a : PriceRuleRow D) → better_rule a a ≡ false
  unfolding better_rule
  better_rule_irrefl a = ground arith
