-- ===== src/Billing/Total/Both.antt =====
-- src/billing/mod.rs: a price has a total in both currencies, or in none.
use nextapi.Base.{
  String, Bool, true, false, ◌||◌, Option, none, some, List, [], ◌∷◌, any, ◌≡◌, refl, sym, ap, ◌∙◌,
  subst, inl, inr, Bool-cases, arith, is_text, text_eq, lookup, String_eq, pair_eq,
}
use nextapi.Base.Json.{Serde}
use nextapi.Billing.Decimal.{Decimals}
use nextapi.Billing.Rule.{PriceRuleRow, PricingInput, Readers, Local}
use nextapi.Billing.Fx.{FxSet, FxRate, convert}
use nextapi.Billing.Price.{PricedLine, lines_of, units}
use nextapi.Billing.Total.{
  Sums, no_sums, add_direct, add_converted, over_lines, sums, price_with_rules, if_obtained,
  into_cny, into_usd,
}

abbrev pub is_some {ℓ} : {A : Type ℓ} → Option A → Bool
is_some none = false
is_some (some a) = true

is_some-if_obtained {ℓ} : {A : Type ℓ} (b : Bool) (a : A) → is_some (if_obtained b a) ≡ b
is_some-if_obtained true a = refl
is_some-if_obtained false a = refl

-- No text is the name of both currencies.
usd_not_cny : (c : String) → is_text c "CNY" ≡ true → is_text c "USD" ≡ false
usd_not_cny c h = subst (λ x. is_text x "USD" ≡ false) (sym (text_eq c "CNY" h)) refl

module _ {ℓ} {D : Type ℓ} (num : Decimals D) where
  abbrev pub in_cny : PricedLine D → Bool
  in_cny l = is_text l.currency "CNY"

  abbrev pub in_usd : PricedLine D → Bool
  in_usd l = is_text l.currency "USD"

  abbrev pub in_either : PricedLine D → Bool
  in_either l = in_cny l || in_usd l

  -- Which totals there are.
  abbrev flags : Sums D → Bool × Bool
  flags s = (s.has_cny, s.has_usd)

  flags-add_direct :
      (l : PricedLine D) (s : Sums D)
      → flags (add_direct num l s) ≡ (s.has_cny || in_cny l, s.has_usd || in_usd l)
  unfolding add_direct
  flags-add_direct l s = elim (Bool-cases (is_text l.currency "CNY")) [
    | inl e ↦ rw (e, usd_not_cny l.currency e) (ground arith)
    | inr e ↦ elim (Bool-cases (is_text l.currency "USD")) [
      | inl u ↦ rw (e, u) (ground arith)
      | inr u ↦ rw (e, u) (ground arith)
    ]
  ]

  flags-into_cny :
      (o : Option (D × Option (FxRate D))) (s : Sums D)
      → is_some o ≡ true
      → flags (into_cny num o s) ≡ (true, s.has_usd)
  flags-into_cny none s h = ground (arith, h)
  flags-into_cny (some (v, r)) s h = refl

  flags-into_usd :
      (o : Option (D × Option (FxRate D))) (s : Sums D)
      → is_some o ≡ true
      → flags (into_usd num o s) ≡ (s.has_cny, true)
  flags-into_usd none s h = ground (arith, h)
  flags-into_usd (some (v, r)) s h = refl

  -- Between the two currencies there is always a rate: a given one or the built-in one.
  found_or :
      (o : Option (FxRate D)) (f : FxRate D → D × Option (FxRate D)) (d : D × Option (FxRate D))
      → is_some (elim o [ some r ↦ some (f r) | none ↦ some d ]) ≡ true
  found_or none f d = refl
  found_or (some r) f d = refl

  convert-usd : (set : FxSet D) (x : D) → is_some (convert num set "USD" "CNY" x) ≡ true
  unfolding convert
  convert-usd set x = found_or (lookup ("USD", "CNY") set) _ _

  convert-cny : (set : FxSet D) (x : D) → is_some (convert num set "CNY" "USD" x) ≡ true
  unfolding convert
  convert-cny set x = found_or (lookup ("CNY", "USD") set) _ _

  flags-add_converted :
      (set : FxSet D) (l : PricedLine D) (s : Sums D)
      → flags (add_converted num set l s) ≡ (s.has_cny || in_usd l, s.has_usd || in_cny l)
  unfolding add_converted
  flags-add_converted set l s = elim (Bool-cases (is_text l.currency "CNY")) [
    | inl e ↦
        rw (e, usd_not_cny l.currency e)
          (flags-into_usd (convert num set "CNY" "USD" l.cost) s (convert-cny set l.cost)
            ∙ ground arith)
    | inr e ↦ elim (Bool-cases (is_text l.currency "USD")) [
      | inl u ↦
          rw (e, u)
            (flags-into_cny (convert num set "USD" "CNY" l.cost) s (convert-usd set l.cost)
              ∙ ground arith)
      | inr u ↦ rw (e, u) (ground arith)
    ]
  ]

  -- A walk over the lines adds up what each line adds.
  flags-over_lines :
      (f : PricedLine D → Sums D → Sums D) (p q : PricedLine D → Bool)
      → ((l : PricedLine D) (s : Sums D) → flags (f l s) ≡ (s.has_cny || p l, s.has_usd || q l))
      → (ls : List (PricedLine D)) (s : Sums D)
      → flags (over_lines num f ls s) ≡ (s.has_cny || any p ls, s.has_usd || any q ls)
  unfolding over_lines
  flags-over_lines f p q g [] s = ground arith
  flags-over_lines f p q g (l ∷ ls) s =
      flags-over_lines f p q g ls (f l s)
      ∙ ap (λ b. (b.0 || any p ls, b.1 || any q ls)) (g l s)
      ∙ ground arith

  any-either : (ls : List (PricedLine D)) → any in_either ls ≡ any in_cny ls || any in_usd ls
  any-either [] = refl
  any-either (l ∷ ls) = ground (arith, any-either ls)

  flags-sums :
      (set : FxSet D) (ls : List (PricedLine D))
      → flags (sums num set ls) ≡ (any in_either ls, any in_either ls)
  unfolding sums
  flags-sums set ls =
      flags-over_lines (add_converted num set) in_usd in_cny (flags-add_converted set) ls
        (over_lines num (add_direct num) ls (no_sums num))
      ∙ ap (λ b. (b.0 || any in_usd ls, b.1 || any in_cny ls))
          (flags-over_lines (add_direct num) in_cny in_usd flags-add_direct ls (no_sums num))
      ∙ rw (any-either ls) (ground arith)

  -- A price has a total in yuan exactly if some line is in yuan or dollars, and a total in dollars under the same
  -- condition, whatever rates there are.
  pub price_with_rules-both :
      (serde : Serde) (readers : Readers D) (rules : List (PriceRuleRow D)) (set : FxSet D)
      (input : PricingInput D) (local : Local)
      → let r = price_with_rules num serde readers rules set input local in
        (is_some r.cost_cny ≡ any in_either r.lines) × (is_some r.cost_usd ≡ any in_either r.lines)
  unfolding price_with_rules
  price_with_rules-both serde readers rules set input local =
      let ls = lines_of num readers serde rules input local units in
      let s = sums num set ls in
      let e = flags-sums set ls in
      (
        is_some-if_obtained s.has_cny s.cny ∙ ap (λ b. b.0) e,
        is_some-if_obtained s.has_usd s.usd ∙ ap (λ b. b.1) e,
      )
