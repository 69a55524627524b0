-- ===== src/Billing/Price/Best.antt =====
-- src/billing/mod.rs: which rule of a currency the loop over the candidates keeps.
use nextapi.Base.{
  String, Bool, true, false, not, Option, none, some, List, [], ◌∷◌, if◌then◌else◌, ◌≡◌, refl, sym,
  ap, ◌∙◌, ◌⊎◌, inl, inr, ◌==◌, lookup, insert, lookup-insert, String_eq, Bool-cases, arith, subst,
  Table,
}
use nextapi.Entities.{Uuid}
use nextapi.Billing.Rule.{PriceRuleRow, better_rule}
use nextapi.Billing.Rule.Order.{
  better_rule_trans, better_rule-total, better_rule-asym, better_rule_irrefl,
}
use nextapi.Billing.Price.{keep_better, best_from, best_by_cur}

-- The element stands in the list.
abbrev pub In : {A : Type 0} → A → List A → Type 0
In x [] = ⊥
In x (y ∷ ys) = (x ≡ y) ⊎ In x ys

abbrev pub id_of : {D : Type 0} → Option (PriceRuleRow D) → Option Uuid
id_of none = none
id_of (some r) = some r.id

not-false : (b : Bool) → not b ≡ true → b ≡ false
not-false b h = ground arith

module _ {D : Type 0} where
  abbrev better_of : PriceRuleRow D → Option (PriceRuleRow D) → PriceRuleRow D
  better_of r none = r
  better_of r (some b) = if better_rule r b then r else b

  -- The loop seen from one currency.
  abbrev best_of :
      String → List (PriceRuleRow D) → Option (PriceRuleRow D) → Option (PriceRuleRow D)
  best_of cur [] o = o
  best_of cur (r ∷ rs) o = best_of cur rs (if r.currency == cur then some (better_of r o) else o)

  same_key :
      (k cur : String) (t : Table String (PriceRuleRow D))
      → (k == cur) ≡ true
      → lookup k t ≡ lookup cur t
  same_key k cur t e = ap (λ x. lookup x t) ((String_eq.test_iff k cur).0 e)

  keep_step :
      (cur k : String) (r : PriceRuleRow D) (t : Table String (PriceRuleRow D))
      (o : Option (PriceRuleRow D))
      → lookup k t ≡ o
      → lookup cur
          (elim o [ none ↦ insert k r t | some b ↦ if better_rule r b then insert k r t else t ])
        ≡ (if k == cur then some (better_of r o) else lookup cur t)
  keep_step cur k r t none h = lookup-insert k cur r t
  keep_step cur k r t (some b) h = elim (Bool-cases (better_rule r b)) [
    | inl e ↦ rw e (lookup-insert k cur r t)
    | inr e ↦ rw e (elim (Bool-cases (k == cur)) [
      | inl q ↦ rw q (sym (same_key k cur t q) ∙ h)
      | inr q ↦ rw q refl
    ])
  ]

  lookup-keep_better :
      (cur : String) (r : PriceRuleRow D) (t : Table String (PriceRuleRow D))
      → lookup cur (keep_better r t)
        ≡ (if r.currency == cur then some (better_of r (lookup cur t)) else lookup cur t)
  unfolding keep_better
  lookup-keep_better cur r t =
      keep_step cur r.currency r t (lookup r.currency t) refl
      ∙ elim (Bool-cases (r.currency == cur)) [
        | inl q ↦ rw q (ap (λ o. some (better_of r o)) (same_key r.currency cur t q))
        | inr q ↦ rw q refl
      ]

  lookup-best_from :
      (cur : String) (cs : List (PriceRuleRow D)) (t : Table String (PriceRuleRow D))
      → lookup cur (best_from cs t) ≡ best_of cur cs (lookup cur t)
  unfolding best_from
  lookup-best_from cur [] t = refl
  lookup-best_from cur (r ∷ rs) t =
      lookup-best_from cur rs (keep_better r t)
      ∙ ap (λ o. best_of cur rs o) (lookup-keep_better cur r t)

  -- No better rule than what is held.
  abbrev unbeaten : PriceRuleRow D → Option (PriceRuleRow D) → Bool
  unbeaten c none = false
  unbeaten c (some b) = not (better_rule c b)

  unbeaten-better_of :
      (c r : PriceRuleRow D) (o : Option (PriceRuleRow D))
      → unbeaten c o ≡ true
      → unbeaten c (some (better_of r o)) ≡ true
  unbeaten-better_of c r none h = ground (arith, h)
  unbeaten-better_of c r (some b) h = elim (Bool-cases (better_rule r b)) [
    | inl e ↦
        rw e (
          ap not (better_rule_trans c b r (not-false (better_rule c b) h) (better_rule-asym r b e)))
    | inr e ↦ rw e h
  ]

  unbeaten_self :
      (r : PriceRuleRow D) (o : Option (PriceRuleRow D)) → unbeaten r (some (better_of r o)) ≡ true
  unbeaten_self r none = ap not (better_rule_irrefl r)
  unbeaten_self r (some b) = elim (Bool-cases (better_rule r b)) [
    | inl e ↦ rw e (ap not (better_rule_irrefl r))
    | inr e ↦ rw (e, e) refl
  ]

  unbeaten-best_of :
      (cur : String) (c : PriceRuleRow D) (cs : List (PriceRuleRow D)) (o : Option (PriceRuleRow D))
      → unbeaten c o ≡ true
      → unbeaten c (best_of cur cs o) ≡ true
  unbeaten-best_of cur c [] o h = h
  unbeaten-best_of cur c (r ∷ rs) o h = elim (Bool-cases (r.currency == cur)) [
    | inl e ↦ rw e (unbeaten-best_of cur c rs (some (better_of r o)) (unbeaten-better_of c r o h))
    | inr e ↦ rw e (unbeaten-best_of cur c rs o h)
  ]

  -- Every rule of the currency was considered.
  considered :
      (cur : String) (c : PriceRuleRow D) (cs : List (PriceRuleRow D)) (o : Option (PriceRuleRow D))
      → In c cs
      → (c.currency == cur) ≡ true
      → unbeaten c (best_of cur cs o) ≡ true
  considered cur c [] o i q = elim i [ ]
  considered cur c (r ∷ rs) o (inl e) q =
      let held : (r.currency == cur) ≡ true = subst (λ x. (x.currency == cur) ≡ true) e q in
      rw held (
        unbeaten-best_of cur c rs (some (better_of r o))
          (subst (λ x. unbeaten x (some (better_of r o)) ≡ true) (sym e) (unbeaten_self r o)))
  considered cur c (r ∷ rs) o (inr i) q =
      considered cur c rs (if r.currency == cur then some (better_of r o) else o) i q

  -- What is held is a rule of the list, of the currency.
  abbrev Sound : String → List (PriceRuleRow D) → Option (PriceRuleRow D) → Type 0
  Sound cur cs none = Unit
  Sound cur cs (some b) = In b cs × ((b.currency == cur) ≡ true)

  Sound-better_of :
      (cur : String) (cs : List (PriceRuleRow D)) (r : PriceRuleRow D) (o : Option (PriceRuleRow D))
      → In r cs
      → (r.currency == cur) ≡ true
      → Sound cur cs o
      → Sound cur cs (some (better_of r o))
  Sound-better_of cur cs r none i q h = (i, q)
  Sound-better_of cur cs r (some b) i q h = elim (Bool-cases (better_rule r b)) [
    | inl e ↦ rw e (i, q)
    | inr e ↦ rw e h
  ]

  best_of-Sound :
      (cur : String) (all rs : List (PriceRuleRow D)) (o : Option (PriceRuleRow D))
      → ((r : PriceRuleRow D) → In r rs → In r all)
      → Sound cur all o
      → Sound cur all (best_of cur rs o)
  best_of-Sound cur all [] o k h = h
  best_of-Sound cur all (r ∷ rs) o k h = elim (Bool-cases (r.currency == cur)) [
    | inl e ↦ rw e (
        best_of-Sound cur all rs (some (better_of r o)) (λ x i. k x (inr i))
          (Sound-better_of cur all r o (k r (inl refl)) e h))
    | inr e ↦ rw e (best_of-Sound cur all rs o (λ x i. k x (inr i)) h)
  ]

  -- Two choices from the same rules.
  same_choice :
      (cur : String) (cs ds : List (PriceRuleRow D)) (a b : Option (PriceRuleRow D))
      → ((r : PriceRuleRow D) → In r cs → In r ds)
      → ((r : PriceRuleRow D) → In r ds → In r cs)
      → Sound cur cs a
      → Sound cur ds b
      → ((c : PriceRuleRow D) → In c cs → (c.currency == cur) ≡ true → unbeaten c a ≡ true)
      → ((c : PriceRuleRow D) → In c ds → (c.currency == cur) ≡ true → unbeaten c b ≡ true)
      → id_of a ≡ id_of b
  same_choice cur cs ds none none f g s t u v = refl
  same_choice cur cs ds none (some r) f g s (i, q) u v = ground (arith, u r (g r i) q)
  same_choice cur cs ds (some r) none f g (i, q) t u v = ground (arith, v r (f r i) q)
  same_choice cur cs ds (some r) (some b) f g (i, q) (j, p) u v = ap some (
      better_rule-total r b (not-false (better_rule r b) (v r (f r i) q))
        (not-false (better_rule b r) (u b (g b j) p)))

  -- The rule that is chosen for a currency does not depend on the order in which the rules are read: two lists with
  -- the same rules give the same choice.
  pub best_by_cur-choice :
      (cur : String) (cs ds : List (PriceRuleRow D))
      → ((r : PriceRuleRow D) → In r cs → In r ds)
      → ((r : PriceRuleRow D) → In r ds → In r cs)
      → id_of (lookup cur (best_by_cur cs)) ≡ id_of (lookup cur (best_by_cur ds))
  unfolding lookup
  best_by_cur-choice cur cs ds f g =
      ap id_of (lookup-best_from cur cs [])
      ∙ same_choice cur cs ds (best_of cur cs none) (best_of cur ds none) f g
          (best_of-Sound cur cs cs none (λ r i. i) tt) (best_of-Sound cur ds ds none (λ r i. i) tt)
          (λ c i q. considered cur c cs none i q) (λ c i q. considered cur c ds none i q)
      ∙ sym (ap id_of (lookup-best_from cur ds []))
