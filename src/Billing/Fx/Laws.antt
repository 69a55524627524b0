-- ===== src/Billing/Fx/Laws.antt =====
-- src/billing/fx.rs: manual rates come first, and no stale rate is used.
use nextapi.Base.{
  ℕ, String, Bool, true, false, ◌&&◌, not, Option, none, some, List, [], ◌∷◌, any, if◌then◌else◌,
  ◌≡◌, refl, sym, ap, ◌∙◌, inl, inr, ◌==◌, lookup, lookup-insert, String_eq, pair_eq, Bool-cases,
  arith, subst, is_text,
}
use nextapi.Entities.{Time}
use nextapi.Billing.Decimal.{Decimals}
use nextapi.Billing.Fx.{
  FxRate, FxRateRow, FxSet, is_allowed, pair_of, rate_of, takes_place, add_row, direct_rates,
  add_inverse, add_inverses, inverse_of, build_fx_set, is_absent,
}

is_allowed-manual :
    (source : String) (at : Option Time) (now : Time) (stale_max : ℕ)
    → is_text source "manual" ≡ true
    → is_allowed source at now stale_max ≡ true
unfolding is_allowed
is_allowed-manual source none now stale_max h = h
is_allowed-manual source (some ts) now stale_max h = rw h refl

module _ {ℓ} {D : Type ℓ} where
  -- A manual rate that was given for these currencies.
  unfoldable pub is_manual : Option (FxRate D) → Bool
  is_manual none = false
  is_manual (some r) = is_text r.source "manual" && not r.inverse

  unfoldable pub sets : (String × String) → FxRateRow D → Bool
  sets pair row = is_text row.source "manual" && (pair_of row == pair)

  -- No inverse among the direct rates.
  abbrev is_direct : Option (FxRate D) → Bool
  is_direct none = true
  is_direct (some r) = not r.inverse

  same_rate :
      (k pair : String × String) (t : FxSet D) → (k == pair) ≡ true → lookup k t ≡ lookup pair t
  same_rate k pair t e = ap (λ x. lookup x t) ((pair_eq.test_iff k pair).0 e)

  lookup-add_row :
      (now : Time) (stale_max : ℕ) (row : FxRateRow D) (direct : FxSet D) (pair : String × String)
      → lookup pair (add_row now stale_max row direct) ≡ (
          if is_allowed row.source row.fetched_at now stale_max
            && takes_place row (lookup (pair_of row) direct)
          then (if pair_of row == pair then some (rate_of row) else lookup pair direct)
          else lookup pair direct)
  unfolding add_row
  lookup-add_row now stale_max row direct pair =
      elim (Bool-cases (
        is_allowed row.source row.fetched_at now stale_max
        && takes_place row (lookup (pair_of row) direct))) [
          | inl e ↦ rw e (lookup-insert (pair_of row) pair (rate_of row) direct)
          | inr e ↦ rw e refl
        ]

  -- What a key holds after a row, from what it held: by the three tests.
  keeps_step :
      (row : FxRateRow D) (a q : Bool) (held o : Option (FxRate D))
      → (q ≡ true → held ≡ o)
      → is_manual o ≡ true
      → is_manual (if a && takes_place row held then (if q then some (rate_of row) else o) else o)
        ≡ true
  unfolding is_manual
  keeps_step row a false held o e h = elim (Bool-cases (a && takes_place row held)) [
    | inl t ↦ rw t h
    | inr t ↦ rw t h
  ]
  keeps_step row false true held o e h = h
  keeps_step row true true none o e h =
      let f : is_manual none ≡ true = subst (λ x. is_manual x ≡ true) (sym (e refl)) h in
      ground (arith, f)
  keeps_step row true true (some r) o e h =
      elim (Bool-cases (is_text row.source "manual" && not (is_text r.source "manual"))) [
        | inl t ↦ rw t (ground (arith, t))
        | inr t ↦ rw t h
      ]

  sets_step :
      (row : FxRateRow D) (a q : Bool) (held o : Option (FxRate D))
      → a ≡ true
      → q ≡ true
      → held ≡ o
      → is_text row.source "manual" ≡ true
      → is_direct o ≡ true
      → is_manual (if a && takes_place row held then (if q then some (rate_of row) else o) else o)
        ≡ true
  unfolding is_manual
  sets_step row false q held o h k e m d = ground (arith, h)
  sets_step row true false held o h k e m d = ground (arith, k)
  sets_step row true true held none h k e m d = rw (e, m) refl
  sets_step row true true held (some r) h k e m d =
      rw e (elim (Bool-cases (is_text r.source "manual")) [
        | inl t ↦ rw (m, t) (rw t d)
        | inr t ↦ rw (m, t) (rw m refl)
      ])

  direct_step :
      (row : FxRateRow D) (b q : Bool) (o : Option (FxRate D))
      → is_direct o ≡ true
      → is_direct (if b then (if q then some (rate_of row) else o) else o) ≡ true
  direct_step row false q o h = h
  direct_step row true false o h = h
  direct_step row true true o h = refl

  add_row-manual :
      (now : Time) (stale_max : ℕ) (row : FxRateRow D) (direct : FxSet D) (pair : String × String)
      → is_manual (lookup pair direct) ≡ true
      → is_manual (lookup pair (add_row now stale_max row direct)) ≡ true
  add_row-manual now stale_max row direct pair h =
      ap is_manual (lookup-add_row now stale_max row direct pair)
      ∙ keeps_step row (is_allowed row.source row.fetched_at now stale_max) (pair_of row == pair)
          (lookup (pair_of row) direct) (lookup pair direct) (same_rate (pair_of row) pair direct) h

  add_row-sets :
      (now : Time) (stale_max : ℕ) (row : FxRateRow D) (direct : FxSet D) (pair : String × String)
      → sets pair row ≡ true
      → is_direct (lookup pair direct) ≡ true
      → is_manual (lookup pair (add_row now stale_max row direct)) ≡ true
  unfolding sets
  add_row-sets now stale_max row direct pair h d =
      let m : is_text row.source "manual" ≡ true = ground (arith, h) in
      let q : (pair_of row == pair) ≡ true = ground (arith, h) in
      ap is_manual (lookup-add_row now stale_max row direct pair)
      ∙ sets_step row (is_allowed row.source row.fetched_at now stale_max) (pair_of row == pair)
          (lookup (pair_of row) direct) (lookup pair direct)
          (is_allowed-manual row.source row.fetched_at now stale_max m) q
          (same_rate (pair_of row) pair direct q) m d

  add_row-direct :
      (now : Time) (stale_max : ℕ) (row : FxRateRow D) (direct : FxSet D) (pair : String × String)
      → is_direct (lookup pair direct) ≡ true
      → is_direct (lookup pair (add_row now stale_max row direct)) ≡ true
  add_row-direct now stale_max row direct pair h =
      ap is_direct (lookup-add_row now stale_max row direct pair)
      ∙ direct_step row _ (pair_of row == pair) (lookup pair direct) h

  direct_rates-keeps :
      (now : Time) (stale_max : ℕ) (rows : List (FxRateRow D)) (direct : FxSet D)
      (pair : String × String)
      → is_manual (lookup pair direct) ≡ true
      → is_manual (lookup pair (direct_rates now stale_max rows direct)) ≡ true
  unfolding direct_rates
  direct_rates-keeps now stale_max [] direct pair h = h
  direct_rates-keeps now stale_max (row ∷ rows) direct pair h =
      direct_rates-keeps now stale_max rows (add_row now stale_max row direct) pair
        (add_row-manual now stale_max row direct pair h)

  direct_rates-manual :
      (now : Time) (stale_max : ℕ) (rows : List (FxRateRow D)) (direct : FxSet D)
      (pair : String × String)
      → is_direct (lookup pair direct) ≡ true
      → any (sets pair) rows ≡ true
      → is_manual (lookup pair (direct_rates now stale_max rows direct)) ≡ true
  unfolding direct_rates
  direct_rates-manual now stale_max [] direct pair d h = ground (arith, h)
  direct_rates-manual now stale_max (row ∷ rows) direct pair d h =
      elim (Bool-cases (sets pair row)) [
        | inl e ↦
            direct_rates-keeps now stale_max rows (add_row now stale_max row direct) pair
              (add_row-sets now stale_max row direct pair e d)
        | inr e ↦
            direct_rates-manual now stale_max rows (add_row now stale_max row direct) pair
              (add_row-direct now stale_max row direct pair d) (ground (arith, h, e))
      ]

  -- What is there is not absent, so no inverse takes its place.
  inverse_step :
      (q : Bool) (held o : Option (FxRate D)) (v : FxRate D)
      → (q ≡ true → held ≡ o)
      → is_absent held ≡ true
      → is_manual o ≡ true
      → is_manual (if q then some v else o) ≡ true
  unfolding is_manual
  inverse_step false held o v e a h = h
  inverse_step true none o v e a h =
      let f : is_manual none ≡ true = subst (λ x. is_manual x ≡ true) (sym (e refl)) h in
      ground (arith, f)
  inverse_step true (some r) o v e a h = ground (arith, a)

  module _ (num : Decimals D) where
    add_inverse-keeps :
        (k : String × String) (v : FxRate D) (map : FxSet D) (pair : String × String)
        → is_manual (lookup pair map) ≡ true
        → is_manual (lookup pair (add_inverse num k v map)) ≡ true
    unfolding add_inverse is_manual
    add_inverse-keeps (from, to) v map pair h =
        elim (Bool-cases (is_absent (lookup (to, from) map) && not (num.is_zero v.rate))) [
          | inl e ↦ rw e (
              ap is_manual (lookup-insert (to, from) pair (inverse_of num v) map)
              ∙ inverse_step ((to, from) == pair) (lookup (to, from) map) (lookup pair map)
                  (inverse_of num v) (same_rate (to, from) pair map) (ground (arith, e)) h)
          | inr e ↦ rw e h
        ]

    add_inverses-keeps :
        (rest map : FxSet D) (pair : String × String)
        → is_manual (lookup pair map) ≡ true
        → is_manual (lookup pair (add_inverses num rest map)) ≡ true
    unfolding add_inverses
    add_inverses-keeps [] map pair h = h
    add_inverses-keeps ((k, v) ∷ rest) map pair h =
        add_inverses-keeps rest (add_inverse num k v map) pair (add_inverse-keeps k v map pair h)

    -- If a rate between two currencies was set by hand, the rate that is used between them is one set by hand and
    -- not an inverse, whatever the other rows and their order.
    pub build_fx_set-manual :
        (rows : List (FxRateRow D)) (now : Time) (stale_max : ℕ) (pair : String × String)
        → any (sets pair) rows ≡ true
        → is_manual (lookup pair (build_fx_set num rows now stale_max)) ≡ true
    unfolding build_fx_set lookup
    build_fx_set-manual rows now stale_max pair h =
        let direct = direct_rates now stale_max rows [] in
        add_inverses-keeps direct direct pair
          (direct_rates-manual now stale_max rows [] pair refl h)
