-- ===== src/Routing/Select/Pick.antt =====
-- `weighted_pick`: the share of each route in the draws.
use nextapi.Base.{
  ℕ, ◌+◌, ◌-◌, ◌≤◌, ◌<◌, ◌≡◌, refl, sym, inl, inr, false, some, List, [], ◌∷◌, ◌++◌, ltb, arith,
  Bool-cases, count, ◌==◌, ℕ_eq, eq_self, Option-cases, subst,
}
use nextapi.Entities.{ModelRouteRow}
use nextapi.Routing.Select.{weight_of, sum_weights, walk, weighted_pick, last}

pub weight_of-positive : (r : ModelRouteRow) → 1 ≤ weight_of r
unfolding weight_of
weight_of-positive r = ground arith

sum_weights-append :
    (xs ys : List ModelRouteRow) → sum_weights (xs ++ ys) ≡ sum_weights xs + sum_weights ys
unfolding sum_weights
sum_weights-append [] ys = omega arith
sum_weights-append (x ∷ xs) ys = omega (arith, sum_weights-append xs ys)

walk-append :
    (before : List ModelRouteRow) (r : ModelRouteRow) (after : List ModelRouteRow) (draw : ℕ)
    → sum_weights before ≤ draw
    → draw < sum_weights before + weight_of r
    → walk draw (before ++ r ∷ after) ≡ some r
unfolding walk sum_weights
walk-append [] r after draw h k = ground arith
walk-append (q ∷ qs) r after draw h k = ground (arith, walk-append qs r after (draw - weight_of q))

weighted_pick-walk :
    (random : ℕ → ℕ) (rs : List ModelRouteRow) (r : ModelRouteRow)
    → walk (random (sum_weights rs)) rs ≡ some r
    → weighted_pick random rs ≡ some r
unfolding weighted_pick
weighted_pick-walk random [] r h = h
weighted_pick-walk random (q ∷ qs) r h = rw (h, weighted_pick) refl

-- If the draw lies in the interval of a route, which begins where the weights before it end and is as long as its
-- weight, that route is picked: of all draws below the total, as many give the route as its weight says.
pub weighted_pick_lem :
    (random : ℕ → ℕ) (before : List ModelRouteRow) (r : ModelRouteRow) (after : List ModelRouteRow)
    → sum_weights before ≤ random (sum_weights (before ++ r ∷ after))
    → random (sum_weights (before ++ r ∷ after)) < sum_weights before + weight_of r
    → weighted_pick random (before ++ r ∷ after) ≡ some r
weighted_pick_lem random before r after h k =
    weighted_pick-walk random (before ++ r ∷ after) r
      (walk-append before r after (random (sum_weights (before ++ r ∷ after))) h k)

-- Where a draw lies.
pub data Found (draw : ℕ) (rs : List ModelRouteRow) : Type 0 where
  found :
      (before : List ModelRouteRow) (r : ModelRouteRow) (after : List ModelRouteRow)
      → rs ≡ before ++ r ∷ after
      → sum_weights before ≤ draw
      → draw < sum_weights before + weight_of r
      → Found draw rs

shift :
    (q : ModelRouteRow) (rs : List ModelRouteRow) (draw : ℕ)
    → ltb draw (weight_of q) ≡ false
    → Found (draw - weight_of q) rs
    → Found draw (q ∷ rs)
unfolding sum_weights
shift q rs draw e (found before r after p h k) =
    found (q ∷ before) r after (rw p refl) (ground arith) (ground arith)

pub locate : (draw : ℕ) (rs : List ModelRouteRow) → draw < sum_weights rs → Found draw rs
unfolding sum_weights
locate draw [] h = absurd (omega arith)
locate draw (r ∷ rs) h = elim (Bool-cases (ltb draw (weight_of r))) [
  | inl e ↦ found [] r rs refl (omega arith) (ground arith)
  | inr e ↦ shift r rs draw e (locate (draw - weight_of r) rs (ground arith))
]

-- A draw below the total picks a route of the list.
pub weighted_pick-member :
    (random : ℕ → ℕ) (rs : List ModelRouteRow)
    → random (sum_weights rs) < sum_weights rs
    → (before : List ModelRouteRow) × ((r : ModelRouteRow) × ((after : List ModelRouteRow) × (rs
            ≡ before ++ r ∷ after)
          × (weighted_pick random rs ≡ some r)))
weighted_pick-member random rs h = elim (locate (random (sum_weights rs)) rs h) [
  | found before r after e l k ↦ (
    before,
    (
      r,
      (
        after,
        e,
        weighted_pick-walk random rs r (
            subst (λ xs. walk (random (sum_weights rs)) xs ≡ some r) (sym e)
              (walk-append before r after (random (sum_weights rs)) l k)),
      ),
    ),
  )
]

walk-member :
    (draw : ℕ) (rs : List ModelRouteRow) (r : ModelRouteRow)
    → walk draw rs ≡ some r
    → 1 ≤ count (λ q. q.id == r.id) rs
unfolding walk
walk-member draw [] r h = cc
walk-member draw (q ∷ rs) r h = elim (Bool-cases (ltb draw (weight_of q))) [
  | inl e ↦ let i : q.id ≡ r.id = ground (arith, e) in rw (i, eq_self r.id) (omega arith)
  | inr e ↦ let ih = walk-member (draw - weight_of q) rs r (ground (arith, e)) in omega arith
]

last-member :
    (q : ModelRouteRow) (qs : List ModelRouteRow)
    → (r : ModelRouteRow) × (last (q ∷ qs) ≡ some r) × (1 ≤ count (λ x. x.id == r.id) (q ∷ qs))
last-member q [] = (q, refl, rw (eq_self q.id) (omega arith))
last-member q (x ∷ qs) = let (r, e, h) = last-member x qs in (r, e, omega arith)

-- A list with a route always gives one of its routes, whatever is drawn.
pub weighted_pick-some :
    (random : ℕ → ℕ) (q : ModelRouteRow) (qs : List ModelRouteRow)
    → (r : ModelRouteRow) × (weighted_pick random (q ∷ qs) ≡ some r)
      × (1 ≤ count (λ x. x.id == r.id) (q ∷ qs))
unfolding weighted_pick
weighted_pick-some random q qs =
    elim (Option-cases (walk (random (sum_weights (q ∷ qs))) (q ∷ qs))) [
      | inl e ↦ let (r, l, h) = last-member q qs in (r, rw (e, weighted_pick) l, h)
      | inr (r, e) ↦
          (r, rw (e, weighted_pick) refl, walk-member (random (sum_weights (q ∷ qs))) (q ∷ qs) r e)
    ]
