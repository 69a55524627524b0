-- ===== src/Routing/Select.antt =====
-- src/routing/mod.rs: `match_routes`, `weighted_pick` and the table of sticky upstreams.
pub mod Order
pub mod Pick
use nextapi.Base.{
  ℕ, zero, suc, ℤ, pos, negsuc, eq_z, le_z, lt_z, ◌+◌, ◌-◌, ◌*◌, String, Bool, true, false, ◌&&◌,
  ◌||◌, Option, none, some, List, [], ◌∷◌, map, ltb, if◌then◌else◌, filter, sort_by,
}
use nextapi.Entities.{ModelRouteRow}
use nextapi.Routing.Pattern.{pattern_matches}

-- `a.priority.cmp(&b.priority).then(a.sort_order.cmp(&b.sort_order))` is not `Greater`.
unfoldable pub route_le : ModelRouteRow → ModelRouteRow → Bool
route_le a b =
    lt_z a.priority b.priority || eq_z a.priority b.priority && le_z a.sort_order b.sort_order

unfoldable pub serves : String → ModelRouteRow → Bool
serves model r = r.enabled && pattern_matches r.model_pattern model

unfoldable pub match_routes : String → List ModelRouteRow → List ModelRouteRow
match_routes model routes = sort_by route_le (filter (serves model) routes)

unfoldable pub weight_of : ModelRouteRow → ℕ
weight_of r = elim r.weight [ pos zero ↦ 1 | pos (suc n) ↦ suc n | negsuc _ ↦ 1 ]

unfoldable pub sum_weights : List ModelRouteRow → ℕ
unfolding weight_of
sum_weights [] = 0
sum_weights (r ∷ rs) = weight_of r + sum_weights rs

abbrev pub last : List ModelRouteRow → Option ModelRouteRow
last [] = none
last (r ∷ []) = some r
last (r ∷ (q ∷ rs)) = last (q ∷ rs)

-- The loop; `none` when it runs through.
unfoldable pub walk : ℕ → List ModelRouteRow → Option ModelRouteRow
unfolding weight_of
walk draw [] = none
walk draw (r ∷ rs) =
    let rest = walk (draw - weight_of r) rs in if ltb draw (weight_of r) then some r else rest

-- `rng.random_range(0..total)` is `random total`.
unfoldable pub weighted_pick : (ℕ → ℕ) → List ModelRouteRow → Option ModelRouteRow
unfolding walk sum_weights
weighted_pick random [] = none
weighted_pick random (r ∷ rs) = elim (walk (random (sum_weights (r ∷ rs))) (r ∷ rs)) [
  | some q ↦ some q
  | none ↦ last (r ∷ rs)
]
