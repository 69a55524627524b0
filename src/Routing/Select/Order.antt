-- ===== src/Routing/Select/Order.antt =====
-- `match_routes` against what it promises: the enabled routes that match, in a stable order.
use nextapi.Base.{
  ℤ, eq_z, pos_part, neg_part, ◌+◌, ◌<◌, ◌≤◌, ◌≡◌, ◌⊎◌, refl, ◌∙◌, String, Bool, true, false, ◌&&◌,
  List, [], ◌∷◌, All, filter, arith, codes, filter-sort_by, sort_by-IsSorted, sort_by, insert_by,
  IsSorted, ltb, inl, inr, Bool-cases,
}
use nextapi.Entities.{ModelRouteRow}
use nextapi.Routing.Pattern.{pattern_matches}
use nextapi.Routing.Pattern.Glob.{Matches}
use nextapi.Routing.Pattern.Correct.{pattern_matches-Matches}
use nextapi.Routing.Select.{route_le, serves, match_routes}

-- The orders of the integers, by `a + d ≤ c + b` for `a - b ≤ c - d`.
abbrev AtMost : ℤ → ℤ → Type 0
AtMost a b = pos_part a + neg_part b ≤ pos_part b + neg_part a

abbrev Below : ℤ → ℤ → Type 0
Below a b = pos_part a + neg_part b < pos_part b + neg_part a

-- A route may stand in front of another: its priority is smaller, or the same and its sort order is no larger.
abbrev pub Before : ModelRouteRow → ModelRouteRow → Type 0
Before a b =
    Below a.priority b.priority ⊎ (AtMost a.priority b.priority × AtMost a.sort_order b.sort_order)

-- Every route may stand in front of all behind it.
abbrev pub Ordered : List ModelRouteRow → Type 0
Ordered [] = Unit
Ordered (r ∷ rs) = All (Before r) rs × Ordered rs

-- A route with this priority and this sort order.
unfoldable pub ranked : ℤ → ℤ → ModelRouteRow → Bool
ranked priority sort_order r = eq_z r.priority priority && eq_z r.sort_order sort_order

route_le-total : (a b : ModelRouteRow) → route_le a b ≡ false → route_le b a ≡ true
unfolding route_le
route_le-total a b h = ground arith

route_le_trans :
    (a b c : ModelRouteRow) → route_le a b ≡ true → route_le b c ≡ true → route_le a c ≡ true
unfolding route_le
route_le_trans a b c h k = ground arith

route_le-Before : (a b : ModelRouteRow) → route_le a b ≡ true → Before a b
unfolding route_le
route_le-Before a b h =
    elim (Bool-cases (
      ltb (pos_part a.priority + neg_part b.priority)
        (pos_part b.priority + neg_part a.priority))) [
          | inl t ↦ inl (ground arith)
          | inr t ↦ inr (ground arith, ground arith)
        ]

All-Before :
    (r : ModelRouteRow) (rs : List ModelRouteRow)
    → All (λ q. route_le r q ≡ true) rs
    → All (Before r) rs
All-Before r [] h = tt
All-Before r (q ∷ rs) (h, hs) = (route_le-Before r q h, All-Before r rs hs)

IsSorted-Ordered : (rs : List ModelRouteRow) → IsSorted route_le rs → Ordered rs
IsSorted-Ordered [] h = tt
IsSorted-Ordered (r ∷ rs) (h, hs) = (All-Before r rs h, IsSorted-Ordered rs hs)

ranked-alike :
    (p o : ℤ) (a b : ModelRouteRow)
    → ranked p o a ≡ true
    → ranked p o b ≡ true
    → route_le a b ≡ true
unfolding route_le ranked
ranked-alike p o a b h k = ground arith

filter-filter :
    (p q : ModelRouteRow → Bool) (rs : List ModelRouteRow)
    → filter p (filter q rs) ≡ filter (λ r. q r && p r) rs
filter-filter p q [] = refl
filter-filter p q (r ∷ rs) = ground (arith, filter-filter p q rs)

-- What is asked of a route: it is on, and its pattern matches the model as patterns are defined.
abbrev pub Serves : String → ModelRouteRow → Type 0
Serves model r = (r.enabled ≡ true) × Matches (codes r.model_pattern) (codes model)

serves-Serves : (model : String) (r : ModelRouteRow) → serves model r ≡ true → Serves model r
unfolding serves
serves-Serves model r h =
    (ground (arith, h), (pattern_matches-Matches r.model_pattern model).0 (ground (arith, h)))

All-filter :
    (model : String) (rs : List ModelRouteRow) → All (Serves model) (filter (serves model) rs)
All-filter model [] = tt
All-filter model (r ∷ rs) = elim (Bool-cases (serves model r)) [
  | inl t ↦ rw t (serves-Serves model r t, All-filter model rs)
  | inr t ↦ rw t (All-filter model rs)
]

All-insert_by :
    (model : String) (r : ModelRouteRow) (rs : List ModelRouteRow)
    → Serves model r
    → All (Serves model) rs
    → All (Serves model) (insert_by route_le r rs)
unfolding insert_by
All-insert_by model r [] h hs = (h, tt)
All-insert_by model r (q ∷ rs) h (k, hs) = elim (Bool-cases (route_le r q)) [
  | inl t ↦ rw t (h, (k, hs))
  | inr t ↦ rw t (k, All-insert_by model r rs h hs)
]

All-sort_by :
    (model : String) (rs : List ModelRouteRow)
    → All (Serves model) rs
    → All (Serves model) (sort_by route_le rs)
unfolding sort_by
All-sort_by model [] hs = tt
All-sort_by model (r ∷ rs) (h, hs) =
    All-insert_by model r (sort_by route_le rs) h (All-sort_by model rs hs)

-- The routes for a model stand by rising priority, those of one priority by rising sort order; each is on and has a
-- pattern that matches the model by the definition of matching; and those of any one priority and sort order are the
-- routes of the table with these that are on and pass the test of patterns, all of them and in the order of the table.
pub match_routes_lem :
    (model : String) (routes : List ModelRouteRow)
    → Ordered (match_routes model routes)
      × All (Serves model) (match_routes model routes)
      × ((priority sort_order : ℤ)
          → filter (ranked priority sort_order) (match_routes model routes)
            ≡ filter
                (λ r.
                  (r.enabled && pattern_matches r.model_pattern model)
                  && ranked priority sort_order r)
                routes)
unfolding match_routes serves
match_routes_lem model routes = (
  IsSorted-Ordered (match_routes model routes)
      (sort_by-IsSorted route_le route_le-total route_le_trans (filter (serves model) routes)),
  All-sort_by model (filter (serves model) routes) (All-filter model routes),
  λ p o.
      filter-sort_by route_le (ranked p o) (ranked-alike p o) (filter (serves model) routes)
      ∙ filter-filter (ranked p o) (serves model) routes,
)
