-- ===== src/Gateway/Candidates.antt =====
-- src/gateway.rs: `decide_mode`, `order_candidates`, `reorder_pinned_first`: from the routes of a model to the
-- list of attempts.
pub mod Grouped
pub mod Choice
use nextapi.Base.{
  ℕ, ℤ, lt_z, eq_z, le_z, Bool, true, false, not, ◌&&◌, ◌||◌, Option, none, some, List, [], ◌∷◌,
  ◌++◌, map, any, filter, if◌then◌else◌, ◌==◌, ℕ_eq, sort_by,
}
use nextapi.Entities.{Uuid, UpstreamRow, ModelRouteRow}
use nextapi.Protocol.{Protocol, Protocol_eq, protocol_list, protocol_priority, filter_map}
use nextapi.Routing.Select.{weighted_pick}

pub data Mode : Type 0 where
  passthrough : Mode
  convert : Protocol → Mode

pub record Candidate : Type 0 where
  pub route : ModelRouteRow
  pub upstream : UpstreamRow

pub record Attempt : Type 0 where
  pub candidate : Candidate
  pub mode : Mode

-- `list.contains(&p)`
abbrev pub contains : Protocol → List Protocol → Bool
contains p = any (λ q. q == p)

-- The first protocol of a list of preferences that the upstream supports.
unfoldable pub first_supported : List Protocol → List Protocol → Option Protocol
first_supported supported [] = none
first_supported supported (t ∷ ts) =
    let rest = first_supported supported ts in if contains t supported then some t else rest

unfoldable pub decide_mode : Protocol → UpstreamRow → Option Mode
unfolding first_supported
decide_mode entry up =
    if contains entry (protocol_list up)
    then some passthrough
    else elim (first_supported (protocol_list up) (protocol_priority up)) [
      | none ↦ none
      | some t ↦ some (convert t)
    ]

-- `groups.entry(c.route.priority).or_default().push(c)` on a map whose keys ascend.
unfoldable pub push : Candidate → List (ℤ × List Candidate) → List (ℤ × List Candidate)
push c [] = (c.route.priority, c ∷ []) ∷ []
push c ((p, g) ∷ gs) =
    let rest = push c gs in
    if lt_z c.route.priority p
    then (c.route.priority, c ∷ []) ∷ (p, g) ∷ gs
    else if eq_z c.route.priority p
    then (p, g ++ (c ∷ [])) ∷ gs
    else (p, g) ∷ rest

unfoldable pub grouped : List Candidate → List (ℤ × List Candidate) → List (ℤ × List Candidate)
unfolding push
grouped [] gs = gs
grouped (c ∷ cs) gs = grouped cs (push c gs)

-- `b.weight.cmp(&a.weight).then(a.sort_order.cmp(&b.sort_order))` is not `Greater`.
unfoldable pub heavier : Candidate → Candidate → Bool
heavier a b =
    lt_z b.route.weight a.route.weight
    || eq_z b.route.weight a.route.weight && le_z a.route.sort_order b.route.sort_order

abbrev pub has_route : Uuid → Candidate → Bool
has_route i c = c.route.id == i

unfoldable pub find : (Candidate → Bool) → List Candidate → Option Candidate
find p [] = none
find p (c ∷ cs) = let rest = find p cs in if p c then some c else rest

-- One group: the drawn candidate, then the others by weight.
unfoldable pub arrange : (ℕ → ℕ) → List Candidate → List Candidate
unfolding find heavier
arrange random group = elim (weighted_pick random (map (λ c. c.route) group)) [
  | none ↦ []
  | some primary ↦ elim (find (has_route primary.id) group) [
    | none ↦ []
    | some p ↦ p ∷ sort_by heavier (filter (λ c. not (has_route p.route.id c)) group)
  ]
]

-- Each group draws anew: `random` is given the group's priority.
unfoldable pub arrange_all : (ℤ → ℕ → ℕ) → List (ℤ × List Candidate) → List Candidate
unfolding arrange
arrange_all random [] = []
arrange_all random ((p, g) ∷ gs) = arrange (random p) g ++ arrange_all random gs

unfoldable pub order_candidates : (ℤ → ℕ → ℕ) → List Candidate → List Candidate
unfolding grouped arrange_all
order_candidates random cs = arrange_all random (grouped cs [])

unfoldable pub attempts_for : Protocol → List Candidate → List Attempt
unfolding decide_mode
attempts_for entry = filter_map (λ c. elim (decide_mode entry c.upstream) [
  | none ↦ none
  | some m ↦ some (record { candidate = c; mode = m })
])

-- The first attempt of a test is taken out: it, and what is left.
unfoldable pub take_out : (Attempt → Bool) → List Attempt → Option (Attempt × List Attempt)
take_out p [] = none
take_out p (a ∷ rest) =
    let later = take_out p rest in
    if p a then some (a, rest) else elim later [ none ↦ none | some (b, bs) ↦ some (b, a ∷ bs) ]

unfoldable pub reorder_pinned_first : Uuid → List Attempt → List Attempt
unfolding take_out
reorder_pinned_first pin [] = []
reorder_pinned_first pin (a ∷ rest) =
    let best = a.candidate.route.priority in
    elim (take_out (λ b. b.candidate.upstream.id == pin && eq_z b.candidate.route.priority best)
      (a ∷ rest)) [ none ↦ a ∷ rest | some (b, bs) ↦ b ∷ bs ]
