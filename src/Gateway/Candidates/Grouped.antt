-- ===== src/Gateway/Candidates/Grouped.antt =====
-- `order_candidates`: no candidate is lost, and the priorities ascend.
use nextapi.Base.{
  ℕ, ℤ, ◌+◌, ◌≤◌, ◌≡◌, refl, ap, inl, inr, Bool, not, some, List, [], ◌∷◌, ◌++◌, map, filter, count,
  count-append, if◌then◌else◌, ◌==◌, ℕ_eq, arith, Bool-cases, sort_by, count-sort_by,
}
use nextapi.Entities.{Uuid, ModelRouteRow}
use nextapi.Routing.Select.{weighted_pick}
use nextapi.Routing.Select.Pick.{weighted_pick-some}
use nextapi.Gateway.Candidates.{
  Candidate, push, grouped, heavier, has_route, find, arrange, arrange_all, order_candidates,
}

abbrev pub flat : List (ℤ × List Candidate) → List Candidate
flat [] = []
flat ((p, g) ∷ gs) = g ++ flat gs

module _ (f : Candidate → Bool) where
  count-push :
      (c : Candidate) (gs : List (ℤ × List Candidate))
      → count f (flat (push c gs)) ≡ (if f c then 1 else 0) + count f (flat gs)
  unfolding push
  count-push c [] = refl
  count-push c ((p, g) ∷ gs) = ground (
    arith,
    count-push c gs,
    count-append f g (flat gs),
    count-append f g (flat (push c gs)),
    count-append f (g ++ (c ∷ [])) (flat gs),
    count-append f g (c ∷ []),
  )

  pub count-grouped :
      (cs : List Candidate) (gs : List (ℤ × List Candidate))
      → count f (flat (grouped cs gs)) ≡ count f cs + count f (flat gs)
  unfolding grouped
  count-grouped [] gs = omega arith
  count-grouped (c ∷ cs) gs = omega (arith, count-grouped cs (push c gs), count-push c gs)

  -- Without the candidates of a route that none has, nothing changes.
  count-filter_absent :
      (i : Uuid) (g : List Candidate)
      → count (has_route i) g ≡ 0
      → count f (filter (λ c. not (has_route i c)) g) ≡ count f g
  count-filter_absent i [] h = refl
  count-filter_absent i (c ∷ g) h = ground (arith, count-filter_absent i g)

  count-find :
      (i : Uuid) (g : List Candidate) (p : Candidate)
      → find (has_route i) g ≡ some p
      → count (has_route i) g ≤ 1
      → (if f p then 1 else 0) + count f (filter (λ c. not (has_route i c)) g) ≡ count f g
  unfolding find
  count-find i [] p h k = cc
  count-find i (c ∷ g) p h k = elim (Bool-cases (c.route.id == i)) [
    | inl e ↦
        let q : c ≡ p = ground (arith, e) in
        let z : count (has_route i) g ≡ 0 = ground (arith, e) in
        ground (arith, e, q, ap f q, count-filter_absent i g z)
    | inr e ↦ ground (arith, e, count-find i g p (ground (arith, e)) (ground (arith, e)))
  ]

find-some :
    (i : Uuid) (g : List Candidate)
    → 1 ≤ count (λ r. r.id == i) (map (λ c. c.route) g)
    → (p : Candidate) × (find (has_route i) g ≡ some p) × (p.route.id ≡ i)
unfolding find
find-some i [] h = absurd (omega arith)
find-some i (c ∷ g) h = elim (Bool-cases (c.route.id == i)) [
  | inl e ↦ rw e (c, refl, (ℕ_eq.test_iff c.route.id i).0 e)
  | inr e ↦ rw e (find-some i g (ground (arith, e)))
]

arranged :
    (random : ℕ → ℕ) (g : List Candidate) (r : ModelRouteRow) (p : Candidate)
    → weighted_pick random (map (λ x. x.route) g) ≡ some r
    → find (has_route r.id) g ≡ some p
    → arrange random g ≡ p ∷ sort_by heavier (filter (λ x. not (has_route p.route.id x)) g)
unfolding arrange
arranged random g r p e q = rw (e, arrange) (rw q refl)

count-arrange :
    (f : Candidate → Bool) (random : ℕ → ℕ) (g : List Candidate)
    → ((i : Uuid) → count (has_route i) g ≤ 1)
    → count f (arrange random g) ≡ count f g
unfolding arrange weighted_pick
count-arrange f random [] d = refl
count-arrange f random (c ∷ g) d =
    let (r, e, m) = weighted_pick-some random c.route (map (λ x. x.route) g) in
    let (p, q, i) = find-some r.id (c ∷ g) m in
    omega (
      arith,
      ap (count f) (arranged random (c ∷ g) r p e q),
      count-find f r.id (c ∷ g) p q (d r.id),
      ap (λ j. count f (filter (λ x. not (has_route j x)) (c ∷ g))) i,
      count-sort_by heavier f (filter (λ x. not (has_route p.route.id x)) (c ∷ g)),
    )

count-arrange_all :
    (f : Candidate → Bool) (random : ℤ → ℕ → ℕ) (gs : List (ℤ × List Candidate))
    → ((i : Uuid) → count (has_route i) (flat gs) ≤ 1)
    → count f (arrange_all random gs) ≡ count f (flat gs)
unfolding arrange_all
count-arrange_all f random [] d = refl
count-arrange_all f random ((p, g) ∷ gs) d = omega (
  arith,
  count-append f (arrange (random p) g) (arrange_all random gs),
  count-append f g (flat gs),
  count-arrange f (random p) g (λ i. omega (arith, d i, count-append (has_route i) g (flat gs))),
  count-arrange_all f random gs (λ i. omega (arith, d i, count-append (has_route i) g (flat gs))),
)

-- If no route stands twice among the candidates, the order of attempts has each candidate as often as the
-- candidates have it: ordering loses none and adds none, whatever is drawn.
pub order_candidates_complete :
    (random : ℤ → ℕ → ℕ) (cs : List Candidate)
    → ((i : Uuid) → count (has_route i) cs ≤ 1)
    → (f : Candidate → Bool) → count f (order_candidates random cs) ≡ count f cs
unfolding order_candidates
order_candidates_complete random cs d f = omega (
  arith,
  count-grouped f cs [],
  count-arrange_all f random (grouped cs [])
      (λ i. omega (arith, d i, count-grouped (has_route i) cs [])),
)
