-- ===== src/Gateway/Admission/Sound.antt =====
-- What is true of every attempt that a request is given.
use nextapi.Base.{
  ℕ, ℤ, ◌≤◌, ◌≡◌, refl, ap, subst, ◌∙◌, inl, inr, Bool, true, false, ◌||◌, not, String, Option,
  none, some, List, [], ◌∷◌, map, filter, count, count-append, count-sort_by, Bool-cases,
  Option-cases, arith, ℕ_eq, lookup,
}
use nextapi.Entities.{Uuid, Time, UpstreamRow, ModelRouteRow}
use nextapi.Entities.Caps.{RequiredCaps}
use nextapi.Routing.Breaker.{Breaker, allow, is_manual}
use nextapi.Routing.Select.{serves, match_routes, weighted_pick, route_le}
use nextapi.Upstream.{AuthGuard}
use nextapi.Gateway.Candidates.{
  Candidate, Attempt, grouped, heavier, has_route, find, arrange, arrange_all, order_candidates,
  attempts_for, reorder_pinned_first,
}
use nextapi.Gateway.Candidates.Choice.{Pinned, ignored, moved, reorder_pinned_first_lem}
use nextapi.Gateway.Request.{Verdict, pass, reject, required_caps}
use nextapi.Protocol.{Protocol}
use nextapi.Gateway.Candidates.Grouped.{flat, count-grouped}
use nextapi.Gateway.Admission.{
  Config, auto_disable, is_skipped, consider, collect, Input, Parsed, plan, from_routes,
  from_candidates, from_attempts, with_pin,
}

-- Not fit to be asked: the route is off or for another model, the upstream is off, disabled by hand, lacks a
-- capability, or its credential failed.
unfoldable pub unfit : String → RequiredCaps → Time → AuthGuard → Candidate → Bool
unfit model caps now guard c =
    not (serves model c.route)
    || is_skipped caps now guard c.upstream
    || not c.upstream.enabled
    || is_manual c.upstream

module _ (f : Candidate → Bool) where
  count-filter_le :
      (p : Candidate → Bool) (cs : List Candidate) → count f (filter p cs) ≤ count f cs
  count-filter_le p [] = omega arith
  count-filter_le p (c ∷ cs) = ground (arith, count-filter_le p cs)

  find-fit :
      (p : Candidate → Bool) (cs : List Candidate) (c : Candidate)
      → find p cs ≡ some c
      → count f cs ≡ 0
      → f c ≡ false
  unfolding find
  find-fit p [] c h k = cc
  find-fit p (d ∷ cs) c h k = elim (Bool-cases (p d)) [
    | inl e ↦ let q : d ≡ c = ground (arith, e) in ground (arith, ap f q)
    | inr e ↦ find-fit p cs c (ground (arith, e)) (ground arith)
  ]

  arrange-fit :
      (random : ℕ → ℕ) (g : List Candidate) → count f g ≡ 0 → count f (arrange random g) ≡ 0
  unfolding arrange
  arrange-fit random g h = elim (Option-cases (weighted_pick random (map (λ c. c.route) g))) [
    | inl e ↦ rw (e, arrange) refl
    | inr (r, e) ↦ elim (Option-cases (find (has_route r.id) g)) [
      | inl q ↦ rw (e, arrange) (rw q refl)
      | inr (p, q) ↦
          rw (e, arrange)
            (rw q (
              ground (
                arith,
                find-fit (has_route r.id) g p q h,
                count-sort_by heavier f (filter (λ c. not (has_route p.route.id c)) g),
                count-filter_le (λ c. not (has_route p.route.id c)) g,
              )))
    ]
  ]

  arrange_all-fit :
      (random : ℤ → ℕ → ℕ) (gs : List (ℤ × List Candidate))
      → count f (flat gs) ≡ 0
      → count f (arrange_all random gs) ≡ 0
  unfolding arrange_all
  arrange_all-fit random [] h = refl
  arrange_all-fit random ((p, g) ∷ gs) h =
      let s = count-append f g (flat gs) in
      omega (
        arith,
        count-append f (arrange (random p) g) (arrange_all random gs),
        arrange-fit (random p) g (omega arith),
        arrange_all-fit random gs (omega arith),
      )

  order-fit :
      (random : ℤ → ℕ → ℕ) (cs : List Candidate)
      → count f cs ≡ 0
      → count f (order_candidates random cs) ≡ 0
  unfolding order_candidates
  order-fit random cs h =
      arrange_all-fit random (grouped cs []) (omega (arith, count-grouped f cs []))

allow-manual :
    (up : UpstreamRow) (ad : Bool) (now : Time) (b : Breaker)
    → (allow up ad now b).1 ≡ true
    → is_manual up ≡ false
unfolding allow
allow-manual up ad now b h = elim (Bool-cases (is_manual up)) [
  | inl e ↦ absurd (ground (arith, e))
  | inr e ↦ e
]

module _ (cfg : Config) (model : String) (caps : RequiredCaps) (now : Time)
    (guard : AuthGuard) where
  consider-fit :
      (r : ModelRouteRow) (b : Breaker)
      → serves model r ≡ true
      → count (unfit model caps now guard) (consider cfg caps now guard r b).1 ≡ 0
  unfolding consider unfit
  consider-fit r b h = elim (Option-cases (lookup r.upstream_id cfg.upstreams)) [
    | inl e ↦ rw (e, consider) refl
    | inr (up, e) ↦ ground (arith, e, h, allow-manual up (auto_disable cfg up) now b)
  ]

  collect-fit :
      (rs : List ModelRouteRow) (b : Breaker)
      → count (λ r. not (serves model r)) rs ≡ 0
      → count (unfit model caps now guard) (collect cfg caps now guard rs b).1 ≡ 0
  unfolding collect
  collect-fit [] b h = refl
  collect-fit (r ∷ rs) b h =
      let s : serves model r ≡ true = ground arith in
      omega (
        arith,
        consider-fit r b s,
        collect-fit rs (consider cfg caps now guard r b).0 (ground arith),
        count-append (unfit model caps now guard) (consider cfg caps now guard r b).1
            (collect cfg caps now guard rs (consider cfg caps now guard r b).0).1,
      )

matched-serve :
    (model : String) (routes : List ModelRouteRow)
    → count (λ r. not (serves model r)) (match_routes model routes) ≡ 0
unfolding match_routes
matched-serve model routes =
    count-sort_by route_le (λ r. not (serves model r)) (filter (serves model) routes)
    ∙ rest model routes
  where
    rest :
        (model : String) (routes : List ModelRouteRow)
        → count (λ r. not (serves model r)) (filter (serves model) routes) ≡ 0
    rest model [] = refl
    rest model (r ∷ rs) = ground (arith, rest model rs)

module _ (f : Candidate → Bool) where
  attempts-fit :
      (entry : Protocol) (cs : List Candidate)
      → count f cs ≡ 0
      → count (λ a. f a.candidate) (attempts_for entry cs) ≡ 0
  unfolding attempts_for
  attempts-fit entry [] h = refl
  attempts-fit entry (c ∷ cs) h = ground (arith, attempts-fit entry cs)

  Pinned-fit :
      (pin : Uuid) (best : ℤ) (xs ys : List Attempt)
      → Pinned pin best xs ys
      → count (λ a. f a.candidate) xs ≡ 0
      → count (λ a. f a.candidate) ys ≡ 0
  Pinned-fit pin best xs ys (ignored e c) h = rw e h
  Pinned-fit pin best xs ys (moved before b after e t c q) h =
      let g : Attempt → Bool = λ a. f a.candidate in
      rw q (
        omega
          (arith, ap (count g) e, count-append g before (b ∷ after), count-append g before after))

  with_pin-fit :
      (pin : Option Uuid) (a : Attempt) (rest : List Attempt)
      → count (λ x. f x.candidate) (a ∷ rest) ≡ 0
      → count (λ x. f x.candidate) (with_pin pin (a ∷ rest)) ≡ 0
  unfolding with_pin
  with_pin-fit none a rest h = h
  with_pin-fit (some pin) a rest h =
      Pinned-fit pin a.candidate.route.priority (a ∷ rest) (reorder_pinned_first pin (a ∷ rest))
        (reorder_pinned_first_lem pin a rest) h

  abbrev Fit : Verdict (List Attempt) → Type 0
  Fit (reject _ _) = Unit
  Fit (pass attempts) = count (λ a. f a.candidate) attempts ≡ 0

  from_attempts-Fit :
      (i : Input) (xs : List Attempt) → count (λ a. f a.candidate) xs ≡ 0 → Fit (from_attempts i xs)
  unfolding from_attempts
  from_attempts-Fit i [] h = tt
  from_attempts-Fit i (a ∷ rest) h = with_pin-fit i.pin a rest h

  from_candidates-Fit :
      (i : Input) (skipped : Bool) (cs : List Candidate)
      → count f cs ≡ 0
      → Fit (from_candidates i skipped cs)
  unfolding from_candidates
  from_candidates-Fit i true [] h = tt
  from_candidates-Fit i false [] h = tt
  from_candidates-Fit i skipped (c ∷ cs) h =
      from_attempts-Fit i (attempts_for i.entry (order_candidates i.random (c ∷ cs))) (
        attempts-fit i.entry (order_candidates i.random (c ∷ cs)) (order-fit f i.random (c ∷ cs) h))

  Fit-pass :
      (v : Verdict (List Attempt)) (xs : List Attempt)
      → Fit v
      → v ≡ pass xs
      → count (λ a. f a.candidate) xs ≡ 0
  Fit-pass (reject _ _) xs h e = absurd (cc)
  Fit-pass (pass ys) xs h e =
      let q : ys ≡ xs = ground arith in subst (λ zs. count (λ a. f a.candidate) zs ≡ 0) q h

from_routes-Fit :
    (cfg : Config) (i : Input) (p : Parsed) (guard : AuthGuard) (b : Breaker)
    (rs : List ModelRouteRow)
    → count (λ r. not (serves p.model r)) rs ≡ 0
    → Fit
        (unfit p.model (required_caps p.body p.stream) i.now guard)
        (from_routes cfg i p guard b rs).1
unfolding from_routes
from_routes-Fit cfg i p guard b [] h = tt
from_routes-Fit cfg i p guard b (r ∷ rs) h =
    let (b₁, cs, skipped) = collect cfg (required_caps p.body p.stream) i.now guard (r ∷ rs) b in
    from_candidates-Fit (unfit p.model (required_caps p.body p.stream) i.now guard) i skipped cs
      (collect-fit cfg p.model (required_caps p.body p.stream) i.now guard (r ∷ rs) b h)

-- Every attempt that a request is given is fit: its route is on and its pattern matches the model, its upstream is on,
-- is not disabled by hand, lacks no capability that the request needs, and its credential did not fail lately.
pub plan-fit :
    (cfg : Config) (i : Input) (p : Parsed) (guard : AuthGuard) (b : Breaker)
    (attempts : List Attempt)
    → (plan cfg i p guard b).1 ≡ pass attempts
    → count (λ a. unfit p.model (required_caps p.body p.stream) i.now guard a.candidate) attempts
      ≡ 0
unfolding plan
plan-fit cfg i p guard b attempts h =
    Fit-pass (unfit p.model (required_caps p.body p.stream) i.now guard)
      (from_routes cfg i p guard b (match_routes p.model cfg.routes)).1 attempts
      (from_routes-Fit cfg i p guard b (match_routes p.model cfg.routes)
        (matched-serve p.model cfg.routes))
      h
