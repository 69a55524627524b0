-- ===== src/Routing/Breaker/Step.antt =====
-- Open and half-open: who is let through, and when.
use nextapi.Base.{
  ℕ, ◌+◌, ◌*◌, ◌≤◌, ◌<◌, ◌≡◌, refl, sym, inl, inr, Bool, true, false, ◌||◌, not, none, some, List,
  [], ◌∷◌, arith, ℕ_eq, lookup, lookup-insert_self, All, ltb, Bool-cases, Option-cases,
}
use mathlib.Core.Path.{subst}
use nextapi.Entities.{Uuid, Time, second, UpstreamRow}
use nextapi.Routing.Breaker.{
  Breaker, half_open, open_until, allow, allow_state, or_insert, is_manual, row_cooldown, stuck,
}
use nextapi.Routing.Breaker.Invariant.{IsTimed}

-- A row that the breaker judges by its state alone.
pub record IsJudged (up : UpstreamRow) (now : Time) : Type 0 where
  pub enabled : up.enabled ≡ true
  pub automatic : is_manual up ≡ false
  pub no_cooldown : row_cooldown up now ≡ none

allow-eq-allow_state :
    (up : UpstreamRow) (now : Time) (b : Breaker)
    → IsJudged up now
    → allow up true now b ≡ allow_state (lookup up.id b.states) up.id now b
unfolding allow
allow-eq-allow_state up now b j = rw (j.enabled, j.automatic, j.no_cooldown)

-- A half-open state with a probe that was sent at `since`.
abbrev pub Probing : Uuid → ℕ → Time → Breaker → Type 0
Probing id k since b =
    (lookup id b.states ≡ some (half_open k)) × (lookup id b.halfopen_since ≡ some since)

early : (since now : Time) → now < since + 120 * second → stuck (some since) now ≡ false
unfolding stuck
early since now h = ground arith

late : (since now : Time) → since + 120 * second ≤ now → stuck (some since) now ≡ true
unfolding stuck
late since now h = ground arith

-- While a probe is in flight, a question about the same upstream is refused and changes nothing
-- of it.
refuse_early :
    (up : UpstreamRow) (k : ℕ) (since now : Time) (b : Breaker)
    → Probing up.id k since b
    → now < since + 120 * second
    → ((allow up true now b).1 ≡ false) × ((allow up true now b).0 ≡ b)
unfolding allow allow_state or_insert
refuse_early up k since now b p h = elim (Bool-cases (not up.enabled || is_manual up)) [
  | inl e ↦ rw e (refl, refl)
  | inr e ↦ elim (Option-cases (row_cooldown up now)) [
    | inl c ↦ rw (e, c, p.0) (rw (p.1, early since now h) (refl, refl))
    | inr (t, c) ↦ rw (e, c) (rw (p.0, or_insert) (refl, refl))
  ]
]

-- The answers to a run of questions, in order.
unfoldable pub answers : List (UpstreamRow × Time) → Breaker → List Bool
answers [] b = []
answers ((up, now) ∷ qs) b = (allow up true now b).1 ∷ answers qs (allow up true now b).0

refuse_all :
    (id : Uuid) (k : ℕ) (since : Time) (qs : List (UpstreamRow × Time)) (b : Breaker)
    → Probing id k since b
    → All (λ (q : UpstreamRow × Time). (q.0.id ≡ id) × (q.1 < since + 120 * second)) qs
    → All (λ a. a ≡ false) (answers qs b)
unfolding answers
refuse_all id k since [] b p h = tt
refuse_all id k since ((up, now) ∷ qs) b p h =
    let (no_, same) =
      refuse_early up k since now b (subst (λ i. Probing i k since b) (sym h.0.0) p) h.0.1 in
    (no_, refuse_all id k since qs _ (subst (Probing id k since) (sym same) p) h.1)

-- Of an upstream that is enabled, not disabled by hand and without a cooldown in its row, whose state in memory is
-- open, with automatic disabling on throughout: when the cooldown is over, a request is let through as a probe, and in a
-- run of questions about the same upstream in the 120 s after it, whatever rows they hold, all are refused. The run is of
-- questions alone: no success, failure or reset comes between them.
pub one_probe :
    (up : UpstreamRow) (until k : ℕ) (now : Time) (b : Breaker) (qs : List (UpstreamRow × Time))
    → IsJudged up now
    → lookup up.id b.states ≡ some (open_until until k)
    → until ≤ now
    → All (λ (q : UpstreamRow × Time). (q.0.id ≡ up.id) × (q.1 < now + 120 * second)) qs
    → ((allow up true now b).1 ≡ true) × All (λ a. a ≡ false) (answers qs (allow up true now b).0)
unfolding allow_state
one_probe up until k now b qs j e h hs =
    let over : ltb now until ≡ false = ground arith in
    rw (allow-eq-allow_state up now b j) (
      rw (e, allow_state)
        (rw over (
          refl,
          refuse_all up.id k now qs _ (lookup-insert_self _ _ _, lookup-insert_self _ _ _) hs,
        )))

pub allow_expired :
    (up : UpstreamRow) (until k : ℕ) (now : Time) (b : Breaker)
    → IsJudged up now
    → lookup up.id b.states ≡ some (open_until until k)
    → until ≤ now
    → lookup up.id (allow up true now b).0.states ≡ some (half_open k)
unfolding allow_state
allow_expired up until k now b j e h =
    let over : ltb now until ≡ false = ground arith in
    rw (allow-eq-allow_state up now b j) (rw (e, allow_state) (rw over (lookup-insert_self _ _ _)))

-- With automatic disabling on: until the cooldown of an open state is over, a request for the upstream is refused, and
-- the breaker stays as it is.
pub refuse_open :
    (up : UpstreamRow) (until k : ℕ) (now : Time) (b : Breaker)
    → lookup up.id b.states ≡ some (open_until until k)
    → now < until
    → ((allow up true now b).1 ≡ false) × ((allow up true now b).0 ≡ b)
unfolding allow allow_state or_insert
refuse_open up until k now b e h = elim (Bool-cases (not up.enabled || is_manual up)) [
  | inl d ↦ rw d (refl, refl)
  | inr d ↦ elim (Option-cases (row_cooldown up now)) [
    | inl c ↦ let soon : ltb now until ≡ true = ground arith in rw (d, c, e) (rw soon (refl, refl))
    | inr (t, c) ↦ rw (d, c) (rw (e, or_insert) (refl, refl))
  ]
]

-- In every breaker that keeps its clocks, a lost probe does not block an upstream for ever: for a half-open state there
-- is a time from which on a request is let through, if the row is enabled, not disabled by hand and without a cooldown.
pub probe_recovers :
    (up : UpstreamRow) (k : ℕ) (b : Breaker)
    → IsTimed b
    → lookup up.id b.states ≡ some (half_open k)
    → (due : Time) × ((now : Time) → due ≤ now → IsJudged up now → (allow up true now b).1 ≡ true)
unfolding allow_state
probe_recovers up k b timed e =
    let (since, s) = timed.clock up.id k e in
    (
      since + 120 * second,
      λ now h j.
          rw (allow-eq-allow_state up now b j) (rw (e, allow_state) (rw (s, late since now h))),
    )
