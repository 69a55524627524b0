-- ===== src/Routing/Breaker/Trip.antt =====
-- How failures open the breaker, and how failed probes lengthen the cooldown.
use Prim.Native.Nat.{min}
use nextapi.Base.{
  ℕ, pos_part, ◌+◌, ◌*◌, ◌^◌, ◌≤◌, ◌<◌, ◌≡◌, ◌∙◌, refl, ap, true, false, some, List, [], ◌∷◌, arith,
  ℕ_eq, lookup, lookup-insert_self, at_least_one, length,
}
use nextapi.Entities.{Time, second, UpstreamRow}
use nextapi.Routing.Breaker.Step.{IsJudged, allow_expired}
use nextapi.Routing.Breaker.Cooldown.{cooldown_secs_lem}
use nextapi.Routing.Breaker.{
  Breaker, BreakerState, half_open, closed, open_until, allow, on_failure, next_on_failure,
  state_or_closed, is_manual, cooldown_secs,
}

-- The upstream fails at each of these times.
unfoldable pub fail_at : UpstreamRow → List Time → Breaker → Breaker
fail_at up [] b = b
fail_at up (now ∷ rest) b = fail_at up rest (on_failure up true now b).0

unfoldable pub state_of : UpstreamRow → Breaker → BreakerState
state_of up b = state_or_closed (lookup up.id b.states)

module _ (up : UpstreamRow) (automatic : is_manual up ≡ false) where
  pub state_of-on_failure :
      (now : Time) (b : Breaker)
      → state_of up (on_failure up true now b).0
        ≡ (next_on_failure (state_of up b) (at_least_one up.breaker_threshold) now).0
  unfolding on_failure state_of
  state_of-on_failure now b = rw automatic (rw lookup-insert_self refl)

  module _ (narrow : pos_part up.breaker_threshold < 2 ^ 31) where
    below_threshold :
        (f : ℕ) (now : Time) (b : Breaker)
        → state_of up b ≡ closed f
        → f + 1 < at_least_one up.breaker_threshold
        → state_of up (on_failure up true now b).0 ≡ closed (f + 1)
    unfolding next_on_failure
    below_threshold f now b e h = rw (state_of-on_failure now b, e) (ground arith)

    count_up :
        (f : ℕ) (times : List Time) (b : Breaker)
        → state_of up b ≡ closed f
        → f + length times < at_least_one up.breaker_threshold
        → state_of up (fail_at up times b) ≡ closed (f + length times)
    unfolding fail_at
    count_up f [] b e h = e ∙ ap closed (omega arith)
    count_up f (now ∷ rest) b e h =
        count_up (f + 1) rest _ (below_threshold f now b e (omega arith)) (omega arith)
        ∙ ap closed (omega arith)

    -- Of an upstream that is not disabled by hand and whose threshold is below 2³¹, from a breaker that has counted `f`
    -- failures: while the threshold is not reached, failures are only counted; the failure that reaches it opens the
    -- breaker for 60 s.
    pub trip :
        (f : ℕ) (times : List Time) (now : Time) (b : Breaker)
        → state_of up b ≡ closed f
        → f + length times + 1 ≡ at_least_one up.breaker_threshold
        → (state_of up (fail_at up times b) ≡ closed (f + length times))
          × (state_of up (on_failure up true now (fail_at up times b)).0
              ≡ open_until (now + 60 * second) 1)
    unfolding next_on_failure cooldown_secs
    trip f times now b e h =
        let c : state_of up (fail_at up times b) ≡ closed (f + length times) =
          count_up f times b e (omega arith) in
        (c, rw (state_of-on_failure now (fail_at up times b), c) (ground arith))

probing :
    (up : UpstreamRow) (until k asked : ℕ) (b : Breaker)
    → IsJudged up asked
    → lookup up.id b.states ≡ some (open_until until k)
    → until ≤ asked
    → state_of up (allow up true asked b).0 ≡ half_open k
unfolding state_of
probing up until k asked b j e h = ap state_or_closed (allow_expired up until k asked b j e h)

-- A round of recovery: a probe is let through at the first time and fails at the second.
unfoldable pub failed_round : UpstreamRow → Time × Time → Breaker → Breaker
failed_round up (asked, failed) b = (on_failure up true failed (allow up true asked b).0).0

-- When a probe fails that was let through after the `k`-th opening, by a row that is enabled, not disabled by hand and
-- without a cooldown, the breaker opens once more, for 60 s doubled `k` times and at most 1800 s; `k + 1` is below 2³².
pub reopen :
    (up : UpstreamRow) (until k asked failed : ℕ) (b : Breaker)
    → IsJudged up asked
    → lookup up.id b.states ≡ some (open_until until k)
    → until ≤ asked
    → k + 1 < 2 ^ 32
    → state_of up (failed_round up (asked, failed) b)
      ≡ open_until (failed + min (60 * 2 ^ k) 1800 * second) (k + 1)
unfolding failed_round
reopen up until k asked failed b j e h small =
    state_of-on_failure up j.automatic failed (allow up true asked b).0
    ∙ rw (probing up until k asked b j e h) (next-half_open k _ failed small)
  where
    next-half_open :
        (k threshold failed : ℕ)
        → k + 1 < 2 ^ 32
        → (next_on_failure (half_open k) threshold failed).0
          ≡ open_until (failed + min (60 * 2 ^ k) 1800 * second) (k + 1)
    next-half_open k threshold failed small =
        unfold next_on_failure in rw (cooldown_secs_lem k) (ground arith)
