-- ===== src/Tests/Limits.antt =====
-- The theorems on rates, quotas and errors, at concrete keys and times.
use nextapi.Base.{
  ℕ, ℤ, le_z, pos, ◌*◌, ◌≤◌, ◌≡◌, refl, true, false, Option, some, [], ◌∷◌, count, arith, lookup,
  ℕ_eq,
}
use nextapi.Entities.{second}
use nextapi.ApiError.{err, rate_limited}
use nextapi.Limit.{Windows, check_rpm, rpm_status, effective_limit}
use nextapi.Limit.Window.{rate_bound, admitted, in_span}
use nextapi.Limit.Status.{remaining_at_the_edge}
use nextapi.Limit.Quota.{answer, block_is_closed, is_cost, used, Query, check_quota}
use nextapi.Tests.{key}

rate_bound_example : count (in_span 5 10) (admitted 2 10 (1 ∷ 5 ∷ 6 ∷ 7 ∷ 12 ∷ []) []) ≤ 2
rate_bound_example =
    rate_bound 2 10 5 (1 ∷ 5 ∷ 6 ∷ 7 ∷ 12 ∷ []) (omega arith) (omega arith)
      (omega arith, (omega arith, (omega arith, (omega arith, (omega arith, tt)))))

abbrev used_up : Windows
used_up = (7, second ∷ []) ∷ []

remaining_at_the_edge_example :
    (rpm_status key 0 (61 * second) used_up ≡ some (1, 1))
    × ((check_rpm key 0 (61 * second) used_up).1 ≡ err rate_limited)
unfolding lookup effective_limit
remaining_at_the_edge_example = remaining_at_the_edge key second used_up refl refl

block_is_closed_example :
    (is_cost "cost_usd" ≡ true → Path (Query ℕ) (answer 0) (answer 0))
    × ((row : Option ℤ) × (answer (some (pos 40)) ≡ answer row)
        × (le_z (pos 100) (used row) ≡ false))
unfolding check_quota
block_is_closed_example =
    block_is_closed key (pos 100) "cost_usd" "day" "block" (answer 0) (answer (some (pos 40))) refl
      refl refl refl refl
