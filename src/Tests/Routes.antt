-- ===== src/Tests/Routes.antt =====
-- The theorems on patterns, routes and the breaker, at concrete rows.
use nextapi.Base.{
  none, Bool, length, String_eq, pair_eq, ℕ, ℤ, ◌*◌, ◌≤◌, ◌≡◌, ◌↔◌, ◌&&◌, refl, true, false, some,
  List, [], ◌∷◌, codes, All, arith, lookup, insert, ℕ_eq, filter,
}
use nextapi.Entities.{UpstreamRow, ModelRouteRow, Time, second}
use nextapi.Routing.Pattern.{pattern_matches, scan, rounds}
use nextapi.Routing.Pattern.Glob.{Matches}
use nextapi.Routing.Pattern.Correct.{pattern_matches-Matches, scan_ends}
use nextapi.Routing.Select.{match_routes}
use nextapi.Routing.Select.Order.{match_routes_lem, ranked, Ordered, Serves}
use nextapi.Routing.Breaker.{
  Breaker, closed, open_until, half_open, allow, on_failure, cooldown_secs, opened, next_on_failure,
  db_update,
}
use nextapi.Routing.Breaker.Invariant.{IsTimed, Event, ask, fail, succeed}
use nextapi.Routing.Breaker.Step.{IsJudged, answers, one_probe, probe_recovers}
use nextapi.Routing.Breaker.Store.{restart_refuses, update_row, after_restart}
use nextapi.Routing.Sticky.{sticky_get, sticky_pin, sticky_cap}
use nextapi.Routing.Sticky.Bounded.{sticky_get-sticky_pin}
use nextapi.Tests.{upstream, route}

pattern_matches-Matches_example :
    (pattern_matches "gpt-*o" "gpt-4o" ≡ true) ↔ Matches (codes "gpt-*o") (codes "gpt-4o")
pattern_matches-Matches_example = pattern_matches-Matches "gpt-*o" "gpt-4o"

scan_ends_example :
    (b : Bool) × (scan
        (rounds (length (codes "a*b")) (length (codes "aab")))
        (codes "a*b")
        (codes "aab")
        none
      ≡ some b)
scan_ends_example = scan_ends (codes "a*b") (codes "aab")

abbrev table : List ModelRouteRow
table = route 2 ∷ route 1 ∷ []

match_routes_lem_example :
    Ordered (match_routes "gpt-4o" table)
    × All (Serves "gpt-4o") (match_routes "gpt-4o" table)
    × ((priority sort_order : ℤ)
        → filter (ranked priority sort_order) (match_routes "gpt-4o" table)
          ≡ filter
              (λ r.
                (r.enabled && pattern_matches r.model_pattern "gpt-4o")
                && ranked priority sort_order r)
              table)
match_routes_lem_example = match_routes_lem "gpt-4o" table

-- Open until the second 100, after two openings.
abbrev broken : Breaker
broken = record { states = (1, open_until (100 * second) 2) ∷ []; halfopen_since = [] }

judged : IsJudged (upstream 1) (100 * second)
judged = record { enabled = refl; automatic = refl; no_cooldown = refl }

abbrev later_questions : List (UpstreamRow × Time)
later_questions = (upstream 1, 101 * second) ∷ (upstream 1, 219 * second) ∷ []

one_probe_example :
    ((allow (upstream 1) true (100 * second) broken).1 ≡ true)
    × All
        (λ a. a ≡ false)
        (answers later_questions (allow (upstream 1) true (100 * second) broken).0)
unfolding lookup
one_probe_example =
    one_probe (upstream 1) (100 * second) 2 (100 * second) broken later_questions judged refl
      (omega arith) ((refl, omega arith), ((refl, omega arith), tt))

abbrev some_history : List Event
some_history =
    ask (upstream 1) true (200 * second) ∷ fail (upstream 1) true second ∷ succeed (upstream 1) ∷ []

-- A probe is in flight.
abbrev probed : Breaker
probed = record { states = (1, half_open 1) ∷ []; halfopen_since = (1, 200 * second) ∷ [] }

probed-IsTimed : IsTimed probed
unfolding lookup
probed-IsTimed = record { clock = λ j n h. (200 * second, ground (arith, h)) }

probe_recovers_example :
    (due : Time) × ((now : Time)
      → due ≤ now
      → IsJudged (upstream 1) now
      → (allow (upstream 1) true now probed).1 ≡ true)
unfolding lookup
probe_recovers_example = probe_recovers (upstream 1) 1 probed probed-IsTimed refl

-- Two failures are counted already; the next opens the breaker.
abbrev weak : Breaker
weak = record { states = (1, closed 2) ∷ []; halfopen_since = [] }

restart_refuses_example :
    ((k : ℕ) × (lookup 1 (on_failure (upstream 1) true second weak).0.states
        ≡ some (open_until (61 * second) k)))
    × ((allow (update_row (opened (61 * second) 2) (upstream 1)) true (60 * second) after_restart).1
        ≡ false)
    × ((k : ℕ) × (lookup 1
            (allow
              (update_row (opened (61 * second) 2) (upstream 1))
              true
              (60 * second)
              after_restart).0.states
          ≡ some (open_until (61 * second) k)))
unfolding on_failure lookup insert next_on_failure cooldown_secs db_update
restart_refuses_example =
    restart_refuses (upstream 1) weak second (60 * second) (61 * second) 2 refl refl refl
      (omega arith)

sticky_get-sticky_pin_example :
    (length (sticky_pin second (7, "gpt-4o") 2 []) ≤ sticky_cap)
    × ((sticky_get (9 * second) (7, "gpt-4o") (sticky_pin second (7, "gpt-4o") 2 [])).1 ≡ some 2)
sticky_get-sticky_pin_example =
    sticky_get-sticky_pin second (9 * second) (7, "gpt-4o") 2 [] (omega arith)
