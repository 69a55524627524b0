-- ===== src/Routing/Breaker.antt =====
-- The circuit breaker of src/routing/mod.rs: `BreakerState`, `next_on_failure` and `Breaker`.
-- A method holds its mutexes from the first read to the last write, so it is one step on the
-- state. `now` is the clock that the method reads; what it sends to the database is returned.
pub mod Cooldown
pub mod Step
pub mod Invariant
pub mod Trip
pub mod Store
use Prim.Native.Nat.{min, max}
use text.Mathlib.Text.{◌==◌ as is_text}
use nextapi.Base.{
  ℕ, zero, suc, ℤ, pos, negsuc, le_z, ◌+◌, ◌-◌, ◌*◌, ◌/◌, ◌%◌, ◌^◌, String, Bool, true, false, ◌||◌,
  not, Option, none, some, ltb, leb, if◌then◌else◌, ℕ_eq, Table, lookup, insert, remove,
  at_least_one,
}
use nextapi.Entities.{Uuid, Time, second, UpstreamRow}

abbrev pub default_cooldown_secs : ℕ
default_cooldown_secs = 60

abbrev pub max_cooldown_secs : ℕ
max_cooldown_secs = 30 * 60

abbrev pub halfopen_timeout_secs : ℕ
halfopen_timeout_secs = 120

abbrev i64_max : ℕ
i64_max = 2 ^ 63 - 1

abbrev u32_mod : ℕ
u32_mod = 2 ^ 32

-- A `u32` counter; both counters wrap in a release build.
abbrev pub next_u32 : ℕ → ℕ
next_u32 n = (n + 1) % u32_mod

pub data BreakerState : Type 0 where
  closed : (failures : ℕ) → BreakerState
  open_until : (until consecutive_opens : ℕ) → BreakerState
  half_open : (consecutive_opens : ℕ) → BreakerState

-- The product saturates at the largest `i64`.
unfoldable pub cooldown_secs : ℕ → ℕ
cooldown_secs opens = min (min i64_max (default_cooldown_secs * 2 ^ min opens 62)) max_cooldown_secs

unfoldable pub next_on_failure : BreakerState → ℕ → Time → BreakerState × Bool
next_on_failure (closed failures) threshold now =
    let f = next_u32 failures in
    if leb threshold f
    then (open_until (now + cooldown_secs 0 * second) 1, true)
    else (closed f, false)
next_on_failure (open_until until opens) threshold now = (open_until until opens, true)
next_on_failure (half_open opens) threshold now =
    (open_until (now + cooldown_secs opens * second) (next_u32 opens), true)

pub record Breaker : Type 0 where
  pub states : Table Uuid BreakerState
  pub halfopen_since : Table Uuid Time

unfoldable pub reset : Uuid → Breaker → Breaker
reset id b = record { states = remove id b.states; halfopen_since = remove id b.halfopen_since }

abbrev disabled_as : String → UpstreamRow → Bool
disabled_as who up = elim up.disabled_by [ none ↦ false | some s ↦ is_text s who ]

abbrev pub is_manual : UpstreamRow → Bool
is_manual = disabled_as "manual"

abbrev pub is_auto : UpstreamRow → Bool
is_auto = disabled_as "auto"

-- A cooldown in the row that the memory may not know of, after a restart.
abbrev pub row_cooldown : UpstreamRow → Time → Option Time
row_cooldown up now =
    if is_auto up
    then elim up.cooldown_until [ none ↦ none | some t ↦ if ltb now t then some t else none ]
    else none

-- `entry(id).or_insert_with(…)`
or_insert : Uuid → BreakerState → Table Uuid BreakerState → Table Uuid BreakerState
or_insert id s states = elim (lookup id states) [ none ↦ insert id s states | some _ ↦ states ]

-- A probe is stuck if it has had no result for `halfopen_timeout_secs`.
unfoldable pub stuck : Option Time → Time → Bool
stuck none now = false
stuck (some since) now = leb halfopen_timeout_secs ((now - since) / second)

-- The decision on the state in memory.
allow_state : Option BreakerState → Uuid → Time → Breaker → Breaker × Bool
unfolding stuck
allow_state none id now b = (record b { states = insert id (closed 0) b.states }, true)
allow_state (some (closed _)) id now b = (b, true)
allow_state (some (open_until until opens)) id now b = if ltb now until then (b, false) else (
  record {
    states = insert id (half_open opens) b.states;
    halfopen_since = insert id now b.halfopen_since;
  },
  true,
)
allow_state (some (half_open _)) id now b =
    if stuck (lookup id b.halfopen_since) now
    then (record b { halfopen_since = insert id now b.halfopen_since }, true)
    else (b, false)

unfoldable pub allow : UpstreamRow → Bool → Time → Breaker → Breaker × Bool
unfolding allow_state or_insert reset
allow up auto_disable now b =
    if not up.enabled || is_manual up
    then (b, false)
    else if not auto_disable
    then (reset up.id b, true)
    else elim (row_cooldown up now) [
      | some t ↦ (
        record b {
          states = or_insert up.id (open_until t (at_least_one up.consecutive_failures)) b.states;
        },
        false,
      )
      | none ↦ allow_state (lookup up.id b.states) up.id now b
    ]

-- What a method writes to the row in the database: `recovered` is the UPDATE of `on_success`, the others are those of
-- `on_failure`.
pub data DbUpdate : Type 0 where
  recovered : DbUpdate
  opened : (until failures : ℕ) → DbUpdate
  failures_only : (failures : ℤ) → DbUpdate

unfoldable pub on_success : UpstreamRow → Breaker → Breaker × Option DbUpdate
on_success up b = (
  record {
    states = insert up.id (closed 0) b.states;
    halfopen_since = remove up.id b.halfopen_since;
  },
  if is_auto up then some recovered else none,
)

-- `i32::saturating_add(1)`
abbrev saturating_next : ℤ → ℤ
saturating_next (pos n) = pos (min (n + 1) (2 ^ 31 - 1))
saturating_next (negsuc zero) = pos 0
saturating_next (negsuc (suc n)) = negsuc n

abbrev pub state_or_closed : Option BreakerState → BreakerState
state_or_closed none = closed 0
state_or_closed (some s) = s

-- The probe's clock stops when the state leaves half-open.
leave_halfopen : BreakerState → BreakerState → Uuid → Table Uuid Time → Table Uuid Time
leave_halfopen (half_open _) (half_open _) id since = since
leave_halfopen (half_open _) next id since = remove id since
leave_halfopen state next id since = since

-- `as i32` keeps a count below `2 ^ 31` as it is.
unfoldable pub db_update : UpstreamRow → ℕ → BreakerState → BreakerState → Option DbUpdate
db_update up threshold (open_until _ _) (open_until _ _) =
    some (failures_only (saturating_next up.consecutive_failures))
db_update up threshold (closed failures) (open_until until _) = some (opened until failures)
db_update up threshold (half_open _) (open_until until _) = some (opened until threshold)
db_update up threshold state next = none

unfoldable pub on_failure : UpstreamRow → Bool → Time → Breaker → Breaker × Option DbUpdate
unfolding leave_halfopen
on_failure up auto_disable now b =
    if is_manual up || not auto_disable
    then (b, none)
    else (let threshold = at_least_one up.breaker_threshold in
        let state = state_or_closed (lookup up.id b.states) in
        let next = (next_on_failure state threshold now).0 in
        (
          record {
            states = insert up.id next b.states;
            halfopen_since = leave_halfopen state next up.id b.halfopen_since;
          },
          db_update up threshold state next,
        ))
