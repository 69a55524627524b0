-- ===== src/Limit/Quota.antt =====
-- Keys apart, the quota of a key and the cache of its verdict.
use text.Mathlib.Text.{◌==◌ as is_text}
use nextapi.Base.{
  ℕ, ℤ, le_z, ◌+◌, ◌-◌, ◌*◌, ◌≤◌, ◌≡◌, refl, inl, inr, ◌⊎◌, Bool, true, false, ◌&&◌, ◌||◌, not,
  String, Option, none, some, ltb, if◌then◌else◌, Table, lookup, insert, remove, lookup-insert,
  ℕ_eq, ◌==◌, arith, Option-cases,
}
use nextapi.Entities.{Uuid, Time, second, ApiKeyRow}
use nextapi.ApiError.{Result, ok, err, rate_limited, internal}
use nextapi.Limit.{Windows, queue_of, check_rpm, effective_limit, window_allow, rpm_window}

-- What the database answers; `failed` is an error of the query.
pub data Query {ℓ} (A : Type ℓ) : Type ℓ where
  answer : A → Query A
  failed : Query A

abbrev pub is_cost : String → Bool
is_cost unit = is_text unit "cost_cny" || is_text unit "cost_usd"

abbrev usage_unknown : Result (Unit {0})
usage_unknown = err (internal "无法确认用量上限状态")

-- A cost quota counts too little while events of the window are priced without this currency's
-- cost: `na` is their number.
cost_check : String → String → Query ℕ → Result (Unit {0})
cost_check unit action na =
    if is_cost unit
    then elim na [
      | answer n ↦ if ltb 0 n && not (is_text action "warn") then err rate_limited else ok tt
      | failed ↦ if is_text action "warn" then ok tt else usage_unknown
    ]
    else ok tt

-- No row is no usage.
abbrev pub used : Option ℤ → ℤ
used none = ℤ.pos 0
used (some v) = v

-- The usage of the window against the limit.
usage_check : ℤ → String → Query (Option ℤ) → Result (Unit {0})
usage_check limit action usage = elim usage [
  | failed ↦ if is_text action "warn" then ok tt else usage_unknown
  | answer row ↦
      if le_z limit (used row) && not (is_text action "warn") then err rate_limited else ok tt
]

-- Decimals are integers in units of their least digit. The two queries are about the window that
-- begins at `window_start`.
unfoldable pub check_quota : ApiKeyRow → String → Query ℕ → Query (Option ℤ) → Result (Unit {0})
unfolding cost_check usage_check
check_quota key action na usage = elim key.quota_limit [
  | none ↦ ok tt
  | some limit ↦ elim key.quota_unit [
    | none ↦ ok tt
    | some unit ↦ elim key.quota_window [
      | none ↦ ok tt
      | some window ↦ elim (cost_check unit action na) [
        | ok _ ↦ usage_check limit action usage
        | err e ↦ err e
      ]
    ]
  ]
]

-- In the warning mode a quota never stops a request, whatever the database says.
pub warn_passes :
    (key : ApiKeyRow) (na : Query ℕ) (usage : Query (Option ℤ))
    → check_quota key "warn" na usage ≡ ok tt
unfolding check_quota
warn_passes key na usage = ground arith

cost_closed :
    (unit action : String) (na : Query ℕ)
    → is_text action "warn" ≡ false
    → cost_check unit action na ≡ ok tt
    → is_cost unit ≡ true
    → na ≡ answer 0
unfolding cost_check
cost_closed unit action na m h c = ground arith

usage_closed :
    (limit : ℤ) (action : String) (usage : Query (Option ℤ))
    → is_text action "warn" ≡ false
    → usage_check limit action usage ≡ ok tt
    → (row : Option ℤ) × (usage ≡ answer row) × (le_z limit (used row) ≡ false)
unfolding usage_check
usage_closed limit action failed m h = absurd (ground arith)
usage_closed limit action (answer none) m h = (none, refl, ground arith)
usage_closed limit action (answer (some v)) m h = (some v, refl, ground arith)

both_pass :
    (key : ApiKeyRow) (limit : ℤ) (unit window action : String) (na : Query ℕ)
    (usage : Query (Option ℤ))
    → key.quota_limit ≡ some limit
    → key.quota_unit ≡ some unit
    → key.quota_window ≡ some window
    → check_quota key action na usage ≡ ok tt
    → (cost_check unit action na ≡ ok tt) × (usage_check limit action usage ≡ ok tt)
unfolding check_quota
both_pass key limit unit window action na usage l u w h = ground arith

-- In any mode but the warning mode the check fails closed: a key whose limit, unit and window are set passes only if
-- the usage was read and is below the limit, and, for a cost quota, only if no event's cost is missing.
pub block_is_closed :
    (key : ApiKeyRow) (limit : ℤ) (unit window action : String) (na : Query ℕ)
    (usage : Query (Option ℤ))
    → key.quota_limit ≡ some limit
    → key.quota_unit ≡ some unit
    → key.quota_window ≡ some window
    → is_text action "warn" ≡ false
    → check_quota key action na usage ≡ ok tt
    → (is_cost unit ≡ true → na ≡ answer 0)
      × ((row : Option ℤ) × (usage ≡ answer row) × (le_z limit (used row) ≡ false))
unfolding check_quota
block_is_closed key limit unit window action na usage l u w m h =
    let (c, v) = both_pass key limit unit window action na usage l u w h in
    (cost_closed unit action na m c, usage_closed limit action usage m v)

-- The verdict of a key, and when it was made.
abbrev pub QuotaCache : Type 0
QuotaCache = Table Uuid (Bool × Time)

unfoldable pub get_verdict : Uuid → ℕ → Time → QuotaCache → Option Bool
get_verdict id ttl_secs now cache = elim (lookup id cache) [
  | none ↦ none
  | some (exceeded, made) ↦ if ltb (now - made) (ttl_secs * second) then some exceeded else none
]

unfoldable pub put_verdict : Uuid → Bool → Time → QuotaCache → QuotaCache
put_verdict id exceeded now cache = insert id (exceeded, now) cache

unfoldable pub remove_verdict : Uuid → QuotaCache → QuotaCache
remove_verdict id cache = remove id cache

-- From when it was made on, a verdict is served for its own key until it is `ttl_secs` old, and never after; other
-- keys' verdicts are untouched.
pub get-put_verdict :
    (id j : Uuid) (exceeded : Bool) (ttl_secs made now : ℕ) (cache : QuotaCache)
    → made ≤ now
    → get_verdict j ttl_secs now (put_verdict id exceeded made cache) ≡ (
        if id == j
        then (if ltb now (made + ttl_secs * second) then some exceeded else none)
        else get_verdict j ttl_secs now cache)
unfolding get_verdict put_verdict
get-put_verdict id j exceeded ttl_secs made now cache h =
    ground (arith, lookup-insert id j (exceeded, made) cache)

-- A request of one key leaves the window of every other key alone, and a key without a limit
-- leaves its own.
pub check_rpm_apart :
    (key : ApiKeyRow) (default_rpm : ℕ) (now : Time) (map : Windows) (j : Uuid)
    → ((key.id == j) ≡ false) ⊎ (effective_limit key default_rpm ≡ none)
    → queue_of j (check_rpm key default_rpm now map).0 ≡ queue_of j map
unfolding check_rpm
check_rpm_apart key default_rpm now map j h =
    elim (Option-cases (effective_limit key default_rpm)) [
      | inl e ↦ rw (e, check_rpm) refl
      | inr (limit, e) ↦
          rw (e, check_rpm)
            (ground (
              arith,
              e,
              lookup-insert key.id j (window_allow (queue_of key.id map) now limit rpm_window).0
                  map,
            ))
    ]
