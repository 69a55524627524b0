-- ===== src/Limit/Status.antt =====
-- src/limit/mod.rs: what `rpm_status` reads against what `check_rpm` does.
use nextapi.Base.{
  ℕ, ◌+◌, ◌-◌, ◌≤◌, ◌<◌, ◌%◌, ◌^◌, ◌≡◌, ◌∙◌, false, some, List, [], ◌∷◌, ltb, leb, length, count,
  arith, ℕ_eq,
}
use nextapi.Entities.{Time, ApiKeyRow}
use nextapi.ApiError.{err, rate_limited}
use nextapi.Limit.{
  Queue, Windows, queue_of, rpm_window, window_allow, drop_expired, check_rpm, rpm_status,
  effective_limit,
}
use nextapi.Limit.Window.{Rising, window_allow_exact, count-le-length}

count_mono :
    (now : ℕ) (q : List ℕ)
    → count (λ t. ltb (now - t) rpm_window) q ≤ count (λ t. leb now (t + rpm_window)) q
count_mono now [] = omega arith
count_mono now (t ∷ q) = ground (arith, count_mono now q)

window_refuses :
    (q : Queue) (now limit last : ℕ)
    → Rising last q
    → length q < 2 ^ 32
    → 0 < limit
    → limit - count (λ t. ltb (now - t) rpm_window) q % 2 ^ 32 ≡ 0
    → (window_allow q now limit rpm_window).1 ≡ false
window_refuses q now limit last r short positive h =
    let fewer = count_mono now q in
    let few : count (λ t. leb now (t + rpm_window)) q ≤ length q =
      count-le-length (λ t. leb now (t + rpm_window)) q in
    window_allow_exact q now limit rpm_window last r short positive ∙ ground arith

-- Where the reading for the response's header says that nothing remains of a positive limit, a request at that time
-- is refused; the key's queue is in order and shorter than 2³².
pub refused_if_none_remain :
    (key : ApiKeyRow) (default_rpm limit last : ℕ) (now : Time) (map : Windows)
    → Rising last (queue_of key.id map)
    → length (queue_of key.id map) < 2 ^ 32
    → 0 < limit
    → effective_limit key default_rpm ≡ some limit
    → rpm_status key default_rpm now map ≡ some (limit, 0)
    → (check_rpm key default_rpm now map).1 ≡ err rate_limited
unfolding rpm_status check_rpm
refused_if_none_remain key default_rpm limit last now map r short positive e h = ground (
  arith,
  e,
  window_refuses (queue_of key.id map) now limit last r short positive (ground (arith, e)),
)

-- A time exactly one window old still counts for the limiter and no more for the reading: with the limit 1 the
-- reading says that one request remains, and a request at that time is refused.
pub remaining_at_the_edge :
    (key : ApiKeyRow) (t : Time) (map : Windows)
    → effective_limit key 0 ≡ some 1
    → queue_of key.id map ≡ t ∷ []
    → (rpm_status key 0 (t + rpm_window) map ≡ some (1, 1))
      × ((check_rpm key 0 (t + rpm_window) map).1 ≡ err rate_limited)
unfolding rpm_status check_rpm window_allow drop_expired
remaining_at_the_edge key t map e q = (
  rw (e, rpm_status) (rw (q, rpm_status) (ground arith)),
  rw (e, check_rpm) (rw (q, check_rpm) (ground arith)),
)
