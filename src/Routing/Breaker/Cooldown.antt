-- ===== src/Routing/Breaker/Cooldown.antt =====
-- The cooldown doubles with each opening, up to half an hour.
use Prim.Native.Nat.{min}
use native.Mathlib.Nat.{pow-suc}
use nextapi.Base.{ℕ, zero, suc, ◌+◌, ◌*◌, ◌^◌, ◌≤◌, ◌≡◌, refl, arith}
use nextapi.Routing.Breaker.{cooldown_secs}

pow_pos : (n : ℕ) → 1 ≤ 2 ^ n
pow_pos zero = omega arith
pow_pos (suc n) = rw pow-suc (omega (arith, pow_pos n))

pow_five : (n : ℕ) → 2 ^ suc (suc (suc (suc (suc n)))) ≡ 32 * 2 ^ n
pow_five n = simp pow-suc (omega arith)

shift_five : (n : ℕ) → min (suc (suc (suc (suc (suc n))))) 62 ≡ 5 + min n 57
shift_five n = omega arith

thirty_two : (n : ℕ) {k : ℕ} → k ≡ suc (suc (suc (suc (suc n)))) → 32 ≤ 2 ^ k
thirty_two n e = rw (e, pow_five n) (omega (arith, pow_pos n))

capped :
    (p q : ℕ) → 32 ≤ p → 32 ≤ q → min (min 9223372036854775807 (60 * p)) 1800 ≡ min (60 * q) 1800
capped p q hp hq = omega arith

-- For every count of openings the cooldown is 60 s doubled as often, and at most 1800 s; the
-- saturating product and the bound on the shift never show.
pub cooldown_secs_lem : (n : ℕ) → cooldown_secs n ≡ min (60 * 2 ^ n) 1800
unfolding cooldown_secs
cooldown_secs_lem zero = refl
cooldown_secs_lem (suc zero) = refl
cooldown_secs_lem (suc (suc zero)) = refl
cooldown_secs_lem (suc (suc (suc zero))) = refl
cooldown_secs_lem (suc (suc (suc (suc zero)))) = refl
cooldown_secs_lem (suc (suc (suc (suc (suc n))))) = rw (shift_five n) (
    capped (2 ^ (5 + min n 57)) (2 ^ suc (suc (suc (suc (suc n)))))
      (thirty_two (min n 57) (omega arith)) (thirty_two n (omega arith)))
