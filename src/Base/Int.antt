-- ===== src/Base/Int.antt =====
-- Signed integers over the native numbers, for `i32` and `i64` columns.
use Prim.Native.Nat.{ℕ, suc, ◌+◌, ◌-◌, ◌^◌, max, min}
use mathlib.Core.Bool.{Bool}
use nextapi.Base.Tests.{leb, ltb, eqb, if◌then◌else◌}

-- `negsuc n` is -(n + 1).
pub data ℤ : Type 0 where
  pos : ℕ → ℤ
  negsuc : ℕ → ℤ

abbrev pub pos_part : ℤ → ℕ
pos_part (pos n) = n
pos_part (negsuc n) = 0

abbrev pub neg_part : ℤ → ℕ
neg_part (pos n) = 0
neg_part (negsuc n) = suc n

-- `a <= b` and `a < b`.
abbrev pub le_z : ℤ → ℤ → Bool
le_z a b = leb (pos_part a + neg_part b) (pos_part b + neg_part a)

abbrev pub lt_z : ℤ → ℤ → Bool
lt_z a b = ltb (pos_part a + neg_part b) (pos_part b + neg_part a)

abbrev pub eq_z : ℤ → ℤ → Bool
eq_z a b = eqb (pos_part a + neg_part b) (pos_part b + neg_part a)

-- `z.max(1)` and `z.max(0)` as unsigned numbers.
abbrev pub at_least_one : ℤ → ℕ
at_least_one z = max 1 (pos_part z)

-- The difference of two numbers, held within 64 bits.
abbrev pub sat_i64 : (plus minus : ℕ) → ℤ
sat_i64 plus minus =
    if leb minus plus
    then pos (min (plus - minus) (2 ^ 63 - 1))
    else negsuc (min (minus - plus) (2 ^ 63) - 1)

-- `saturating_add` and `saturating_sub`.
abbrev pub sat_add_z : ℤ → ℤ → ℤ
sat_add_z a b = sat_i64 (pos_part a + pos_part b) (neg_part a + neg_part b)

abbrev pub sat_sub_z : ℤ → ℤ → ℤ
sat_sub_z a b = sat_i64 (pos_part a + neg_part b) (neg_part a + pos_part b)

-- `z.max(0)`
abbrev pub not_below_zero : ℤ → ℤ
not_below_zero z = pos (pos_part z)
