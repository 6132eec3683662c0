-- ===== src/Types/Int.antt =====
-- `i64` as an integer, with the wrap-around of `n + 1` in a release build.
use crabforge.Prelude.{
  Bool, true, false, ltb, ℕ, zero, suc, ◌+◌, ◌-◌, ◌^◌, ◌<◌, ◌≡◌, arith, ◌==◌, if◌then◌else◌,
}

-- `negsuc n` is -(n + 1).
pub data ℤ : Type 0 where
  pos : ℕ → ℤ
  negsuc : ℕ → ℤ

abbrev pub i64_top : ℕ
i64_top = 2 ^ 63 - 1

-- `n + 1`
unfoldable pub succ_i64 : ℤ → ℤ
succ_i64 (pos n) = if n == i64_top then negsuc i64_top else pos (n + 1)
succ_i64 (negsuc zero) = pos 0
succ_i64 (negsuc (suc n)) = negsuc n

pub succ_i64-pos : (n : ℕ) → n < i64_top → succ_i64 (pos n) ≡ pos (n + 1)
unfolding succ_i64
succ_i64-pos n h = ground arith

-- `n - 1`, of an offset that is not negative
unfoldable pub minus_one : ℕ → ℤ
minus_one zero = negsuc 0
minus_one (suc n) = pos n

-- `a > b`
unfoldable pub gt_i64 : ℤ → ℤ → Bool
gt_i64 (pos a) (pos b) = ltb b a
gt_i64 (pos a) (negsuc b) = true
gt_i64 (negsuc a) (pos b) = false
gt_i64 (negsuc a) (negsuc b) = ltb a b
