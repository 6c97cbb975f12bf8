-- ===== src/Int64/Laws.antt =====
-- Where no operation leaves the 64 bits it is the operation on the integers.
use abmcy_core_payment.Base.{ℕ, ◌+◌, ◌-◌, ◌*◌, ◌/◌, ◌^◌, ◌≤◌, ◌<◌, ◌≡◌, arith}
use abmcy_core_payment.Int64.{
  ℤ, pos, negsuc, ◌+ℤ◌, ◌-ℤ◌, ◌*ℤ◌, wrap, add64, sub64, mul64, div64, FitsInt64,
}

-- Wrapping keeps what fits.
pub wrap-eq : (a : ℤ) → FitsInt64 a → wrap a ≡ a
unfolding wrap
wrap-eq (pos n) h = ground arith
wrap-eq (negsuc n) h = ground arith

-- Whatever is computed, an int64 holds it.
pub wrap-FitsInt64 : (a : ℤ) → FitsInt64 (wrap a)
unfolding wrap
wrap-FitsInt64 (pos n) = ground arith
wrap-FitsInt64 (negsuc n) = ground arith

pub add64-pos : (a b : ℕ) → a + b < 2 ^ 63 → add64 (pos a) (pos b) ≡ pos (a + b)
unfolding add64 wrap ◌+ℤ◌
add64-pos a b h = ground arith

pub sub64-pos : (a b : ℕ) → a < 2 ^ 63 → b ≤ a → sub64 (pos a) (pos b) ≡ pos (a - b)
unfolding sub64 wrap ◌-ℤ◌
sub64-pos a b h k = ground arith

pub mul64-pos : (a b : ℕ) → a * b < 2 ^ 63 → mul64 (pos a) (pos b) ≡ pos (a * b)
unfolding mul64 wrap ◌*ℤ◌
mul64-pos a b h = ground arith

pub div64-pos : (a b : ℕ) → a / b < 2 ^ 63 → div64 (pos a) (pos b) ≡ pos (a / b)
unfolding div64 wrap
div64-pos a b h = ground arith

-- A sum of two int64 past the largest becomes negative.
pub add64_over :
    (a b : ℕ)
    → 2 ^ 63 ≤ a + b
    → a + b < 2 ^ 64
    → add64 (pos a) (pos b) ≡ negsuc (2 ^ 64 - 1 - (a + b))
unfolding add64 wrap ◌+ℤ◌
add64_over a b h k = ground arith

pub sub64-negsuc : (n b : ℕ) → n + b < 2 ^ 63 → sub64 (negsuc n) (pos b) ≡ negsuc (n + b)
unfolding sub64 wrap ◌-ℤ◌
sub64-negsuc n b h = ground arith

pub sub64_over :
    (n b : ℕ)
    → 2 ^ 63 ≤ n + b
    → n + b < 2 ^ 64
    → sub64 (negsuc n) (pos b) ≡ pos (2 ^ 64 - 1 - (n + b))
unfolding sub64 wrap ◌-ℤ◌
sub64_over n b h k = ground arith
