-- ===== src/Int64/Sums.antt =====
-- The sum of integers does not depend on the order of its terms.
use abmcy_core_payment.Base.{◌≡◌, arith}
use abmcy_core_payment.Int64.{ℤ, pos, negsuc, ◌+ℤ◌}

pub +ℤ_zero : (a : ℤ) → a +ℤ pos 0 ≡ a
unfolding ◌+ℤ◌
+ℤ_zero (pos n) = ground arith
+ℤ_zero (negsuc n) = ground arith

pub +ℤ_comm : (a b : ℤ) → a +ℤ b ≡ b +ℤ a
unfolding ◌+ℤ◌
+ℤ_comm (pos m) (pos n) = ground arith
+ℤ_comm (pos m) (negsuc n) = ground arith
+ℤ_comm (negsuc m) (pos n) = ground arith
+ℤ_comm (negsuc m) (negsuc n) = ground arith

pub +ℤ_assoc : (a b c : ℤ) → (a +ℤ b) +ℤ c ≡ a +ℤ (b +ℤ c)
unfolding ◌+ℤ◌
+ℤ_assoc (pos m) (pos n) (pos k) = ground arith
+ℤ_assoc (pos m) (pos n) (negsuc k) = ground arith
+ℤ_assoc (pos m) (negsuc n) (pos k) = ground arith
+ℤ_assoc (pos m) (negsuc n) (negsuc k) = ground arith
+ℤ_assoc (negsuc m) (pos n) (pos k) = ground arith
+ℤ_assoc (negsuc m) (pos n) (negsuc k) = ground arith
+ℤ_assoc (negsuc m) (negsuc n) (pos k) = ground arith
+ℤ_assoc (negsuc m) (negsuc n) (negsuc k) = ground arith

pub +ℤ_left_comm : (a b c : ℤ) → a +ℤ (b +ℤ c) ≡ b +ℤ (a +ℤ c)
+ℤ_left_comm a b c = grind (arith, +ℤ_assoc a b c, +ℤ_assoc b a c, +ℤ_comm a b)

pub +ℤ_swap : (a b c d : ℤ) → (a +ℤ b) +ℤ (c +ℤ d) ≡ (a +ℤ c) +ℤ (b +ℤ d)
+ℤ_swap a b c d = grind (arith, +ℤ_assoc a b (c +ℤ d), +ℤ_left_comm b c d, +ℤ_assoc a c (b +ℤ d))
