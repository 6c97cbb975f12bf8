-- ===== src/Auth/Window.antt =====
-- The five minutes of a signature, internal/middleware/app_auth.go.
use abmcy_core_payment.Base.{
  ℕ, suc, ◌+◌, ◌*◌, ◌^◌, ◌≤◌, ◌<◌, ◌≡◌, refl, Bool, true, false, ◌||◌, ◌-◌, ltb, not, ◌&&◌, arith,
  leb, if◌then◌else◌,
}
use abmcy_core_payment.Int64.{
  ℤ, pos, negsuc, FitsInt64, sub_ℕ, ◌+ℤ◌, ◌-ℤ◌, ◌*ℤ◌, ltb_ℤ, wrap, neg64,
}
use abmcy_core_payment.Auth.{saturate, since, unix_to_internal, signature_max_age, is_recent}

-- Five minutes, in nanoseconds.
abbrev pub window : ℕ
window = 300 * 10 ^ 9

-- The time since a second that is not before 1970 and does not overflow when it is counted from the
-- year 1.
since-pos :
    (now t : ℕ)
    → t + unix_to_internal < 2 ^ 63
    → since now (pos t) ≡ saturate (sub_ℕ now (t * 10 ^ 9))
unfolding since wrap ◌+ℤ◌ ◌-ℤ◌ ◌*ℤ◌
since-pos now t h = ground arith

-- What is left of `is_recent` when the age is known.
abbrev pub is_young : ℤ → Bool
is_young age =
    let age' = if ltb_ℤ age (pos 0) then neg64 age else age in not (ltb_ℤ signature_max_age age')

saturate_young :
    (now b : ℕ)
    → now < 2 ^ 63
    → b < now + 2 ^ 63
    → is_young (saturate (sub_ℕ now b)) ≡ (leb now (b + window) && leb b (now + window))
unfolding saturate neg64 wrap ◌-ℤ◌
saturate_young now b h k = ground arith

is_recent-window :
    (now t : ℕ)
    → now < 2 ^ 63
    → t + unix_to_internal < 2 ^ 63
    → t * 10 ^ 9 < now + 2 ^ 63
    → is_recent now (pos t) ≡ (leb now (t * 10 ^ 9 + window) && leb (t * 10 ^ 9) (now + window))
unfolding is_recent
is_recent-window now t h k near = rw (since-pos now t k) (saturate_young now (t * 10 ^ 9) h near)

saturate_old : (now b : ℕ) → now + 2 ^ 63 ≤ b → is_young (saturate (sub_ℕ now b)) ≡ true
unfolding saturate neg64 wrap ◌-ℤ◌
saturate_old now b h = ground arith

is_recent-far :
    (now t : ℕ)
    → t + unix_to_internal < 2 ^ 63
    → now + 2 ^ 63 ≤ t * 10 ^ 9
    → is_recent now (pos t) ≡ true
unfolding is_recent
is_recent-far now t k far = rw (since-pos now t k) (saturate_old now (t * 10 ^ 9) far)

-- The second `ts` is within five minutes of the clock `now`, on either side.
abbrev pub is_near : ℕ → ℤ → Bool
is_near now (pos t) = leb now (t * 10 ^ 9 + window) && leb (t * 10 ^ 9) (now + window)
is_near now (negsuc t) = leb (now + suc t * 10 ^ 9) window

-- It is 2^63 nanoseconds or more ahead, and an int64 also when it is counted from the year 1.
abbrev pub is_far : ℕ → ℤ → Bool
is_far now (pos t) = leb (now + 2 ^ 63) (t * 10 ^ 9) && ltb (t + unix_to_internal) (2 ^ 63)
is_far now (negsuc t) = false

-- A positive age: it is saturated above.
saturate-pos : (b : ℕ) → is_young (saturate (pos b)) ≡ leb b window
unfolding saturate neg64 wrap ◌-ℤ◌
saturate-pos b = ground arith

since-overflow :
    (now t : ℕ)
    → t < 2 ^ 63
    → 2 ^ 63 ≤ t + unix_to_internal
    → since now (pos t) ≡ saturate (pos (now + (2 ^ 64 - t) * 10 ^ 9))
unfolding since wrap ◌+ℤ◌ ◌-ℤ◌ ◌*ℤ◌
since-overflow now t k over = ground arith

since-negsuc :
    (now t : ℕ) → t < 2 ^ 63 → since now (negsuc t) ≡ saturate (pos (now + suc t * 10 ^ 9))
unfolding since wrap ◌+ℤ◌ ◌-ℤ◌ ◌*ℤ◌
since-negsuc now t k = ground arith

is_recent-overflow :
    (now t : ℕ) → t < 2 ^ 63 → 2 ^ 63 ≤ t + unix_to_internal → is_recent now (pos t) ≡ false
unfolding is_recent
is_recent-overflow now t k over =
    let old : leb (now + (2 ^ 64 - t) * 10 ^ 9) window ≡ false = ground arith in
    rw (since-overflow now t k over, saturate-pos (now + (2 ^ 64 - t) * 10 ^ 9), old)

is_recent-negsuc :
    (now t : ℕ) → t < 2 ^ 63 → is_recent now (negsuc t) ≡ leb (now + suc t * 10 ^ 9) window
unfolding is_recent
is_recent-negsuc now t k = rw (since-negsuc now t k, saturate-pos (now + suc t * 10 ^ 9))

-- A timestamp counts as recent exactly when it is within five minutes of the clock, on either side,
-- or 2^63 nanoseconds or more ahead of it and yet an int64 when it is counted from the year 1. So it
-- is for every int64, while the clock is one too.
pub is_recent-described :
    (now : ℕ) (ts : ℤ)
    → now < 2 ^ 63
    → FitsInt64 ts
    → is_recent now ts ≡ is_near now ts || is_far now ts
is_recent-described now (negsuc t) h fits = let past = is_recent-negsuc now t fits in ground arith
is_recent-described now (pos t) h fits =
    by_tests (ltb (t + unix_to_internal) (2 ^ 63)) (leb (now + 2 ^ 63) (t * 10 ^ 9)) refl refl
  where
    by_tests :
        (a b : Bool)
        → ltb (t + unix_to_internal) (2 ^ 63) ≡ a
        → leb (now + 2 ^ 63) (t * 10 ^ 9) ≡ b
        → is_recent now (pos t) ≡ is_near now (pos t) || is_far now (pos t)
    by_tests false b p q = let over = is_recent-overflow now t fits (ground arith) in ground arith
    by_tests true false p q =
        let near = is_recent-window now t h (ground arith) (ground arith) in ground arith
    by_tests true true p q =
        let far = is_recent-far now t (ground arith) (ground arith) in ground arith
