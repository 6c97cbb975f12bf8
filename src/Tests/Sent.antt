-- ===== src/Tests/Sent.antt =====
-- An order of a shop that has the row already, whose lookup fails: a second deposit goes out.
use abmcy_core_payment.Base.{ℕ, String-discrete, zero, suc, refl, arith, any, find}
use abmcy_core_payment.Model.{max_amount_for}
use abmcy_core_payment.Int64.{mul64, wrap, ◌*ℤ◌, div64, sub64, ◌-ℤ◌, add64, ◌+ℤ◌}
use abmcy_core_payment.Fees.{compute, capped_fee, started_dollars}
use abmcy_core_payment.Uuid.{abmcy_uuid}
use abmcy_core_payment.World.{Env, Fault, fine, refused}
use abmcy_core_payment.Payments.Pay.{pay}
use abmcy_core_payment.Payments.References.{IsOrphaned, IsRaced, pay-IsOrphaned}
use abmcy_core_payment.Tests.Samples.{calm, shop, shop_app, order, some_request, paid, paid_shop}

-- The first statement is refused.
abbrev first_refused : ℕ → Fault
first_refused zero = refused "timeout"
first_refused (suc n) = fine

abbrev timing_out : Env
timing_out = record calm { fault = first_refused }

raced : IsRaced timing_out shop "app-1" order paid (record paid_shop { tick = 2 })
unfolding any find String-discrete abmcy_uuid compute capped_fee started_dollars mul64 wrap ◌*ℤ◌
    div64 sub64 ◌-ℤ◌ add64 ◌+ℤ◌
raced = record { valid = refl; new = refl; first = refl; second = refl; fits = refl; there = refl }

pay-IsOrphaned_example :
    IsOrphaned timing_out shop paid_shop (pay timing_out shop "app-1" some_request paid_shop).1
unfolding find max_amount_for String-discrete
pay-IsOrphaned_example =
    pay-IsOrphaned timing_out shop "app-1" some_request shop_app order paid "timeout" paid_shop refl
      refl refl refl refl (omega arith) raced
