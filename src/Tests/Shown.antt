-- ===== src/Tests/Shown.antt =====
-- The amount on the hosted page.
use abmcy_core_payment.Base.{filter, ◌≡◌}
use abmcy_core_payment.Int64.{pos}
use abmcy_core_payment.Decimal.{format_int}
use abmcy_core_payment.Payments.Hosted.{group_thousands}
use abmcy_core_payment.Payments.Hosted.Digits.{is_digit, digits-group_thousands}

digits-group_thousands_example :
    filter is_digit (group_thousands (pos 1_000_000)) ≡ format_int (pos 1_000_000)
digits-group_thousands_example = digits-group_thousands (pos 1_000_000)
