-- ===== src/Tests/Listed.antt =====
-- The console's lists and figures, of an app with a paid deposit and an older one that is not paid.
use mathlib.Core.List.{Permᴰ}
use mathlib.Core.List.Permᴰ
use text.Mathlib.TextEquality.{eq_iff}
use abmcy_core_payment.Base.{
  String-discrete, none, some, List, [], ◌∷◌, ◌≡◌, ◌≢◌, refl, arith, length, find, filter, ◌*◌, ◌≤◌,
  All,
}
use abmcy_core_payment.Int64.{pos, ◌+ℤ◌}
use abmcy_core_payment.Model.{Payment, PaymentWithApp, type_deposit, type_refund}
use abmcy_core_payment.Orders.Sort.{insert_by, sort_by, sort_by-perm, sort_by-IsOrderedBy}
use abmcy_core_payment.Stats.{Dashboard}
use abmcy_core_payment.World.{World, ok, statement}
use abmcy_core_payment.Repo.Payments.Listing.{
  ListPaymentsFilter, effective_limit, join_apps, matching, wanted_app, list_payments,
}
use abmcy_core_payment.Repo.Payments.Pages.{
  age, IsPage, list_payments-IsPage, collect, collect-IsComplete,
}
use abmcy_core_payment.Repo.Stats.{dashboard}
use abmcy_core_payment.Repo.Stats.Consistent.{HasApp, IsConsistent, dashboard-IsConsistent}
use abmcy_core_payment.Ledger.{IsLedger, IsAccounted}
use abmcy_core_payment.Tests.Samples.{calm, shop_app, paid, paid_shop}

abbrev newer : Payment
newer = record paid {
  id = "id-2";
  app_ref = "order-2";
  diarra_client_ref = "second";
  status = "pending";
  created_at = 5;
}

abbrev busy_shop : World
busy_shop = record paid_shop { payments = paid ∷ newer ∷ [] }

abbrev everything : ListPaymentsFilter
everything = record { app_id = ""; status = ""; limit = pos 0; offset = pos 0 }

abbrev shown : Payment → PaymentWithApp
shown p = record { payment = p; app_name = "shop" }

-- The newer one comes first.
busy_listed : (list_payments calm everything busy_shop).0 ≡ ok (shown newer ∷ shown paid ∷ [])
unfolding list_payments matching join_apps filter find wanted_app effective_limit statement sort_by
    insert_by String-discrete
busy_listed = refl

list_payments-IsPage_example :
    (wanted : _) × (wanted_app calm "" ≡ some wanted)
    × IsPage wanted "" busy_shop (shown newer ∷ shown paid ∷ [])
list_payments-IsPage_example =
    list_payments-IsPage calm everything busy_shop (sort_by-IsOrderedBy age) busy_listed

abbrev one_by_one : ListPaymentsFilter
one_by_one = record everything { limit = pos 1 }

busy_short : length (matching none "" busy_shop) ≤ 2 * effective_limit (pos 1)
unfolding matching join_apps filter find effective_limit String-discrete
busy_short = omega arith

no_app_wanted : wanted_app calm "" ≡ some none
unfolding wanted_app String-discrete
no_app_wanted = refl

collect-IsComplete_example :
    (rows : List PaymentWithApp) × ((collect calm 2 one_by_one busy_shop).0 ≡ ok rows)
    × Permᴰ rows (matching none "" busy_shop)
collect-IsComplete_example =
    collect-IsComplete calm (calm.arrange 0).payments_by_age (λ n. refl) (λ n. refl) 2 one_by_one
      busy_shop none (sort_by-IsOrderedBy age) no_app_wanted refl busy_short

paid-IsAccounted : IsAccounted paid
unfolding ◌+ℤ◌
paid-IsAccounted = record {
  positive = omega arith;
  split = record { fee_nonneg = omega arith; fee_fits = omega arith; adds_up = refl };
  capped = λ _. omega arith;
}

deposit_is_no_refund : type_deposit ≢ type_refund
deposit_is_no_refund = ground (arith, eq_iff type_deposit type_refund)

paid_shop-IsLedger : IsLedger paid_shop.payments
paid_shop-IsLedger = record {
  rows = (paid-IsAccounted, tt);
  links = (deposit_is_no_refund, tt);
  apart = (tt, tt);
}

paid-HasApp : All (HasApp paid_shop.apps) paid_shop.payments
unfolding find String-discrete
paid-HasApp = ((shop_app, refl), tt)

dashboard-IsConsistent_example :
    (d : Dashboard) × ((dashboard calm (pos 30) paid_shop).0 ≡ ok d) × IsConsistent d
dashboard-IsConsistent_example =
    dashboard-IsConsistent calm (λ n. refl) (λ n. refl) (λ n. record { rearranged = Permᴰ.refl })
      (λ n. record { rearranged = sort_by-perm _ }) (pos 30) paid_shop paid_shop-IsLedger
      paid-HasApp
