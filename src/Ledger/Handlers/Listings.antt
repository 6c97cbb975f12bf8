-- ===== src/Ledger/Handlers/Listings.antt =====
-- The lists and the figures of the console write nothing, so they keep the ledger.
use abmcy_core_payment.Base.{String, Option, none, some, List, refl, arith, deref}
use abmcy_core_payment.Int64.{ℤ}
use abmcy_core_payment.Model.{App, PaymentWithApp, SignupRequest}
use abmcy_core_payment.Stats.{Totals, ByType, ByApp, ByOperator, Dashboard}
use abmcy_core_payment.World.{Env, Result, ok, err, on_ok}
use abmcy_core_payment.World.Keeps.{
  Keeps, Reads, Reads-made, Reads-statement, Triple-after, Triple-bind, Keeps-pure,
}
use abmcy_core_payment.Http.{Request, error, apps, payments, signups, stats}
use abmcy_core_payment.Repo.Apps.{list_apps}
use abmcy_core_payment.Repo.Signups.{list_signups}
use abmcy_core_payment.Repo.Payments.Listing.{
  ListPaymentsFilter, wanted_app, select_page, list_payments,
}
use abmcy_core_payment.Repo.Stats.{
  cutoff, read_totals, read_types, read_apps, read_operators, with_operators, with_apps, with_types,
  with_totals, dashboard,
}
use abmcy_core_payment.Admin.Listings.{
  since_of, filter_of, stats_shown, show_stats, apps_shown, show_apps, payments_shown,
  show_payments,
}
use abmcy_core_payment.Signup.{signups_shown, show_signups}
use abmcy_core_payment.Ledger.{IsLedger}
use abmcy_core_payment.Ledger.Respond.{Keeps-respond}

module _ (e : Env) where
  pub list_apps-Reads : Reads (list_apps e)
  unfolding list_apps
  list_apps-Reads = Reads-made e _ λ v. record { same = λ w. refl }

  list_signups-Reads : (status : String) → Reads (list_signups e status)
  unfolding list_signups
  list_signups-Reads status = Reads-made e _ λ v. record { same = λ w. refl }

  select_page-Reads :
      (f : ListPaymentsFilter) (order : List PaymentWithApp → List PaymentWithApp)
      (wanted : Option (Option String))
      → Reads (select_page e f order wanted)
  select_page-Reads f order none = record { same = λ w. refl }
  select_page-Reads f order (some wanted) = record { same = λ w. ground arith }

  list_payments-Reads : (f : ListPaymentsFilter) → Reads (list_payments e f)
  unfolding list_payments
  list_payments-Reads f =
      Reads-made e _
        λ v. select_page-Reads f ((e.arrange v.tick).payments_by_age) (wanted_app e f.app_id)

  with_apps-Keeps :
      (since : ℤ) (cut : Option ℤ) (totals : Totals) (types : List ByType) (r : Result (List ByApp))
      → Keeps IsLedger (on_ok r (with_apps e since cut totals types))
  unfolding read_operators
  with_apps-Keeps since cut totals types (err x) = Keeps-pure (err x)
  with_apps-Keeps since cut totals types (ok rows) =
      Triple-after (Reads-made e _ λ v. record { same = λ w. refl }) by_result
    where
      by_result :
          (r : Result (List ByOperator))
          → Keeps IsLedger (on_ok r (with_operators e since totals types rows))
      by_result (err x) = Keeps-pure (err x)
      by_result (ok o) = Keeps-pure _

  with_types-Keeps :
      (since : ℤ) (cut : Option ℤ) (totals : Totals) (r : Result (List ByType))
      → Keeps IsLedger (on_ok r (with_types e since cut totals))
  unfolding read_apps
  with_types-Keeps since cut totals (err x) = Keeps-pure (err x)
  with_types-Keeps since cut totals (ok types) =
      Triple-after (Reads-made e _ λ v. record { same = λ w. refl })
        (with_apps-Keeps since cut totals types)

  with_totals-Keeps :
      (since : ℤ) (cut : Option ℤ) (r : Result Totals)
      → Keeps IsLedger (on_ok r (with_totals e since cut))
  unfolding read_types
  with_totals-Keeps since cut (err x) = Keeps-pure (err x)
  with_totals-Keeps since cut (ok totals) =
      Triple-after (Reads-made e _ λ v. record { same = λ w. refl })
        (with_types-Keeps since cut totals)

  dashboard-Keeps : (since : ℤ) → Keeps IsLedger (dashboard e since)
  unfolding dashboard read_totals
  dashboard-Keeps since = record { at = λ w l. (from (cutoff e since w)).at w l }
    where
      from :
          (cut : Option ℤ)
          → Keeps IsLedger
              (λ w. let (a, v) = read_totals e cut w in on_ok a (with_totals e since cut) v)
      from cut =
          Triple-after (Reads-statement e _ (record { same = λ w. refl }))
            (with_totals-Keeps since cut)

  stats_shown-Keeps : (r : Result Dashboard) → Keeps IsLedger (stats_shown e r)
  stats_shown-Keeps (err x) = Keeps-respond 500 (error "stats_failed")
  stats_shown-Keeps (ok d) = Keeps-respond 200 (stats d)

  pub show_stats-Keeps : (r : Request) → Keeps IsLedger (show_stats e r)
  unfolding show_stats
  show_stats-Keeps r = Triple-bind _ _ (dashboard-Keeps (since_of r)) stats_shown-Keeps

  apps_shown-Keeps : (r : Result (List App)) → Keeps IsLedger (apps_shown e r)
  apps_shown-Keeps (err x) = Keeps-respond 500 (error "list_failed")
  apps_shown-Keeps (ok rows) = Keeps-respond 200 (apps rows)

  pub show_apps-Keeps : (r : Request) → Keeps IsLedger (show_apps e r)
  unfolding show_apps
  show_apps-Keeps r = Triple-after list_apps-Reads apps_shown-Keeps

  payments_shown-Keeps : (r : Result (List PaymentWithApp)) → Keeps IsLedger (payments_shown e r)
  payments_shown-Keeps (err x) = Keeps-respond 500 (error "list_failed")
  payments_shown-Keeps (ok rows) = Keeps-respond 200 (payments rows)

  pub show_payments-Keeps : (r : Request) → Keeps IsLedger (show_payments e r)
  unfolding show_payments
  show_payments-Keeps r = Triple-after (list_payments-Reads (filter_of r)) payments_shown-Keeps

  signups_shown-Keeps : (r : Result (List SignupRequest)) → Keeps IsLedger (signups_shown e r)
  signups_shown-Keeps (err x) = Keeps-respond 500 (error "list_failed")
  signups_shown-Keeps (ok rows) = Keeps-respond 200 (signups rows)

  pub show_signups-Keeps : (r : Request) → Keeps IsLedger (show_signups e r)
  unfolding show_signups
  show_signups-Keeps r =
      Triple-after (list_signups-Reads (deref (r.query "status"))) signups_shown-Keeps
