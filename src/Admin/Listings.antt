-- ===== src/Admin/Listings.antt =====
-- internal/handler/admin_handler.go: what the console reads, the figures and the lists.
use abmcy_core_payment.Base.{Option, none, some, List, deref, codes, if◌then◌else◌}
use abmcy_core_payment.Int64.{ℤ, pos, leb_ℤ}
use abmcy_core_payment.Decimal.{parse_int, atoi_value}
use abmcy_core_payment.Model.{App, PaymentWithApp}
use abmcy_core_payment.Stats.{Dashboard}
use abmcy_core_payment.World.{Env, Result, ok, err, M, ◌>>=◌}
use abmcy_core_payment.Http.{Request, Response, apps, payments, stats, respond, http_error}
use abmcy_core_payment.Repo.Apps.{list_apps}
use abmcy_core_payment.Repo.Payments.Listing.{ListPaymentsFilter, list_payments}
use abmcy_core_payment.Repo.Stats.{dashboard}

-- A number of days that is not negative, or thirty.
abbrev pub since_or_thirty : Option ℤ → ℤ
since_or_thirty none = pos 30
since_or_thirty (some n) = if leb_ℤ (pos 0) n then n else pos 30

unfoldable pub since_of : Request → ℤ
since_of r = since_or_thirty (parse_int (codes (deref (r.query "since"))))

unfoldable pub filter_of : Request → ListPaymentsFilter
filter_of r = record {
  app_id = deref (r.query "app_id");
  status = deref (r.query "status");
  limit = atoi_value (codes (deref (r.query "limit")));
  offset = atoi_value (codes (deref (r.query "offset")));
}

module _ (e : Env) where
  abbrev pub stats_shown : Result Dashboard → M Response
  stats_shown (err _) = http_error 500 "stats_failed"
  stats_shown (ok d) = respond 200 (stats d)

  -- GET /admin/stats
  unfoldable pub show_stats : Request → M Response
  unfolding since_of
  show_stats r = do d ← dashboard e (since_of r); stats_shown d

  abbrev pub apps_shown : Result (List App) → M Response
  apps_shown (err _) = http_error 500 "list_failed"
  apps_shown (ok rows) = respond 200 (apps rows)

  -- GET /admin/apps
  unfoldable pub show_apps : Request → M Response
  show_apps r = do rows ← list_apps e; apps_shown rows

  abbrev pub payments_shown : Result (List PaymentWithApp) → M Response
  payments_shown (err _) = http_error 500 "list_failed"
  payments_shown (ok rows) = respond 200 (payments rows)

  -- GET /admin/payments
  unfoldable pub show_payments : Request → M Response
  unfolding filter_of
  show_payments r = do rows ← list_payments e (filter_of r); payments_shown rows
