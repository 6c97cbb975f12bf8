-- ===== src/Repo/Stats.antt =====
-- The queries of Dashboard in internal/repository/stats_repo.go.
pub mod Consistent
use abmcy_core_payment.Base.{
  ℕ, take, String, Bool, true, false, ◌&&◌, Option, none, some, List, ◌==◌, filter, if◌then◌else◌,
}
use abmcy_core_payment.Int64.{ℤ, pos, ltb_ℤ, leb_ℤ, neg64}
use abmcy_core_payment.Model.{Payment, PaymentWithApp, type_payout}
use abmcy_core_payment.Stats.{
  Totals, ByType, ByApp, ByOperator, Dashboard, totals_of, types_of, apps_of, operators_of,
}
use abmcy_core_payment.World.{World, Env, Result, ok, M, pure, ◌>>=◌, statement, on_ok}
use abmcy_core_payment.Repo.Payments.Listing.{join_apps}

-- created_at >= $1, or TRUE
abbrev pub within : Option ℤ → Payment → Bool
within none p = true
within (some t) p = leb_ℤ t (pos p.created_at)

abbrev pub recent : Option ℤ → List Payment → List Payment
recent cut = filter (within cut)

abbrev pub recent_with_app : Option ℤ → World → List PaymentWithApp
recent_with_app cut w = filter (λ pw. within cut pw.payment) (join_apps w.apps w.payments)

abbrev pub has_operator : Option String → Bool
has_operator none = false
has_operator (some _) = true

abbrev pub is_paid_out : Payment → Bool
is_paid_out p = p.kind == type_payout && has_operator p.recipient_operator

abbrev pub recent_payouts : Option ℤ → List Payment → List Payment
recent_payouts cut = filter λ p. is_paid_out p && within cut p

-- The rows that `rows.Next()` gives: the loops do not look at `rows.Err()`, so an answer that breaks
-- off is a shorter one.
abbrev pub arriving : {A : Type 0} → Option ℕ → List A → List A
arriving none rows = rows
arriving (some n) rows = take n rows

module _ (e : Env) where
  -- The time that the figures start from, if they do not start from the first payment.
  abbrev pub cutoff : ℤ → World → Option ℤ
  cutoff since w =
      if ltb_ℤ (pos 0) since then some (e.add_days (e.now w.tick) (neg64 since)) else none

  unfoldable pub read_totals : Option ℤ → M (Result Totals)
  read_totals cut = statement e λ w. (ok (totals_of (recent cut w.payments)), w)

  unfoldable pub read_types : Option ℤ → M (Result (List ByType))
  read_types cut w =
      statement e
        (λ v. (
          ok (
              arriving (e.breaks_off w.tick)
                ((e.arrange w.tick).types_by_name (types_of (recent cut v.payments)))),
          v,
        ))
        w

  unfoldable pub read_apps : Option ℤ → M (Result (List ByApp))
  read_apps cut w =
      statement e
        (λ v. (
          ok (
              arriving (e.breaks_off w.tick)
                ((e.arrange w.tick).apps_by_fee (apps_of (recent_with_app cut v)))),
          v,
        ))
        w

  unfoldable pub read_operators : Option ℤ → M (Result (List ByOperator))
  read_operators cut w =
      statement e
        (λ v. (
          ok (
              arriving (e.breaks_off w.tick) (
                (e.arrange w.tick).operators_by_count
                  (operators_of (recent_payouts cut v.payments)))),
          v,
        ))
        w

  abbrev pub with_operators :
      ℤ → Totals → List ByType → List ByApp → List ByOperator → M (Result Dashboard)
  with_operators since totals types apps operators = pure (
      ok (record {
        since_days = since;
        totals = totals;
        by_type = types;
        by_app = apps;
        by_operator = operators;
      }))

  abbrev pub with_apps : ℤ → Option ℤ → Totals → List ByType → List ByApp → M (Result Dashboard)
  with_apps since cut totals types apps = do
    operators ← read_operators cut
    on_ok operators (with_operators since totals types apps)

  abbrev pub with_types : ℤ → Option ℤ → Totals → List ByType → M (Result Dashboard)
  with_types since cut totals types = do
    apps ← read_apps cut
    on_ok apps (with_apps since cut totals types)

  abbrev pub with_totals : ℤ → Option ℤ → Totals → M (Result Dashboard)
  with_totals since cut totals = do
    types ← read_types cut
    on_ok types (with_types since cut totals)

  unfoldable pub dashboard : ℤ → M (Result Dashboard)
  dashboard since w = dashboard_since (cutoff since w) w
    where
      dashboard_since : Option ℤ → M (Result Dashboard)
      dashboard_since cut = do totals ← read_totals cut; on_ok totals (with_totals since cut)
