-- ===== src/Repo/Stats/Consistent.antt =====
-- The figures of the console agree with each other.
use abmcy_core_payment.Base.{
  ℕ, ◌+◌, String, Bool, true, false, Option, none, some, List, [], ◌∷◌, ◌≡◌, refl, sym, ap, ◌∙◌,
  All, filter, find, ◌==◌, if◌then◌else◌, All-filter,
}
use abmcy_core_payment.Int64.{ℤ, pos, ◌+ℤ◌}
use abmcy_core_payment.Model.{App, Payment, PaymentWithApp}
use abmcy_core_payment.Stats.{
  ByType, ByApp, Dashboard, sum, Group, groups, amount_of, fee_of, net_of, net_or, totals_of,
  types_of, operators_of, type_figures, apps_of, app_figures, same_app, app_key,
}
use abmcy_core_payment.Stats.Sums.{one, sum-one, sum-map, sum-perm, sum_same, sum-add, sum-groups}
use abmcy_core_payment.World.{World, Env, fine, ok, statement}
use abmcy_core_payment.Orders.{IsRearranging}
use abmcy_core_payment.Repo.Payments.Listing.{join_apps}
use abmcy_core_payment.Repo.Stats.{
  recent, recent_with_app, recent_payouts, within, cutoff, read_totals, read_types, read_apps,
  read_operators, dashboard,
}
use abmcy_core_payment.Ledger.{IsLedger, IsAccounted, HasSplit}

-- Every payment is of an app, as the foreign key says.
abbrev pub HasApp : List App → Payment → Type 0
HasApp apps p = (a : App) × (find (λ (a : App). a.id == p.app_id) apps ≡ some a)

join_apps-nil : (apps : List App) → join_apps apps [] ≡ []
unfolding join_apps
join_apps-nil apps = refl

join_apps-cons :
    (apps : List App) (p : Payment) (ps : List Payment) (a : App)
    → find (λ (a : App). a.id == p.app_id) apps ≡ some a
    → join_apps apps (p ∷ ps) ≡ record { payment = p; app_name = a.name } ∷ join_apps apps ps
unfolding join_apps
join_apps-cons apps p ps a found =
    ap
      (λ o. elim o [
        | none ↦ join_apps apps ps
        | some a ↦ record { payment = p; app_name = a.name } ∷ join_apps apps ps
      ])
      found

-- The sum of a column over the rows with their apps is the sum over the rows.
sum-join :
    (f : Payment → ℤ) (cut : Option ℤ) (apps : List App) (ps : List Payment)
    → All (HasApp apps) ps
    → sum
        (λ (pw : PaymentWithApp). f pw.payment)
        (filter (λ pw. within cut pw.payment) (join_apps apps ps))
      ≡ sum f (recent cut ps)
unfolding sum filter
sum-join f cut apps [] h = rw (join_apps-nil apps)
sum-join f cut apps (p ∷ ps) ((a, found), h) =
    rw (join_apps-cons apps p ps a found) (by_cut (sum-join f cut apps ps h) (within cut p))
  where
    by_cut :
        sum
            (λ (pw : PaymentWithApp). f pw.payment)
            (filter (λ pw. within cut pw.payment) (join_apps apps ps))
          ≡ sum f (recent cut ps)
        → (b : Bool)
        → sum
            (λ (pw : PaymentWithApp). f pw.payment)
            (if b
              then record { payment = p; app_name = a.name }
                ∷ filter (λ pw. within cut pw.payment) (join_apps apps ps)
              else filter (λ pw. within cut pw.payment) (join_apps apps ps))
          ≡ sum f (if b then p ∷ recent cut ps else recent cut ps)
    by_cut ih true = rw ih
    by_cut ih false = ih

sum-types_of :
    (f : Payment → ℤ) (g : ByType → ℤ)
    → ((x : Group String Payment) → g (type_figures x) ≡ sum f x.rows)
    → (ps : List Payment) → sum g (types_of ps) ≡ sum f ps
unfolding types_of
sum-types_of f g same ps =
    let gs = groups ◌==◌ (λ (p : Payment). p.kind) ps in
    sum-map g type_figures gs
    ∙ sum_same (λ x. g (type_figures x)) (λ x. sum f x.rows) gs (each gs)
    ∙ sum-groups ◌==◌ (λ (p : Payment). p.kind) f ps
  where
    each : (gs : List (Group String Payment)) → All (λ x. g (type_figures x) ≡ sum f x.rows) gs
    each [] = tt
    each (x ∷ gs) = (same x, each gs)

sum-apps_of :
    (f : PaymentWithApp → ℤ) (g : ByApp → ℤ)
    → ((x : Group (String × String) PaymentWithApp) → g (app_figures x) ≡ sum f x.rows)
    → (ps : List PaymentWithApp) → sum g (apps_of ps) ≡ sum f ps
unfolding apps_of
sum-apps_of f g same ps =
    let gs = groups same_app app_key ps in
    sum-map g app_figures gs
    ∙ sum_same (λ x. g (app_figures x)) (λ x. sum f x.rows) gs (each gs)
    ∙ sum-groups same_app app_key f ps
  where
    each :
        (gs : List (Group (String × String) PaymentWithApp))
        → All (λ x. g (app_figures x) ≡ sum f x.rows) gs
    each [] = tt
    each (x ∷ gs) = (same x, each gs)

-- Amount, commission and number of the types, and of the apps, add up to the totals; commission and
-- net add up to the amount.
pub record IsConsistent (d : Dashboard) : Type 0 where
  pub amounts_by_type : sum (λ (t : ByType). t.amount_cfa) d.by_type ≡ d.totals.amount_cfa
  pub fees_by_type : sum (λ (t : ByType). t.fee_cfa) d.by_type ≡ d.totals.fee_cfa
  pub counts_by_type : sum (λ (t : ByType). pos t.count) d.by_type ≡ pos d.totals.count
  pub amounts_by_app : sum (λ (a : ByApp). a.amount_cfa) d.by_app ≡ d.totals.amount_cfa
  pub fees_by_app : sum (λ (a : ByApp). a.fee_cfa) d.by_app ≡ d.totals.fee_cfa
  pub counts_by_app : sum (λ (a : ByApp). pos a.count) d.by_app ≡ pos d.totals.count
  pub balanced : d.totals.fee_cfa +ℤ d.totals.net_cfa ≡ d.totals.amount_cfa

-- What a ledger says of the amount of a row.
adds_up : (p : Payment) → IsAccounted p → amount_of p ≡ fee_of p +ℤ net_of p
adds_up p a = by_net p.net_cfa a.split
  where
    by_net :
        (net : Option ℤ)
        → HasSplit p.amount_cfa p.fee_cfa net
        → p.amount_cfa ≡ p.fee_cfa +ℤ net_or net p.amount_cfa p.fee_cfa
    by_net none h = absurd h
    by_net (some net) h = sym h.adds_up

totals_of-balanced :
    (ps : List Payment)
    → All (λ p. amount_of p ≡ fee_of p +ℤ net_of p) ps
    → (totals_of ps).fee_cfa +ℤ (totals_of ps).net_cfa ≡ (totals_of ps).amount_cfa
unfolding totals_of
totals_of-balanced ps h =
    sym (sum_same amount_of (λ p. fee_of p +ℤ net_of p) ps h ∙ sum-add fee_of net_of ps)

module _ (e : Env) (calm : (n : ℕ) → e.fault n ≡ fine)
    (whole : (n : ℕ) → e.breaks_off n ≡ none) where
  -- Where the four statements run, the figures are those of the rows since the cutoff.
  abbrev pub figures : ℤ → Option ℤ → World → Dashboard
  figures since cut w = record {
    since_days = since;
    totals = totals_of (recent cut w.payments);
    by_type = (e.arrange (w.tick + 1)).types_by_name (types_of (recent cut w.payments));
    by_app = (e.arrange (w.tick + 1 + 1)).apps_by_fee (apps_of (recent_with_app cut w));
    by_operator =
        (e.arrange (w.tick + 1 + 1 + 1)).operators_by_count
          (operators_of (recent_payouts cut w.payments));
  }

  dashboard-figures :
      (since : ℤ) (w : World) → (dashboard e since w).0 ≡ ok (figures since (cutoff e since w) w)
  unfolding dashboard read_totals read_types read_apps read_operators statement
  dashboard-figures since w = rw (
    calm w.tick,
    calm (w.tick + 1),
    whole (w.tick + 1),
    calm (w.tick + 1 + 1),
    whole (w.tick + 1 + 1),
    calm (w.tick + 1 + 1 + 1),
    whole (w.tick + 1 + 1 + 1),
  )

  module _ (types : (n : ℕ) → IsRearranging (e.arrange n).types_by_name)
      (apps : (n : ℕ) → IsRearranging (e.arrange n).apps_by_fee) where
    figures-by_type :
        (since : ℤ) (cut : Option ℤ) (w : World) (f : Payment → ℤ) (g : ByType → ℤ)
        → ((x : Group String Payment) → g (type_figures x) ≡ sum f x.rows)
        → sum g (figures since cut w).by_type ≡ sum f (recent cut w.payments)
    figures-by_type since cut w f g same =
        sum-perm g ((types (w.tick + 1)).rearranged (types_of (recent cut w.payments)))
        ∙ sum-types_of f g same (recent cut w.payments)

    figures-by_app :
        (since : ℤ) (cut : Option ℤ) (w : World) (f : Payment → ℤ) (g : ByApp → ℤ)
        → ((x : Group (String × String) PaymentWithApp)
            → g (app_figures x) ≡ sum (λ pw. f pw.payment) x.rows)
        → All (HasApp w.apps) w.payments
        → sum g (figures since cut w).by_app ≡ sum f (recent cut w.payments)
    figures-by_app since cut w f g same refers =
        sum-perm g ((apps (w.tick + 1 + 1)).rearranged (apps_of (recent_with_app cut w)))
        ∙ sum-apps_of (λ pw. f pw.payment) g same (recent_with_app cut w)
        ∙ sum-join f cut w.apps w.payments refers

    figures-IsConsistent :
        (since : ℤ) (cut : Option ℤ) (w : World)
        → IsLedger w.payments
        → All (HasApp w.apps) w.payments
        → IsConsistent (figures since cut w)
    unfolding totals_of
    figures-IsConsistent since cut w l refers =
        let count = sum-one (recent cut w.payments) in
        record {
          amounts_by_type = figures-by_type since cut w amount_of _ λ x. refl;
          fees_by_type = figures-by_type since cut w fee_of _ λ x. refl;
          counts_by_type = figures-by_type since cut w one _ (λ x. sym (sum-one x.rows)) ∙ count;
          amounts_by_app = figures-by_app since cut w amount_of _ (λ x. refl) refers;
          fees_by_app = figures-by_app since cut w fee_of _ (λ x. refl) refers;
          counts_by_app =
              figures-by_app since cut w one _ (λ x. sym (sum-one x.rows)) refers ∙ count;
          balanced = totals_of-balanced (recent cut w.payments) (
              All-filter IsAccounted (λ p. amount_of p ≡ fee_of p +ℤ net_of p) (within cut)
                (λ p _. adds_up p) w.payments l.rows);
        }

    -- The figures of the console, on a ledger whose payments have their apps: the amounts, the
    -- commissions and the numbers by type, and those by app, add up to the totals, and commission and
    -- net add up to the amount, for any number of days, where the statements run and their answers
    -- arrive whole.
    pub dashboard-IsConsistent :
        (since : ℤ) (w : World)
        → IsLedger w.payments
        → All (HasApp w.apps) w.payments
        → (d : Dashboard) × ((dashboard e since w).0 ≡ ok d) × IsConsistent d
    dashboard-IsConsistent since w l refers =
        let cut = cutoff e since w in
        (figures since cut w, dashboard-figures since w, figures-IsConsistent since cut w l refers)
