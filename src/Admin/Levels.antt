-- ===== src/Admin/Levels.antt =====
-- The console's KYC level against the deposits of the app.
use abmcy_core_payment.Base.{
  ℕ, ◌+◌, String, Bool, true, false, not, ◌&&◌, ◌||◌, none, some, List, [], ◌∷◌, ◌≡◌, refl, arith,
  ◌==◌, find, update, any, deref, if◌then◌else◌,
}
use abmcy_core_payment.Int64.{◌<ℤ◌}
use abmcy_core_payment.Model.{
  App, Payment, CreatePaymentInput, type_deposit, kyc_none, kyc_verified, max_amount_for,
}
use abmcy_core_payment.World.{World, Env, fine, statement}
use abmcy_core_payment.Http.{Request, limit_exceeded}
use abmcy_core_payment.Repo.Apps.{set_kyc_level, set_app_where}
use abmcy_core_payment.Admin.{Relayer, set_app_kyc, set_app_kyc_input}
use abmcy_core_payment.Payments.Handler.{PaymentHandler}
use abmcy_core_payment.Payments.Pay.{is_missing, pay}
use abmcy_core_payment.Payments.Limits.{pay_over}

abbrev pub leveled : ℕ → String → App → App
leveled now level a = record a { kyc_level = level; updated_at = now }

find-leveled :
    (id level : String) (now : ℕ) (app : App) (apps : List App)
    → find (λ (a : App). a.id == id) apps ≡ some app
    → find (λ (a : App). a.id == id) (update (λ (a : App). a.id == id) (leveled now level) apps)
      ≡ some (leveled now level app)
unfolding find update
find-leveled id level now app [] h = cc
find-leveled id level now app (a ∷ apps) h =
    by_test (find-leveled id level now app apps) (a.id == id) refl h
  where
    by_test :
        (find (λ (a : App). a.id == id) apps ≡ some app
          → find
              (λ (a : App). a.id == id)
              (update (λ (a : App). a.id == id) (leveled now level) apps)
            ≡ some (leveled now level app))
        → (b : Bool) → (a.id == id) ≡ b
        → (if b then some a else find (λ (a : App). a.id == id) apps) ≡ some app
        → (let row : App = if b then leveled now level a else a in
            if row.id == id
            then some row
            else find
                (λ (a : App). a.id == id)
                (update (λ (a : App). a.id == id) (leveled now level) apps))
          ≡ some (leveled now level app)
    by_test rest true q h = let same : a ≡ app = cc in rw (q, same) refl
    by_test rest false q h = rw (q, rest h)

module _ (e : Env) (runs : (n : ℕ) → e.fault n ≡ fine) (relay : Relayer) where
  set_app_kyc_runs :
      (r : Request) (level : String) (w : World)
      → e.decode_level (deref r.body) ≡ some level
      → (level == kyc_none || level == kyc_verified) ≡ true
      → (set_app_kyc e relay r w).1 ≡ record w {
        apps = update (λ (a : App). a.id == r.param "id") (leveled (e.now w.tick) level) w.apps;
        tick = w.tick + 1;
      }
  unfolding set_app_kyc set_app_kyc_input set_kyc_level set_app_where statement
  set_app_kyc_runs r level w decoded valid =
      let allowed : not (level == kyc_none) && not (level == kyc_verified) ≡ false = ground arith in
      let kept : any (λ (a : App). a.id == r.param "id") w.apps && false ≡ false = ground arith in
      rw (decoded, allowed, runs w.tick, valid, kept)

  -- Once the console has set the KYC level of an app, a deposit of it under a new app_ref and above
  -- the limit of that level is refused with 422 and that limit, and no row is made and nothing is
  -- sent, where the statements run.
  pub set_app_kyc-pay_over :
      (h : PaymentHandler) (r q : Request) (level : String) (app : App) (i : CreatePaymentInput)
      (w : World)
      → e.decode_level (deref r.body) ≡ some level
      → (level == kyc_none || level == kyc_verified) ≡ true
      → find (λ (a : App). a.id == r.param "id") w.apps ≡ some app
      → e.decode_payment (deref q.body) ≡ some i
      → is_missing i ≡ false
      → find
          (λ (p : Payment).
            p.app_id == r.param "id" && (p.app_ref == i.app_ref && p.kind == type_deposit))
          w.payments
        ≡ none
      → max_amount_for level <ℤ i.amount_cfa
      → pay e h (r.param "id") q (set_app_kyc e relay r w).1 ≡ (
        record {
          status = 422;
          body = limit_exceeded (record {
            max_cfa = max_amount_for level;
            kyc_level = some level;
            kyc_required = level == kyc_none;
          });
        },
        record (set_app_kyc e relay r w).1 { tick = (set_app_kyc e relay r w).1.tick + 1 + 1 },
      )
  set_app_kyc-pay_over h r q level app i w decoded valid found ordered given absent over =
      let id = r.param "id" in
      let w' : World = record w {
        apps = update (λ (a : App). a.id == id) (leveled (e.now w.tick) level) w.apps;
        tick = w.tick + 1;
      } in
      let app' = leveled (e.now w.tick) level app in
      rw (set_app_kyc_runs r level w decoded valid) (
        pay_over e h id q app' w' i
          (record {
            first = runs (w.tick + 1);
            second = runs (w.tick + 1 + 1);
            found = find-leveled id level (e.now w.tick) app w.apps found;
          })
          ordered given absent over)
