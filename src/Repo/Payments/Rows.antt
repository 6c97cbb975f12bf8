-- ===== src/Repo/Payments/Rows.antt =====
-- The rows of the table `payments`, its constraints and its INSERT and UPDATE
-- (internal/repository/app_repo.go, migrations/*.sql).
use abmcy_core_payment.Base.{
  ℕ, String, Bool, true, not, ◌&&◌, Option, none, some, ◌∷◌, ◌==◌, ◌||◌, if◌then◌else◌, any, update,
}
use abmcy_core_payment.Int64.{ℤ, fits_int4}
use abmcy_core_payment.Model.{
  App, Payment, pending, processing, completed, failed, cancelled, relay_pending,
}
use abmcy_core_payment.World.{
  World, Result, ok, err, payment_not_found, unique_violation, foreign_key_violation, out_of_range,
  M,
}

-- scanPayment: no row is ErrPaymentNotFound.
abbrev pub scan_payment : Option Payment → Result Payment
scan_payment none = err payment_not_found
scan_payment (some p) = ok p

-- uq_payments_app_ref_type of migration 006
abbrev pub same_key : Payment → Payment → Bool
same_key p q = p.app_id == q.app_id && (p.app_ref == q.app_ref && p.kind == q.kind)

-- The primary key and the UNIQUE diarra_client_ref of migration 001
abbrev pub same_ref : Payment → Payment → Bool
same_ref p q = p.id == q.id || p.diarra_client_ref == q.diarra_client_ref

-- The columns of type INTEGER.
abbrev pub fits_optional : Option ℤ → Bool
fits_optional none = true
fits_optional (some n) = fits_int4 n

abbrev pub fits_columns : Payment → Bool
fits_columns p =
    fits_int4 p.amount_cfa
    && (fits_int4 p.fee_cfa && (fits_optional p.net_cfa && fits_optional p.usd_rate_used))

-- The CHECK on `status`.
abbrev pub is_status : String → Bool
is_status s =
    s == pending || (s == processing || (s == completed || (s == failed || s == cancelled)))

-- The foreign keys: the app, and the refunded payment if there is one.
abbrev pub refers : World → Payment → Bool
refers w p = any (λ (a : App). a.id == p.app_id) w.apps && elim p.refund_of_payment_id [
  | none ↦ true
  | some id ↦ any (λ (q : Payment). q.id == id) w.payments
]

-- CreatePaymentParams, CreateRefundParams and CreatePayoutParams: what all have.
pub record PaymentParams : Type 0 where
  pub app_id : String
  pub app_ref : String
  pub diarra_client_ref : String
  pub amount_cfa : ℤ
  pub fee_cfa : ℤ
  pub net_cfa : ℤ
  pub usd_rate_used : ℤ
  pub currency : String
  pub description : Option String
  pub callback_url : Option String

-- The row of an INSERT, with the defaults of migrations 001, 002 and 004.
abbrev pub new_payment : String → ℕ → String → PaymentParams → Payment
new_payment id now kind p = record {
  id = id;
  app_id = p.app_id;
  app_ref = p.app_ref;
  diarra_client_ref = p.diarra_client_ref;
  kind = kind;
  provider = none;
  status = pending;
  failure_reason = none;
  amount_cfa = p.amount_cfa;
  fee_cfa = p.fee_cfa;
  net_cfa = some p.net_cfa;
  usd_rate_used = some p.usd_rate_used;
  currency = p.currency;
  description = p.description;
  redirect_url = none;
  callback_url = p.callback_url;
  return_url = none;
  refund_of_payment_id = none;
  recipient_phone = none;
  recipient_operator = none;
  country = none;
  relay_status = relay_pending;
  relay_attempts = 0;
  relay_last_error = none;
  relay_last_attempt_at = none;
  created_at = now;
  updated_at = now;
}

-- INSERT … RETURNING: a value out of range is refused first, then a duplicate, then a reference
-- to nothing.
unfoldable pub insert_payment : Payment → M (Result Payment)
insert_payment p w =
    if not (fits_columns p)
    then (err out_of_range, w)
    else if any (same_key p) w.payments || any (same_ref p) w.payments
    then (err unique_violation, w)
    else if not (refers w p)
    then (err foreign_key_violation, w)
    else (ok p, record w { payments = p ∷ w.payments })

-- INSERT … ON CONFLICT (app_id, app_ref, type) DO NOTHING RETURNING: a duplicate of that key
-- returns no row.
unfoldable pub insert_or_nothing : Payment → M (Result Payment)
unfolding insert_payment
insert_or_nothing p w =
    if fits_columns p && any (same_key p) w.payments
    then (err payment_not_found, w)
    else insert_payment p w

-- UPDATE payments SET … WHERE id = $1
unfoldable pub set_where : String → (Payment → Payment) → World → World
set_where id f w = record w { payments = update (λ p. p.id == id) f w.payments }

abbrev pub or_else : Option String → Option String → Option String
or_else none b = b
or_else (some a) b = some a
