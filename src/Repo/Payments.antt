-- ===== src/Repo/Payments.antt =====
-- internal/repository/app_repo.go, the table `payments`. A row is put in front: the order of the
-- rows of a table means nothing, and at most one row has a given key.
mod Rows
pub mod Conflicts
pub mod Listing
pub mod Pages
pub mod Book
unfoldable pub use Rows.*
use abmcy_core_payment.Base.{
  ℕ, ◌+◌, String, Bool, true, not, ◌&&◌, Option, none, some, ◌∷◌, ◌==◌, ◌||◌, if◌then◌else◌, any,
  find, update,
}
use abmcy_core_payment.Int64.{ℤ, fits_int4}
use abmcy_core_payment.Model.{
  App, Payment, PaymentWithApp, type_deposit, type_payout, type_refund, pending, processing,
  completed, failed, cancelled, relay_pending,
}
use abmcy_core_payment.World.{
  World, Env, Result, ok, err, payment_not_found, unique_violation, check_violation,
  foreign_key_violation, out_of_range, M, statement,
}

module _ (e : Env) where
  unfoldable pub find_payment_by_app_ref_type : String → String → String → M (Result Payment)
  find_payment_by_app_ref_type app_id app_ref kind = statement e λ w. (
    scan_payment
        (find (λ p. p.app_id == app_id && (p.app_ref == app_ref && p.kind == kind)) w.payments),
    w,
  )

  -- The deposit of an app for this app_ref.
  unfoldable pub find_payment_by_app_ref : String → String → M (Result Payment)
  unfolding find_payment_by_app_ref_type
  find_payment_by_app_ref app_id app_ref = find_payment_by_app_ref_type app_id app_ref type_deposit

  unfoldable pub find_payment_by_diarra_ref : String → M (Result Payment)
  find_payment_by_diarra_ref ref =
      statement e λ w. (scan_payment (find (λ p. p.diarra_client_ref == ref) w.payments), w)

  unfoldable pub find_payment_by_id : String → M (Result Payment)
  find_payment_by_id id = statement e λ w. (scan_payment (find (λ p. p.id == id) w.payments), w)

  -- JOIN apps: a payment whose app is not there is no row.
  abbrev with_app : Option Payment → World → Result PaymentWithApp
  with_app none w = err payment_not_found
  with_app (some p) w = elim (find (λ (a : App). a.id == p.app_id) w.apps) [
    | none ↦ err payment_not_found
    | some a ↦ ok (record { payment = p; app_name = a.name })
  ]

  unfoldable pub find_payment_by_diarra_ref_public : String → M (Result PaymentWithApp)
  find_payment_by_diarra_ref_public ref =
      statement e λ w. (with_app (find (λ p. p.diarra_client_ref == ref) w.payments) w, w)

  -- A fresh row, at the time and with the id of the statement.
  abbrev pub fresh : String → PaymentParams → World → Payment
  fresh kind p w = new_payment (e.gen_uuid w.tick) (e.now w.tick) kind p

  abbrev pub or_existing : PaymentParams → Result Payment → M (Result Payment)
  or_existing p (ok q) w = (ok q, w)
  or_existing p (err payment_not_found) w =
      find_payment_by_app_ref_type p.app_id p.app_ref type_deposit w
  or_existing p (err x) w = (err x, w)

  -- Where the INSERT returns nothing the row that is there is read and returned.
  unfoldable pub create_payment : PaymentParams → Option String → M (Result Payment)
  create_payment p return_url w =
      let row = record (fresh type_deposit p w) { return_url = return_url } in
      let (r, w') = statement e (insert_or_nothing row) w in or_existing p r w'

  unfoldable pub create_refund_payment : PaymentParams → String → M (Result Payment)
  create_refund_payment p refund_of_payment_id w =
      statement e
        (insert_payment
          (record (fresh type_refund p w) { refund_of_payment_id = some refund_of_payment_id }))
        w

  unfoldable pub create_payout_payment :
      PaymentParams → String → String → String → M (Result Payment)
  create_payout_payment p phone operator country w =
      statement e
        (insert_payment (record (fresh type_payout p w) {
          recipient_phone = some phone;
          recipient_operator = some operator;
          country = some country;
        }))
        w

  -- The UNIQUE diarra_client_ref holds for updates too.
  unfoldable pub update_diarra_ref_and_redirect : String → String → String → M (Result (Unit {0}))
  update_diarra_ref_and_redirect id ref redirect_url w =
      let now = e.now w.tick in
      statement e
        (λ w.
          if any (λ (p : Payment). p.id == id) w.payments
            && any (λ (p : Payment). not (p.id == id) && p.diarra_client_ref == ref) w.payments
          then (err unique_violation, w)
          else (
            ok tt,
            set_where id
                (λ p. record p {
                  diarra_client_ref = ref;
                  redirect_url = some redirect_url;
                  updated_at = now;
                })
                w,
          ))
        w

  unfoldable pub update_payment_redirect : String → String → M (Result (Unit {0}))
  update_payment_redirect id redirect_url w =
      let now = e.now w.tick in
      statement e
        (λ w. (
          ok tt,
          set_where id (λ p. record p { redirect_url = some redirect_url; updated_at = now }) w,
        ))
        w

  -- provider = COALESCE($3, provider), failure_reason = $4
  unfoldable pub update_payment_status :
      String → String → Option String → Option String → M (Result (Unit {0}))
  update_payment_status id status provider failure_reason w =
      let now = e.now w.tick in
      statement e
        (λ w.
          if any (λ (p : Payment). p.id == id) w.payments && not (is_status status)
          then (err check_violation, w)
          else (
            ok tt,
            set_where id
                (λ p. record p {
                  status = status;
                  provider = or_else provider p.provider;
                  failure_reason = failure_reason;
                  updated_at = now;
                })
                w,
          ))
        w

  -- The callers give one of the four states of the relay, which the CHECK allows. The count of the
  -- attempts is an INTEGER: its overflow is one of the faults of a statement.
  unfoldable pub set_relay_result : String → String → Option String → M (Result (Unit {0}))
  set_relay_result id status message w =
      let now = e.now w.tick in
      statement e
        (λ w. (
          ok tt,
          set_where id
              (λ p. record p {
                relay_status = status;
                relay_attempts = p.relay_attempts + 1;
                relay_last_error = message;
                relay_last_attempt_at = some now;
                updated_at = now;
              })
              w,
        ))
        w
