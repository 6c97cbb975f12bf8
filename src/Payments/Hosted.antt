-- ===== src/Payments/Hosted.antt =====
-- HostedPay, HostedPayStatus, statusLabelFR and groupThousands of payment_handler.go: what the page
-- that the payer sees is given. Its template is not modelled.
pub mod Digits
use abmcy_core_payment.Base.{
  ℕ, ◌-◌, ◌%◌, String, Bool, true, false, not, ◌&&◌, ◌||◌, Option, none, some, List, [], ◌∷◌, ◌++◌,
  length, take, drop, leb, ltb, ◌==◌, deref, if◌then◌else◌,
}
use abmcy_core_payment.Int64.{ℤ}
use abmcy_core_payment.Decimal.{format_int}
use abmcy_core_payment.Model.{
  Payment, PaymentWithApp, pending, processing, completed, failed, cancelled,
}
use abmcy_core_payment.World.{World, Env, Result, ok, err, M, ◌>>=◌}
use abmcy_core_payment.Http.{
  Request, Response, Body, HostedPayView, hosted_page, payment_status, redirect_to, respond,
  http_error,
}
use abmcy_core_payment.Repo.Payments.{find_payment_by_diarra_ref_public}
use abmcy_core_payment.Payments.Handler.{PaymentHandler}

unfoldable pub status_label_fr : String → String
status_label_fr s =
    if s == completed
    then "Payé"
    else if s == failed
    then "Échoué"
    else if s == cancelled
    then "Annulé"
    else if s == processing
    then "En cours"
    else "En attente"

abbrev pub spaced : List ℕ → List ℕ
spaced [] = []
spaced (c ∷ out) = (c ∷ out) ++ (b' ' ∷ [])

-- The loop of groupThousands, on what is left of the digits: three at a time. The caller leaves a
-- multiple of three.
unfoldable pub group_loop : List ℕ → List ℕ → List ℕ
group_loop out (a ∷ b ∷ c ∷ s) = group_loop (spaced out ++ (a ∷ b ∷ c ∷ [])) s
group_loop out [] = out
group_loop out (a ∷ []) = out
group_loop out (a ∷ b ∷ []) = out

unfoldable pub group_digits : List ℕ → List ℕ
unfolding group_loop
group_digits s =
    let pre = length s % 3 in if leb (length s) 3 then s else group_loop (take pre s) (drop pre s)

unfoldable pub group_thousands : ℤ → List ℕ
group_thousands n = group_digits (format_int n)

abbrev pub is_some : {A : Type 0} → Option A → Bool
is_some none = false
is_some (some a) = true

module _ (e : Env) (h : PaymentHandler) where
  abbrev pub hosted_view : PaymentWithApp → Bool → HostedPayView
  hosted_view pw is_done =
      let p = pw.payment in
      record {
        app_name = pw.app_name;
        app_ref = p.app_ref;
        amount_fmt = group_thousands p.amount_cfa;
        description = deref p.description;
        status = p.status;
        status_label = status_label_fr p.status;
        failure_reason = deref p.failure_reason;
        redirect_url = deref p.redirect_url;
        return_url = deref p.return_url;
        is_payable =
            not is_done
            && ((p.status == pending || p.status == processing)
                && (is_some p.redirect_url && not (deref p.redirect_url == "")));
        is_done = is_done;
      }

  -- A payment that is done, and whose app gave a return_url, goes back to it.
  unfoldable pub hosted_found : Request → Result PaymentWithApp → M Response
  hosted_found r (err _) = http_error 404 "Paiement introuvable."
  hosted_found r (ok pw) =
      let p = pw.payment in
      if p.status == completed && not (deref p.return_url == "")
      then respond 302 (redirect_to (deref p.return_url) completed p.app_ref)
      else respond 200 (hosted_page (hosted_view pw (is_some (r.query "done"))))

  -- GET /pay/{ref}
  unfoldable pub hosted_pay : Request → M Response
  hosted_pay r = do p ← find_payment_by_diarra_ref_public e (r.param "ref"); hosted_found r p

  abbrev pub hosted_status_found : Result PaymentWithApp → M Response
  hosted_status_found (err _) = http_error 404 "not_found"
  hosted_status_found (ok pw) = respond 200 (payment_status pw.payment.status pw.payment.app_ref)

  -- GET /pay/{ref}/status
  unfoldable pub hosted_pay_status : Request → M Response
  hosted_pay_status r = do
    p ← find_payment_by_diarra_ref_public e (r.param "ref")
    hosted_status_found p
