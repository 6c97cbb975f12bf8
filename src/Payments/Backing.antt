-- ===== src/Payments/Backing.antt =====
-- Money is sent out only for a row of the table that says so.
use abmcy_core_payment.Base.{
  String, Bool, true, false, Option, none, some, ◌∷◌, ◌≡◌, refl, ap, subst, ◌∙◌, ◌⊎◌, inl, inr,
  arith, map, In, deref,
}
use abmcy_core_payment.Int64.{pos, ◌≤ℤ◌, leb_ℤ, ltb_ℤ}
use abmcy_core_payment.Fees.{compute}
use abmcy_core_payment.Model.{App, Payment, CreatePayoutInput, type_payout, max_amount_for}
use abmcy_core_payment.World.{
  World, Env, Result, ok, err, HttpRequest, payout_body, PayoutRequest, statement,
}
use abmcy_core_payment.Http.{Request}
use abmcy_core_payment.Gateway.{create_payout}
use abmcy_core_payment.Repo.Payments.{
  insert_payment, create_payout_payment, find_payment_by_app_ref_type, fresh,
}
use abmcy_core_payment.Uuid.{abmcy_uuid}
use abmcy_core_payment.Payments.Handler.{PaymentHandler}
use abmcy_core_payment.Payments.Payout.{
  payout_params, payout_request, payout_sent, payout_created, payout_allowed, is_missing,
  payout_limited, payout_looked_up, payout_input, payout_decoded, payout,
}
use abmcy_core_payment.Repo.Apps.{find_by_id}
use abmcy_core_payment.Payments.Calls.{
  IsCall, do_signed-IsCall, abmcy_uuid_quiet, find_by_id_quiet, find_payment_quiet,
}
use abmcy_core_payment.Payments.Slips.{
  slip, slips, books, IsGiven, statement-IsInserted, payout_sent-Preserves,
}

-- The request sends out the net of a payout of the table, under its reference.
pub record IsPaidOut (w : World) (b : PayoutRequest) : Type 0 where
  pub row :
      In
        (record { kind = type_payout; ref = b.client_ref; net = some b.amount_cfa; refunds = none })
        (slips w)
  pub positive : pos 1 ≤ℤ b.amount_cfa

-- From `v` to `w` nothing is sent, or one request for a payout that the table has.
abbrev pub IsBacked : World → World → Type 0
IsBacked v w =
    (w.sent ≡ v.sent)
    ⊎ ((q : HttpRequest) × (b : PayoutRequest) × (w.sent ≡ q ∷ v.sent)
        × (q.payload ≡ payout_body b)
        × IsPaidOut w b)

-- The call, and then what keeps the books.
IsBacked-of_call :
    (v v' w w' : World) (b : PayoutRequest)
    → v'.sent ≡ v.sent
    → IsPaidOut v' b
    → IsCall (payout_body b) v' w
    → books w' ≡ books w
    → IsBacked v w'
IsBacked-of_call v v' w w' b quiet paid call same = by_case call.called
  where
    sent : w'.sent ≡ w.sent
    sent = ap (λ x. x.0) same

    paid' : IsPaidOut w' b
    paid' =
        let eq : slips w' ≡ slips v' = ap (λ x. x.1) same ∙ ap (map slip) call.rows in
        record { row = rw eq paid.row; positive = paid.positive }

    by_case :
        ((w.sent ≡ v'.sent)
          ⊎ ((q : HttpRequest) × (w.sent ≡ q ∷ v'.sent) × (q.payload ≡ payout_body b)))
        → IsBacked v w'
    by_case (inl s) = inl (sent ∙ s ∙ quiet)
    by_case (inr (q, s, p)) = inr (q, b, sent ∙ s ∙ ap (λ l. q ∷ l) quiet, p, paid')

module _ (e : Env) (h : PaymentHandler) where
  payout_created-IsBacked :
      (i : CreatePayoutInput) (ref : String) (row : Payment) (r : Result Payment) (v v' : World)
      → slip row ≡ record {
        kind = type_payout;
        ref = ref;
        net = some (compute i.amount_cfa h.usd_rate).net_cfa;
        refunds = none;
      }
      → pos 1 ≤ℤ (compute i.amount_cfa h.usd_rate).net_cfa
      → v'.sent ≡ v.sent
      → IsGiven row v' r
      → IsBacked v (payout_created e h i ref r v').1
  unfolding payout_created create_payout
  payout_created-IsBacked i ref row (err x) v v' eq positive quiet given = inl quiet
  payout_created-IsBacked i ref row (ok p) v v' eq positive quiet given =
      let b = payout_request e h i ref in
      let call = create_payout e h.diarra b v' in
      IsBacked-of_call v v' call.1 (payout_sent e h p call.0 call.1).1 b quiet
        (record { row = subst (λ x. In x (slips v')) eq given.1; positive = positive })
        (do_signed-IsCall e h.diarra "POST" "/api/gateway/v1/payouts" (payout_body b) v')
        ((payout_sent-Preserves e h p call.0).same call.1)

  payout_allowed-IsBacked :
      (app_id : String) (i : CreatePayoutInput) (w : World)
      → IsBacked w (payout_allowed e h app_id i w).1
  unfolding payout_allowed create_payout_payment
  payout_allowed-IsBacked app_id i w =
      by_test (leb_ℤ (compute i.amount_cfa h.usd_rate).net_cfa (pos 0)) refl
    where
      row : String → World → Payment
      row ref v = record (fresh e type_payout (payout_params e h app_id i ref) v) {
        recipient_phone = some i.recipient_phone;
        recipient_operator = some i.recipient_operator;
        country = some i.country;
      }

      by_test :
          (b : Bool)
          → leb_ℤ (compute i.amount_cfa h.usd_rate).net_cfa (pos 0) ≡ b
          → IsBacked w (payout_allowed e h app_id i w).1
      by_test true q = rw q (inl refl)
      by_test false q =
          let (ref, v) = abmcy_uuid e w in
          let inserted = statement-IsInserted e (row ref v) v in
          let quiet : v.sent ≡ w.sent = abmcy_uuid_quiet e w in
          rw q (
            payout_created-IsBacked i ref (row ref v) (statement e (insert_payment (row ref v)) v).0
              w (statement e (insert_payment (row ref v)) v).1 refl (ground arith)
              (inserted.0 ∙ quiet) inserted.1)

  -- Nothing was sent before.
  IsBacked-after : (u v w : World) → v.sent ≡ u.sent → IsBacked v w → IsBacked u w
  IsBacked-after u v w eq (inl s) = inl (s ∙ eq)
  IsBacked-after u v w eq (inr (q, b, s, p, paid)) = inr (q, b, s ∙ ap (λ l. q ∷ l) eq, p, paid)

  payout_limited-IsBacked :
      (app_id : String) (i : CreatePayoutInput) (r : Result App) (w : World)
      → IsBacked w (payout_limited e h app_id i r w).1
  unfolding payout_limited
  payout_limited-IsBacked app_id i (err x) w = inl refl
  payout_limited-IsBacked app_id i (ok app) w =
      by_test (ltb_ℤ (max_amount_for app.kyc_level) i.amount_cfa) refl
    where
      by_test :
          (b : Bool)
          → ltb_ℤ (max_amount_for app.kyc_level) i.amount_cfa ≡ b
          → IsBacked w (payout_limited e h app_id i (ok app) w).1
      by_test true q = rw q (inl refl)
      by_test false q = rw q (payout_allowed-IsBacked app_id i w)

  payout_looked_up-IsBacked :
      (app_id : String) (i : CreatePayoutInput) (r : Result Payment) (w : World)
      → IsBacked w (payout_looked_up e h app_id i r w).1
  unfolding payout_looked_up
  payout_looked_up-IsBacked app_id i (ok p) w = inl refl
  payout_looked_up-IsBacked app_id i (err x) w =
      IsBacked-after w (find_by_id e app_id w).1 _ (find_by_id_quiet e app_id w)
        (payout_limited-IsBacked app_id i (find_by_id e app_id w).0 (find_by_id e app_id w).1)

  payout_input-IsBacked :
      (app_id : String) (i : CreatePayoutInput) (w : World)
      → IsBacked w (payout_input e h app_id i w).1
  unfolding payout_input
  payout_input-IsBacked app_id i w = by_test (is_missing i) refl
    where
      by_test : (b : Bool) → is_missing i ≡ b → IsBacked w (payout_input e h app_id i w).1
      by_test true q = rw q (inl refl)
      by_test false q =
          let found = find_payment_by_app_ref_type e app_id i.app_ref type_payout w in
          rw q (
            IsBacked-after w found.1 _ (find_payment_quiet e app_id i.app_ref type_payout w)
              (payout_looked_up-IsBacked app_id i found.0 found.1))

  -- `Payout` sends nothing to the gateway, or one request, which is for a row that is then in the
  -- table: a payout with the reference of the request, whose net is the amount of the request and
  -- positive. So it is for every request, whatever the database and the gateway answer.
  pub payout-IsBacked :
      (app_id : String) (r : Request) (w : World) → IsBacked w (payout e h app_id r w).1
  unfolding payout
  payout-IsBacked app_id r w = by_body (e.decode_payout (deref r.body))
    where
      by_body : (o : Option CreatePayoutInput) → IsBacked w (payout_decoded e h app_id o w).1
      by_body none = inl refl
      by_body (some i) = payout_input-IsBacked app_id i w
