-- ===== src/Ledger/Handlers/Admin.antt =====
-- The console and the requests for an account keep the ledger.
use abmcy_core_payment.Base.{
  String, Bool, not, ◌&&◌, Option, none, some, ◌≡◌, ◌==◌, deref, non_empty,
}
use abmcy_core_payment.Model.{App, Payment, kyc_none, kyc_verified}
use abmcy_core_payment.World.{Env, Result, ok, err, PayoutAdminParams}
use abmcy_core_payment.World.Keeps.{
  Triple, Keeps, Triple-if, Triple-bind, Triple-after, Triple-weaken, Keeps-bind,
}
use abmcy_core_payment.Http.{Request, error, payment, outcome, credentials, done}
use abmcy_core_payment.Token.{hash_token}
use abmcy_core_payment.Admin.{
  Relayer, value_of, error_of, is_ok, app_created, create_secret, create_key, create_app_input,
  create_app, payment_found, get_payment, relay_found, relay_again, answer_outcome,
  create_payout_input, create_payout, refund_found, refund_payment, answer_done, set_app_kyc_input,
  set_app_kyc, set_app_active_input, set_app_active,
}
use abmcy_core_payment.Ledger.{IsLedger}
use abmcy_core_payment.Ledger.Reads.{
  create-Reads, set_active-Reads, set_kyc_level-Reads, generate_token-Reads,
}
use abmcy_core_payment.Ledger.Respond.{Keeps-respond}
use abmcy_core_payment.Ledger.Statements.{Gives, find_payment_by_id-Gives}
use abmcy_core_payment.Ledger.Handlers.Refund.{HasDeposit}

-- What the console needs of the payments: each of their operations keeps the ledger, the refund
-- of a row of the table.
pub record IsSound (relay : Relayer) : Type 0 where
  pub relays : (p : Payment) → Keeps IsLedger (relay.relay_payment p)
  pub refunds : (d : Payment) → Triple (HasDeposit d) (relay.refund_deposit d) (λ ps _. IsLedger ps)
  pub pays_out : (p : PayoutAdminParams) → Keeps IsLedger (relay.payout_for_admin p)

module _ (e : Env) (relay : Relayer) where
  app_created-Keeps :
      (key secret : String) (r : Result App) → Keeps IsLedger (app_created e relay key secret r)
  app_created-Keeps key secret (err x) = Keeps-respond 500 (error "creation_failed")
  app_created-Keeps key secret (ok app) = Keeps-respond 201 (credentials app key secret none)

  create_secret-Keeps :
      (i : String × String) (key : String) (r : Result String)
      → Keeps IsLedger (create_secret e relay i key r)
  create_secret-Keeps i key (err x) = Keeps-respond 500 (error "key_generation_failed")
  create_secret-Keeps (name, callback) key (ok secret) =
      Triple-after
        (create-Reads e name (hash_token e key) (hash_token e secret) (non_empty callback))
        (app_created-Keeps key secret)

  create_key-Keeps :
      (i : String × String) (r : Result String) → Keeps IsLedger (create_key e relay i r)
  create_key-Keeps i (err x) = Keeps-respond 500 (error "key_generation_failed")
  create_key-Keeps i (ok key) = Triple-after (generate_token-Reads e) (create_secret-Keeps i key)

  create_app_input-Keeps :
      (o : Option (String × String)) → Keeps IsLedger (create_app_input e relay o)
  unfolding create_app_input
  create_app_input-Keeps none = Keeps-respond 400 (error "invalid_request")
  create_app_input-Keeps (some i) =
      Triple-if (i.0 == "") (λ _. Keeps-respond 400 (error "name_required"))
        λ _. Triple-after (generate_token-Reads e) (create_key-Keeps i)

  pub create_app-Keeps : (r : Request) → Keeps IsLedger (create_app e relay r)
  unfolding create_app
  create_app-Keeps r = create_app_input-Keeps (e.decode_app (deref r.body))

  payment_found-Keeps : (r : Result Payment) → Keeps IsLedger (payment_found e relay r)
  payment_found-Keeps (err x) = Keeps-respond 404 (error "not_found")
  payment_found-Keeps (ok p) = Keeps-respond 200 (payment p)

  pub get_payment-Keeps : (r : Request) → Keeps IsLedger (get_payment e relay r)
  unfolding get_payment
  get_payment-Keeps r = Keeps-bind (find_payment_by_id-Gives e (r.param "id")) payment_found-Keeps

  answer_done-Keeps : (r : Result (Unit {0})) → Keeps IsLedger (answer_done e relay r)
  answer_done-Keeps (err x) = Keeps-respond 500 (error "update_failed")
  answer_done-Keeps (ok u) = Keeps-respond 200 done

  set_app_kyc_input-Keeps :
      (id : String) (o : Option String) → Keeps IsLedger (set_app_kyc_input e relay id o)
  unfolding set_app_kyc_input
  set_app_kyc_input-Keeps id none = Keeps-respond 400 (error "invalid_request")
  set_app_kyc_input-Keeps id (some level) =
      Triple-if (not (level == kyc_none) && not (level == kyc_verified))
        (λ _. Keeps-respond 400 (error "level_must_be_none_or_verified"))
        λ _. Triple-after (set_kyc_level-Reads e id level) answer_done-Keeps

  pub set_app_kyc-Keeps : (r : Request) → Keeps IsLedger (set_app_kyc e relay r)
  unfolding set_app_kyc
  set_app_kyc-Keeps r = set_app_kyc_input-Keeps (r.param "id") (e.decode_level (deref r.body))

  set_app_active_input-Keeps :
      (id : String) (o : Option Bool) → Keeps IsLedger (set_app_active_input e relay id o)
  unfolding set_app_active_input
  set_app_active_input-Keeps id none = Keeps-respond 400 (error "invalid_request")
  set_app_active_input-Keeps id (some b) = Triple-after (set_active-Reads e id b) answer_done-Keeps

  pub set_app_active-Keeps : (r : Request) → Keeps IsLedger (set_app_active e relay r)
  unfolding set_app_active
  set_app_active-Keeps r =
      set_app_active_input-Keeps (r.param "id") (e.decode_active (deref r.body))

  answer_outcome-Keeps : (r : Result Payment) → Keeps IsLedger (answer_outcome e relay r)
  answer_outcome-Keeps r = Keeps-respond 200 (outcome (is_ok r) (error_of r) (value_of r))

  module _ (sound : IsSound relay) where
    relay_found-Keeps : (r : Result Payment) → Keeps IsLedger (relay_found e relay r)
    unfolding relay_found
    relay_found-Keeps (err x) = Keeps-respond 404 (error "not_found")
    relay_found-Keeps (ok p) = Triple-bind _ _ (sound.relays p) λ r.
        Keeps-bind (find_payment_by_id-Gives e p.id)
          λ fresh. Keeps-respond 200 (outcome (is_ok r) (error_of r) (value_of fresh))

    pub relay_again-Keeps : (r : Request) → Keeps IsLedger (relay_again e relay r)
    unfolding relay_again
    relay_again-Keeps r = Keeps-bind (find_payment_by_id-Gives e (r.param "id")) relay_found-Keeps

    create_payout_input-Keeps :
        (o : Option PayoutAdminParams) → Keeps IsLedger (create_payout_input e relay o)
    unfolding create_payout_input
    create_payout_input-Keeps none = Keeps-respond 400 (error "invalid_request")
    create_payout_input-Keeps (some p) =
        Triple-if (p.app_id == "") (λ _. Keeps-respond 400 (error "app_id_required"))
          λ _. Triple-bind _ _ (sound.pays_out p) answer_outcome-Keeps

    pub create_payout-Keeps : (r : Request) → Keeps IsLedger (create_payout e relay r)
    unfolding create_payout
    create_payout-Keeps r = create_payout_input-Keeps (e.decode_admin_payout (deref r.body))

    refund_found-Keeps :
        (id : String) (r : Result Payment)
        → Triple (λ ps. Gives (λ p. p.id ≡ id) ps r) (refund_found e relay r) (λ ps _. IsLedger ps)
    unfolding refund_found
    refund_found-Keeps id (err x) = Keeps-respond 404 (error "not_found")
    refund_found-Keeps id (ok d) =
        Triple-weaken (λ ps h. (h.0, h.1.0)) (λ ps a h. h)
          (Triple-bind _ _ (sound.refunds d) answer_outcome-Keeps)

    pub refund_payment-Keeps : (r : Request) → Keeps IsLedger (refund_payment e relay r)
    unfolding refund_payment
    refund_payment-Keeps r =
        Triple-bind _ _ (find_payment_by_id-Gives e (r.param "id"))
          (refund_found-Keeps (r.param "id"))
