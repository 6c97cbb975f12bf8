-- ===== src/Ledger/Reads.antt =====
-- What does not write `payments`: the gateway, the random source, and the reads of `apps`.
use abmcy_core_payment.Base.{String, Bool, Option, refl, arith}
use abmcy_core_payment.Model.{PublicSignupInput, SignupRequest}
use abmcy_core_payment.World.{
  Env, HttpRequest, Payload, DepositRequest, PayoutRequest, RefundRequest,
}
use abmcy_core_payment.World.Keeps.{Reads, Reads-made, Reads-statement}
use abmcy_core_payment.Http.{send}
use abmcy_core_payment.Gateway.{Config, do_signed, create_deposit, create_payout, create_refund}
use abmcy_core_payment.Repo.Apps.{
  find_by_id, find_by_key_hash, insert_app, set_app_where, create, set_active, set_kyc_level,
}
use abmcy_core_payment.Repo.Signups.{
  new_signup, create_signup, find_signup, insert_signup, mark_approved, mark_rejected,
}
use abmcy_core_payment.Token.{generate_token}
use abmcy_core_payment.Repo.Payments.{
  find_payment_by_app_ref_type, find_payment_by_diarra_ref_public,
}
use abmcy_core_payment.Uuid.{abmcy_uuid}

module _ (e : Env) where
  pub abmcy_uuid-Reads : Reads (abmcy_uuid e)
  unfolding abmcy_uuid
  abmcy_uuid-Reads = record { same = λ w. refl }

  pub send-Reads : (q : HttpRequest) → Reads (send e q)
  unfolding send
  send-Reads q = record { same = λ w. refl }

  pub find_by_id-Reads : (id : String) → Reads (find_by_id e id)
  unfolding find_by_id
  find_by_id-Reads id = Reads-statement e _ (record { same = λ w. refl })

  pub find_payment_by_app_ref_type-Reads :
      (a r k : String) → Reads (find_payment_by_app_ref_type e a r k)
  unfolding find_payment_by_app_ref_type
  find_payment_by_app_ref_type-Reads a r k = Reads-statement e _ (record { same = λ w. refl })

  do_signed-Reads :
      (cfg : Config) (method path : String) (p : Payload) → Reads (do_signed e cfg method path p)
  unfolding do_signed
  do_signed-Reads cfg method path p = record { same = λ w. ground arith }

  pub create_deposit-Reads :
      (cfg : Config) (input : DepositRequest) → Reads (create_deposit e cfg input)
  unfolding create_deposit
  create_deposit-Reads cfg input = do_signed-Reads cfg _ _ _

  pub create_payout-Reads :
      (cfg : Config) (input : PayoutRequest) → Reads (create_payout e cfg input)
  unfolding create_payout
  create_payout-Reads cfg input = do_signed-Reads cfg _ _ _

  pub create_refund-Reads :
      (cfg : Config) (input : RefundRequest) → Reads (create_refund e cfg input)
  unfolding create_refund
  create_refund-Reads cfg input = do_signed-Reads cfg _ _ _

  pub find_by_key_hash-Reads : (hash : String) → Reads (find_by_key_hash e hash)
  unfolding find_by_key_hash
  find_by_key_hash-Reads hash = Reads-statement e _ (record { same = λ w. refl })

  pub create-Reads :
      (name key secret : String) (url : Option String) → Reads (create e name key secret url)
  unfolding create insert_app
  create-Reads name key secret url = Reads-made e _ λ v. record { same = λ w. ground arith }

  pub set_active-Reads : (id : String) (b : Bool) → Reads (set_active e id b)
  unfolding set_active set_app_where
  set_active-Reads id b = Reads-made e _ λ v. record { same = λ w. ground arith }

  pub set_kyc_level-Reads : (id level : String) → Reads (set_kyc_level e id level)
  unfolding set_kyc_level set_app_where
  set_kyc_level-Reads id level = Reads-made e _ λ v. record { same = λ w. ground arith }

  pub generate_token-Reads : Reads (generate_token e)
  unfolding generate_token
  generate_token-Reads = record { same = λ w. refl }

  insert_signup-Reads : (s : SignupRequest) → Reads (insert_signup e s)
  unfolding insert_signup
  insert_signup-Reads s = record { same = λ w. ground arith }

  pub create_signup-Reads : (i : PublicSignupInput) → Reads (create_signup e i)
  unfolding create_signup
  create_signup-Reads i = record {
    same = λ w.
        (Reads-statement e (insert_signup e (new_signup (e.gen_uuid w.tick) (e.now w.tick) i))
            (insert_signup-Reads _)).same
          w;
  }

  pub find_signup-Reads : (id : String) → Reads (find_signup e id)
  unfolding find_signup
  find_signup-Reads id = Reads-statement e _ (record { same = λ w. refl })

  pub mark_approved-Reads : (id app_id note : String) → Reads (mark_approved e id app_id note)
  unfolding mark_approved
  mark_approved-Reads id app_id note = Reads-made e _ λ v. record { same = λ w. ground arith }

  pub mark_rejected-Reads : (id note : String) → Reads (mark_rejected e id note)
  unfolding mark_rejected
  mark_rejected-Reads id note = Reads-made e _ λ v. record { same = λ w. refl }

  pub find_payment_by_diarra_ref_public-Reads :
      (ref : String) → Reads (find_payment_by_diarra_ref_public e ref)
  unfolding find_payment_by_diarra_ref_public
  find_payment_by_diarra_ref_public-Reads ref = Reads-statement e _ (record { same = λ w. refl })
