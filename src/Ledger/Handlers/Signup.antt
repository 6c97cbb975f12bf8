-- ===== src/Ledger/Handlers/Signup.antt =====
-- Requests for an account and their review keep the ledger.
use abmcy_core_payment.Base.{String, not, ◌||◌, Option, none, some, ◌==◌, deref}
use abmcy_core_payment.Model.{App, SignupRequest, PublicSignupInput, signup_pending}
use abmcy_core_payment.World.{World, Env, Result, ok, err, signup_pending_exists}
use abmcy_core_payment.World.Keeps.{Keeps, Triple-if, Triple-after}
use abmcy_core_payment.Http.{Request, error, credentials, done}
use abmcy_core_payment.Token.{hash_token}
use abmcy_core_payment.Signup.{
  within_limit, trimmed, answer_signup, signup_input, signup_decoded, public_signup, approve_marked,
  approve_created, approve_secret, approve_key, approve_found, approve_signup, reject_marked,
  reject_found, reject_signup,
}
use abmcy_core_payment.Ledger.{IsLedger}
use abmcy_core_payment.Ledger.Reads.{
  create-Reads, generate_token-Reads, create_signup-Reads, find_signup-Reads, mark_approved-Reads,
  mark_rejected-Reads,
}
use abmcy_core_payment.Ledger.Respond.{Keeps-respond}

module _ (e : Env) where
  answer_signup-Keeps : (r : Result SignupRequest) → Keeps IsLedger (answer_signup e r)
  answer_signup-Keeps r = record { at = λ w l. by_result r w l }
    where
      by_result :
          (r : Result SignupRequest) (w : World)
          → IsLedger w.payments
          → IsLedger (answer_signup e r w).1.payments
      by_result (ok s) w l = l
      by_result (err signup_pending_exists) w l = l
      by_result (err _) w l = l

  signup_input-Keeps : (i : PublicSignupInput) → Keeps IsLedger (signup_input e i)
  unfolding signup_input
  signup_input-Keeps i =
      Triple-if (i.business_name == "" || (i.contact_name == "" || i.email == ""))
        (λ _. Keeps-respond 400 (error "business_name, contact_name et email sont requis"))
        λ _.
          Triple-if (not (e.parses_as_address i.email))
            (λ _. Keeps-respond 400 (error "email invalide"))
            λ _. Triple-after (create_signup-Reads e i) answer_signup-Keeps

  signup_decoded-Keeps : (o : Option PublicSignupInput) → Keeps IsLedger (signup_decoded e o)
  signup_decoded-Keeps none = Keeps-respond 400 (error "invalid_request")
  signup_decoded-Keeps (some i) = signup_input-Keeps (trimmed e i)

  pub public_signup-Keeps : (r : Request) → Keeps IsLedger (public_signup e r)
  unfolding public_signup
  public_signup-Keeps r = signup_decoded-Keeps (e.decode_signup (within_limit e (deref r.body)))

  approve_marked-Keeps :
      (s : SignupRequest) (app : App) (key secret : String) (r : Result (Unit {0}))
      → Keeps IsLedger (approve_marked e s app key secret r)
  approve_marked-Keeps s app key secret (err x) = Keeps-respond 500 (error "update_failed")
  approve_marked-Keeps s app key secret (ok u) =
      Keeps-respond 200 (credentials app key secret (some s.email))

  approve_created-Keeps :
      (s : SignupRequest) (note key secret : String) (r : Result App)
      → Keeps IsLedger (approve_created e s note key secret r)
  approve_created-Keeps s note key secret (err x) = Keeps-respond 500 (error "app_creation_failed")
  approve_created-Keeps s note key secret (ok app) =
      Triple-after (mark_approved-Reads e s.id app.id note) (approve_marked-Keeps s app key secret)

  approve_secret-Keeps :
      (s : SignupRequest) (note key : String) (r : Result String)
      → Keeps IsLedger (approve_secret e s note key r)
  approve_secret-Keeps s note key (err x) = Keeps-respond 500 (error "key_generation_failed")
  approve_secret-Keeps s note key (ok secret) =
      Triple-after (create-Reads e s.business_name (hash_token e key) (hash_token e secret) none)
        (approve_created-Keeps s note key secret)

  approve_key-Keeps :
      (s : SignupRequest) (note : String) (r : Result String)
      → Keeps IsLedger (approve_key e s note r)
  approve_key-Keeps s note (err x) = Keeps-respond 500 (error "key_generation_failed")
  approve_key-Keeps s note (ok key) =
      Triple-after (generate_token-Reads e) (approve_secret-Keeps s note key)

  approve_found-Keeps :
      (note : String) (r : Result SignupRequest) → Keeps IsLedger (approve_found e note r)
  unfolding approve_found
  approve_found-Keeps note (err x) = Keeps-respond 404 (error "not_found")
  approve_found-Keeps note (ok s) =
      Triple-if (not (s.status == signup_pending))
        (λ _. Keeps-respond 409 (error "demande déjà traitée"))
        λ _. Triple-after (generate_token-Reads e) (approve_key-Keeps s note)

  pub approve_signup-Keeps : (r : Request) → Keeps IsLedger (approve_signup e r)
  unfolding approve_signup
  approve_signup-Keeps r =
      Triple-after (find_signup-Reads e (r.param "id"))
        (approve_found-Keeps (e.decode_note (deref r.body)))

  reject_marked-Keeps : (r : Result (Unit {0})) → Keeps IsLedger (reject_marked e r)
  reject_marked-Keeps (err x) = Keeps-respond 500 (error "update_failed")
  reject_marked-Keeps (ok u) = Keeps-respond 200 done

  reject_found-Keeps :
      (note : String) (r : Result SignupRequest) → Keeps IsLedger (reject_found e note r)
  unfolding reject_found
  reject_found-Keeps note (err x) = Keeps-respond 404 (error "not_found")
  reject_found-Keeps note (ok s) =
      Triple-if (not (s.status == signup_pending))
        (λ _. Keeps-respond 409 (error "demande déjà traitée"))
        λ _. Triple-after (mark_rejected-Reads e s.id note) reject_marked-Keeps

  pub reject_signup-Keeps : (r : Request) → Keeps IsLedger (reject_signup e r)
  unfolding reject_signup
  reject_signup-Keeps r =
      Triple-after (find_signup-Reads e (r.param "id"))
        (reject_found-Keeps (e.decode_note (deref r.body)))
