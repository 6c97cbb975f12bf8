-- ===== src/Signup.antt =====
-- internal/handler/signup_handler.go: requests for an account, and their review.
pub mod Approval
pub mod Credentials
pub mod Unique
use Prim.Native.String.{slice}
use abmcy_core_payment.Base.{
  ◌*◌, ◌^◌, String, not, ◌||◌, Option, none, some, List, ◌==◌, deref, if◌then◌else◌,
}
use abmcy_core_payment.Model.{App, SignupRequest, PublicSignupInput, signup_pending}
use abmcy_core_payment.World.{Env, Result, ok, err, signup_pending_exists, M, ◌>>=◌}
use abmcy_core_payment.Http.{
  Request, Response, signups, signup_received, credentials, done, respond, http_error,
}
use abmcy_core_payment.Repo.Apps.{create}
use abmcy_core_payment.Repo.Signups.{
  create_signup, list_signups, find_signup, mark_approved, mark_rejected,
}
use abmcy_core_payment.Token.{generate_token, hash_token}

module _ (e : Env) where
  abbrev pub trimmed : PublicSignupInput → PublicSignupInput
  trimmed i = record i {
    business_name = e.trim_space i.business_name;
    contact_name = e.trim_space i.contact_name;
    email = e.trim_space i.email;
  }

  -- MaxBytesReader: the decoder gets 16 KiB, and a form that is cut off there is no JSON.
  abbrev pub within_limit : String → String
  within_limit body = slice body 0 (16 * 2 ^ 10)

  abbrev pub answer_signup : Result SignupRequest → M Response
  answer_signup (ok s) = respond 201 (signup_received s.id)
  answer_signup (err signup_pending_exists) =
      http_error 409
        "Une demande est déjà en cours pour cet email. Nous revenons vers vous rapidement."
  answer_signup (err _) = http_error 500 "creation_failed"

  unfoldable pub signup_input : PublicSignupInput → M Response
  signup_input i =
      if i.business_name == "" || (i.contact_name == "" || i.email == "")
      then http_error 400 "business_name, contact_name et email sont requis"
      else if not (e.parses_as_address i.email)
      then http_error 400 "email invalide"
      else (do s ← create_signup e i; answer_signup s)

  abbrev pub signup_decoded : Option PublicSignupInput → M Response
  signup_decoded none = http_error 400 "invalid_request"
  signup_decoded (some i) = signup_input (trimmed i)

  -- POST /public/signup
  unfoldable pub public_signup : Request → M Response
  public_signup r = signup_decoded (e.decode_signup (within_limit (deref r.body)))

  abbrev pub approve_marked : SignupRequest → App → String → String → Result (Unit {0}) → M Response
  approve_marked s app key secret (err _) = http_error 500 "update_failed"
  approve_marked s app key secret (ok _) = respond 200 (credentials app key secret (some s.email))

  -- The request's id is that of the row that was found by it.
  abbrev pub approve_created : SignupRequest → String → String → String → Result App → M Response
  approve_created s note key secret (err _) = http_error 500 "app_creation_failed"
  approve_created s note key secret (ok app) = do
    r ← mark_approved e s.id app.id note
    approve_marked s app key secret r

  abbrev pub approve_secret : SignupRequest → String → String → Result String → M Response
  approve_secret s note key (err _) = http_error 500 "key_generation_failed"
  approve_secret s note key (ok secret) = do
    app ← create e s.business_name (hash_token e key) (hash_token e secret) none
    approve_created s note key secret app

  abbrev pub approve_key : SignupRequest → String → Result String → M Response
  approve_key s note (err _) = http_error 500 "key_generation_failed"
  approve_key s note (ok key) = do secret ← generate_token e; approve_secret s note key secret

  unfoldable pub approve_found : String → Result SignupRequest → M Response
  approve_found note (err _) = http_error 404 "not_found"
  approve_found note (ok s) =
      if not (s.status == signup_pending)
      then http_error 409 "demande déjà traitée"
      else (do key ← generate_token e; approve_key s note key)

  abbrev pub signups_shown : Result (List SignupRequest) → M Response
  signups_shown (err _) = http_error 500 "list_failed"
  signups_shown (ok rows) = respond 200 (signups rows)

  -- GET /admin/signups
  unfoldable pub show_signups : Request → M Response
  show_signups r = do rows ← list_signups e (deref (r.query "status")); signups_shown rows

  -- POST /admin/signups/{id}/approve
  unfoldable pub approve_signup : Request → M Response
  approve_signup r = do
    s ← find_signup e (r.param "id")
    approve_found (e.decode_note (deref r.body)) s

  abbrev pub reject_marked : Result (Unit {0}) → M Response
  reject_marked (err _) = http_error 500 "update_failed"
  reject_marked (ok _) = respond 200 done

  unfoldable pub reject_found : String → Result SignupRequest → M Response
  reject_found note (err _) = http_error 404 "not_found"
  reject_found note (ok s) =
      if not (s.status == signup_pending)
      then http_error 409 "demande déjà traitée"
      else (do r ← mark_rejected e s.id note; reject_marked r)

  -- POST /admin/signups/{id}/reject
  unfoldable pub reject_signup : Request → M Response
  reject_signup r = do
    s ← find_signup e (r.param "id")
    reject_found (e.decode_note (deref r.body)) s
