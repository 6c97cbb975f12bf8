-- ===== src/Signup/Credentials.antt =====
-- The credentials of an approval are those that RequireApp asks for.
use abmcy_core_payment.Base.{
  ◌+◌, String, Bool, true, false, not, Option, none, ◌≡◌, subst, ◌==◌, deref, if◌then◌else◌,
}
use abmcy_core_payment.Model.{App, SignupRequest, signup_pending}
use abmcy_core_payment.World.{World, Env, Result, ok, err, M, ◌>>=◌}
use abmcy_core_payment.Http.{Request, Response, credentials, http_error}
use abmcy_core_payment.Repo.Apps.{create}
use abmcy_core_payment.Repo.Signups.{find_signup, mark_approved}
use abmcy_core_payment.Token.{generate_token, hash_token}
use abmcy_core_payment.Auth.{require_app}
use abmcy_core_payment.Payments.Handler.{lookup_app}
use abmcy_core_payment.Admin.Credentials.{
  IsOpened, IsOpenedIf, Opens, create-IsOpened, IsSignedWith, opened-require_app,
}
use abmcy_core_payment.Signup.{
  approve_signup, approve_found, approve_key, approve_secret, approve_created, approve_marked,
}
use abmcy_core_payment.Signup.Approval.{mark_approved-IsLinked}

module _ (e : Env) where
  module _ (s : SignupRequest) (note : String) where
    approve_marked-Opens :
        (app : App) (key secret : String) (r : Result (Unit {0})) (w : World)
        → IsOpened e key secret app w
        → (let a = approve_marked e s app key secret r w in Opens e a.1 a.0.body)
    approve_marked-Opens app key secret (err x) w o = tt
    approve_marked-Opens app key secret (ok u) w o = o

    approve_created-Opens :
        (key secret : String) (r : Result App) (w : World)
        → IsOpenedIf e key secret w r
        → (let a = approve_created e s note key secret r w in Opens e a.1 a.0.body)
    approve_created-Opens key secret (err x) w o = tt
    approve_created-Opens key secret (ok app) w o =
        let marked = mark_approved e s.id app.id note w in
        approve_marked-Opens app key secret marked.0 marked.1 (record {
          found = rw (mark_approved-IsLinked e s app note w).0 o.found;
          digest = o.digest;
        })

    approve_secret-Opens :
        (key : String) (r : Result String) (w : World)
        → (let a = approve_secret e s note key r w in Opens e a.1 a.0.body)
    approve_secret-Opens key (err x) w = tt
    approve_secret-Opens key (ok secret) w =
        let made = create e s.business_name (hash_token e key) (hash_token e secret) none w in
        approve_created-Opens key secret made.0 made.1
          (create-IsOpened e key secret s.business_name none w)

    approve_key-Opens :
        (r : Result String) (w : World) → (let a = approve_key e s note r w in Opens e a.1 a.0.body)
    approve_key-Opens (err x) w = tt
    approve_key-Opens (ok key) w =
        approve_secret-Opens key (generate_token e w).0 (generate_token e w).1

  approve_found-Opens :
      (note : String) (r : Result SignupRequest) (w : World)
      → (let a = approve_found e note r w in Opens e a.1 a.0.body)
  unfolding approve_found
  approve_found-Opens note (err x) w = tt
  approve_found-Opens note (ok s) w = by_test (not (s.status == signup_pending))
    where
      by_test :
          (b : Bool)
          → (let m : M Response =
                if b
                then http_error 409 "demande déjà traitée"
                else generate_token e >>= approve_key e s note in
              Opens e (m w).1 (m w).0.body)
      by_test true = tt
      by_test false = approve_key-Opens s note (generate_token e w).0 (generate_token e w).1

  approve_signup-Opens :
      (r : Request) (w : World) → (let a = approve_signup e r w in Opens e a.1 a.0.body)
  unfolding approve_signup
  approve_signup-Opens r w =
      let s = find_signup e (r.param "id") w in
      approve_found-Opens (e.decode_note (deref r.body)) s.0 s.1

  -- The credentials that an approval shows let the new app in: a request with this key, signed with
  -- the digest of this secret, is answered by the endpoint, for this app, where the lookup runs and
  -- the app has an id.
  pub approve_signup-require_app :
      (next : String → Request → M Response) (r q : Request) (w : World) (app : App)
      (key secret body : String) (email : Option String)
      → (approve_signup e r w).0.body ≡ credentials app key secret email
      → IsSignedWith e app key secret body q (approve_signup e r w).1
      → require_app e (lookup_app e) next q (approve_signup e r w).1
        ≡ next app.id q
            (record (approve_signup e r w).1 { tick = (approve_signup e r w).1.tick + 1 })
  approve_signup-require_app next r q w app key secret body email shown s =
      let a = approve_signup e r w in
      opened-require_app e next q a.1 app key secret body
        (subst (Opens e a.1) shown (approve_signup-Opens r w)) s
