-- ===== src/Signup/Unique.antt =====
-- An address has one pending request at most, whatever is asked and reviewed.
use abmcy_core_payment.Base.{String, not, ◌||◌, Option, none, some, ◌==◌, deref}
use abmcy_core_payment.Model.{App, SignupRequest, PublicSignupInput, signup_pending}
use abmcy_core_payment.World.{World, Env, Result, ok, err, signup_pending_exists}
use abmcy_core_payment.Http.{Request}
use abmcy_core_payment.Repo.Apps.{create}
use abmcy_core_payment.Repo.Signups.{create_signup, find_signup, mark_approved, mark_rejected}
use abmcy_core_payment.Repo.Signups.Unique.{
  IsUnique, IsStable, IsStable-pure, IsStable-bind, IsStable-if, create_signup-IsStable,
  find_signup-IsStable, generate_token-IsStable, create-IsStable, mark_approved-IsStable,
  mark_rejected-IsStable,
}
use abmcy_core_payment.Token.{generate_token, hash_token}
use abmcy_core_payment.Signup.{
  within_limit, trimmed, answer_signup, signup_input, signup_decoded, public_signup, approve_marked,
  approve_created, approve_secret, approve_key, approve_found, approve_signup, reject_marked,
  reject_found, reject_signup,
}

module _ (e : Env) where
  answer_signup-IsStable : (r : Result SignupRequest) → IsStable e (answer_signup e r)
  answer_signup-IsStable r = record { at = λ w h. by_result r w h }
    where
      by_result :
          (r : Result SignupRequest) (w : World)
          → IsUnique e w.signups
          → IsUnique e (answer_signup e r w).1.signups
      by_result (ok s) w h = h
      by_result (err signup_pending_exists) w h = h
      by_result (err x) w h = h

  signup_input-IsStable : (i : PublicSignupInput) → IsStable e (signup_input e i)
  unfolding signup_input
  signup_input-IsStable i =
      IsStable-if e (i.business_name == "" || (i.contact_name == "" || i.email == ""))
        (IsStable-pure e _)
        (IsStable-if e (not (e.parses_as_address i.email)) (IsStable-pure e _) (
          IsStable-bind e (create_signup e i) (answer_signup e) (create_signup-IsStable e i)
            answer_signup-IsStable))

  signup_decoded-IsStable : (o : Option PublicSignupInput) → IsStable e (signup_decoded e o)
  signup_decoded-IsStable none = IsStable-pure e _
  signup_decoded-IsStable (some i) = signup_input-IsStable (trimmed e i)

  approve_marked-IsStable :
      (s : SignupRequest) (app : App) (key secret : String) (r : Result (Unit {0}))
      → IsStable e (approve_marked e s app key secret r)
  approve_marked-IsStable s app key secret (err x) = IsStable-pure e _
  approve_marked-IsStable s app key secret (ok u) = IsStable-pure e _

  approve_created-IsStable :
      (s : SignupRequest) (note key secret : String) (r : Result App)
      → IsStable e (approve_created e s note key secret r)
  approve_created-IsStable s note key secret (err x) = IsStable-pure e _
  approve_created-IsStable s note key secret (ok app) =
      IsStable-bind e (mark_approved e s.id app.id note) (approve_marked e s app key secret)
        (mark_approved-IsStable e s.id app.id note) (approve_marked-IsStable s app key secret)

  approve_secret-IsStable :
      (s : SignupRequest) (note key : String) (r : Result String)
      → IsStable e (approve_secret e s note key r)
  approve_secret-IsStable s note key (err x) = IsStable-pure e _
  approve_secret-IsStable s note key (ok secret) =
      IsStable-bind e (create e s.business_name (hash_token e key) (hash_token e secret) none)
        (approve_created e s note key secret)
        (create-IsStable e s.business_name (hash_token e key) (hash_token e secret) none)
        (approve_created-IsStable s note key secret)

  approve_key-IsStable :
      (s : SignupRequest) (note : String) (r : Result String) → IsStable e (approve_key e s note r)
  approve_key-IsStable s note (err x) = IsStable-pure e _
  approve_key-IsStable s note (ok key) =
      IsStable-bind e (generate_token e) (approve_secret e s note key) (generate_token-IsStable e)
        (approve_secret-IsStable s note key)

  approve_found-IsStable :
      (note : String) (r : Result SignupRequest) → IsStable e (approve_found e note r)
  unfolding approve_found
  approve_found-IsStable note (err x) = IsStable-pure e _
  approve_found-IsStable note (ok s) =
      IsStable-if e (not (s.status == signup_pending)) (IsStable-pure e _) (
        IsStable-bind e (generate_token e) (approve_key e s note) (generate_token-IsStable e)
          (approve_key-IsStable s note))

  reject_marked-IsStable : (r : Result (Unit {0})) → IsStable e (reject_marked e r)
  reject_marked-IsStable (err x) = IsStable-pure e _
  reject_marked-IsStable (ok u) = IsStable-pure e _

  reject_found-IsStable :
      (note : String) (r : Result SignupRequest) → IsStable e (reject_found e note r)
  unfolding reject_found
  reject_found-IsStable note (err x) = IsStable-pure e _
  reject_found-IsStable note (ok s) =
      IsStable-if e (not (s.status == signup_pending)) (IsStable-pure e _) (
        IsStable-bind e (mark_rejected e s.id note) (reject_marked e)
          (mark_rejected-IsStable e s.id note) reject_marked-IsStable)

  -- An address has one pending request at most: a request for an account, an approval and a
  -- rejection each keep the addresses of pending requests, in small letters, apart from each
  -- other. So it is whatever the database answers.
  pub signups-IsUnique :
      (r : Request) (w : World)
      → IsUnique e w.signups
      → IsUnique e (public_signup e r w).1.signups
        × IsUnique e (approve_signup e r w).1.signups
        × IsUnique e (reject_signup e r w).1.signups
  unfolding public_signup approve_signup reject_signup
  signups-IsUnique r w h =
      let note = e.decode_note (deref r.body) in
      let found = find_signup-IsStable e (r.param "id") in
      (
        (signup_decoded-IsStable (e.decode_signup (within_limit e (deref r.body)))).at w h,
        (IsStable-bind e (find_signup e (r.param "id")) (approve_found e note) found
              (approve_found-IsStable note)).at
            w h,
        (IsStable-bind e (find_signup e (r.param "id")) (reject_found e note) found
              (reject_found-IsStable note)).at
            w h,
      )
