-- ===== src/Repo/Signups.antt =====
-- internal/repository/signup_repo.go, the table `signup_requests`.
pub mod Unique
use abmcy_core_payment.Base.{
  ℕ, String, Bool, not, ◌&&◌, ◌||◌, Option, none, some, ◌∷◌, ◌==◌, non_empty, any, find, filter,
  take, List, update, if◌then◌else◌,
}
use abmcy_core_payment.Model.{
  App, SignupRequest, PublicSignupInput, signup_pending, signup_approved, signup_rejected,
}
use abmcy_core_payment.World.{
  Env, Result, ok, err, signup_not_found, signup_pending_exists, unique_violation,
  foreign_key_violation, M, statement,
}

abbrev pub scan_signup : Option SignupRequest → Result SignupRequest
scan_signup none = err signup_not_found
scan_signup (some s) = ok s

-- The row of the INSERT, with the defaults of migration 005.
abbrev pub new_signup : String → ℕ → PublicSignupInput → SignupRequest
new_signup id now i = record {
  id = id;
  business_name = i.business_name;
  contact_name = i.contact_name;
  email = i.email;
  phone = non_empty i.phone;
  website = non_empty i.website;
  country = non_empty i.country;
  description = non_empty i.description;
  expected_volume = non_empty i.expected_volume;
  status = signup_pending;
  review_note = none;
  app_id = none;
  created_at = now;
  reviewed_at = none;
}

-- A unique violation becomes ErrSignupPendingExists.
abbrev pub name_violation : Result SignupRequest → Result SignupRequest
name_violation (ok s) = ok s
name_violation (err unique_violation) = err signup_pending_exists
name_violation (err x) = err x

module _ (e : Env) where
  -- uq_signup_pending_email: one pending request for an address, in small letters. The primary key
  -- is unique too.
  abbrev pub clashes_signup : SignupRequest → SignupRequest → Bool
  clashes_signup s t =
      s.id == t.id || (t.status == signup_pending && e.lower s.email == e.lower t.email)

  unfoldable pub insert_signup : SignupRequest → M (Result SignupRequest)
  insert_signup s w =
      if any (clashes_signup s) w.signups
      then (err unique_violation, w)
      else (ok s, record w { signups = s ∷ w.signups })

  unfoldable pub create_signup : PublicSignupInput → M (Result SignupRequest)
  unfolding insert_signup
  create_signup i w =
      let (r, w') =
        statement e (insert_signup (new_signup (e.gen_uuid w.tick) (e.now w.tick) i)) w in
      (name_violation r, w')

  unfoldable pub find_signup : String → M (Result SignupRequest)
  find_signup id = statement e λ w. (scan_signup (find (λ s. s.id == id) w.signups), w)

  -- The newest 500, of any status or of one.
  unfoldable pub list_signups : String → M (Result (List SignupRequest))
  list_signups status w =
      statement e
        (λ v. (
          ok (
              take 500 (
                (e.arrange w.tick).signups_by_age
                  (filter (λ s. status == "" || s.status == status) v.signups))),
          v,
        ))
        w

  -- Both updates end a request, whatever its status was.
  unfoldable pub mark_approved : String → String → String → M (Result (Unit {0}))
  mark_approved id app_id note w =
      let now = e.now w.tick in
      statement e
        (λ w.
          if any (λ (s : SignupRequest). s.id == id) w.signups
            && not (any (λ (a : App). a.id == app_id) w.apps)
          then (err foreign_key_violation, w)
          else (
            ok tt,
            record w {
              signups =
                  update (λ s. s.id == id)
                    (λ s. record s {
                      status = signup_approved;
                      app_id = some app_id;
                      review_note = non_empty note;
                      reviewed_at = some now;
                    })
                    w.signups;
            },
          ))
        w

  unfoldable pub mark_rejected : String → String → M (Result (Unit {0}))
  mark_rejected id note w =
      let now = e.now w.tick in
      statement e
        (λ w. (
          ok tt,
          record w {
            signups =
                update (λ s. s.id == id)
                  (λ s. record s {
                    status = signup_rejected;
                    review_note = non_empty note;
                    reviewed_at = some now;
                  })
                  w.signups;
          },
        ))
        w
