-- ===== src/Tests/Signed.antt =====
-- A request for an account is approved, once; and another is made.
use abmcy_core_payment.Base.{String-discrete, none, some, [], ◌∷◌, ◌≡◌, ◌≢◌, refl, ◌⊎◌, find}
use abmcy_core_payment.Model.{SignupRequest, signup_pending}
use abmcy_core_payment.World.{World, Env}
use abmcy_core_payment.Repo.Signups.Unique.{IsUnique}
use abmcy_core_payment.Signup.{public_signup, approve_signup, reject_signup}
use abmcy_core_payment.Signup.Unique.{signups-IsUnique}
use abmcy_core_payment.Signup.Approval.{Issues, approve_signup-Issues}
use abmcy_core_payment.Tests.Samples.{calm, some_request, new_shop}

abbrev pub applicant : SignupRequest
applicant = record {
  id = "";
  business_name = "shop";
  contact_name = "ann";
  email = "ann@shop.example";
  phone = none;
  website = none;
  country = none;
  description = none;
  expected_volume = none;
  status = signup_pending;
  review_note = none;
  app_id = none;
  created_at = 0;
  reviewed_at = none;
}

abbrev pub asked : World
asked = record new_shop { signups = applicant ∷ [] }

approve_signup-Issues_example :
    ((applicant.status ≡ signup_pending)
      × Issues calm applicant
          (approve_signup calm some_request asked).1
          (approve_signup calm some_request asked).0.body)
    ⊎ ((applicant.status ≢ signup_pending)
        × ((approve_signup calm some_request asked).0.status ≡ 409)
        × ((approve_signup calm some_request asked).1 ≡ record asked { tick = 1 }))
unfolding find String-discrete
approve_signup-Issues_example = approve_signup-Issues calm some_request applicant asked refl refl

-- Bea asks while the request of Ann is pending.
abbrev asking : Env
asking = record calm {
  decode_signup = λ _. some (record {
    business_name = "bakery";
    contact_name = "bea";
    email = "bea@bakery.example";
    phone = "";
    website = "";
    country = "";
    description = "";
    expected_volume = "";
  });
}

signups-IsUnique_example :
    IsUnique asking (public_signup asking some_request asked).1.signups
    × IsUnique asking (approve_signup asking some_request asked).1.signups
    × IsUnique asking (reject_signup asking some_request asked).1.signups
unfolding IsUnique
signups-IsUnique_example = signups-IsUnique asking some_request asked (tt, tt)
