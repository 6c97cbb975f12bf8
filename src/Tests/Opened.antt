-- ===== src/Tests/Opened.antt =====
-- The credentials of a new app and those of an approval, and requests with them.
use Prim.Native.String.{◌++◌}
use text.Mathlib.TextEquality.{eq_iff}
use abmcy_core_payment.Base.{
  String-discrete, String, any, find, true, none, some, refl, arith, ◌≡◌, ◌+◌, ◌==◌, if◌then◌else◌,
}
use abmcy_core_payment.Model.{App}
use abmcy_core_payment.World.{World, statement}
use abmcy_core_payment.Http.{Request, credentials}
use abmcy_core_payment.Int64.{◌+ℤ◌, ◌-ℤ◌, ◌*ℤ◌, wrap, neg64}
use abmcy_core_payment.Decimal.{format_int, text_of_digits, parse_int, scan_number, scan_digits}
use abmcy_core_payment.Uuid.{hex}
use abmcy_core_payment.Token.{generate_token, hash_token}
use abmcy_core_payment.Repo.Apps.{new_app, create}
use abmcy_core_payment.Auth.{require_app, verify_signature, is_recent, since, saturate}
use abmcy_core_payment.Signup.{approve_signup, approve_found}
use abmcy_core_payment.Signup.Credentials.{approve_signup-require_app}
use abmcy_core_payment.Repo.Signups.{find_signup, mark_approved}
use abmcy_core_payment.Tests.Signed.{applicant, asked}
use abmcy_core_payment.Admin.{create_app, create_app_input}
use abmcy_core_payment.Admin.Credentials.{IsSignedWith, create_app-require_app}
use abmcy_core_payment.Payments.Handler.{lookup_app}
use abmcy_core_payment.Payments.Pay.{pay}
use abmcy_core_payment.Server.{relayer}
use abmcy_core_payment.Tests.Samples.{calm, shop, some_request, new_shop}

abbrev given_key : String
given_key = "0000000000000000000000000000000000000000000000000000000000000000"

abbrev given_secret : String
given_secret = "0101010101010101010101010101010101010101010101010101010101010101"

-- The headers of a request with this key, signed with the digest of this secret.
abbrev new_headers : String → String → String → String
new_headers key secret name =
    if name == "X-App-Key"
    then key
    else if name == "X-Abmcy-Timestamp"
    then "1700000000"
    else if name == "X-Abmcy-Signature"
    then "#" ++ secret ++ ":1700000000.{}"
    else ""

abbrev new_request : Request
new_request = record some_request { header = new_headers given_key given_secret }

abbrev opened : World
opened = (create_app calm (relayer calm shop) some_request new_shop).1

abbrev made_app : App
made_app = new_app "id-2" (calm.now 2) "shop" ("#" ++ given_key) ("#" ++ given_secret) none

shown :
    (create_app calm (relayer calm shop) some_request new_shop).0.body
    ≡ credentials made_app given_key given_secret none
unfolding create_app create_app_input String-discrete generate_token create statement any
    text_of_digits format_int hex
shown = refl

opened_tick : opened.tick ≡ 3
unfolding create_app create_app_input String-discrete generate_token create statement any
    text_of_digits format_int hex
opened_tick = refl

just_signed :
    verify_signature calm (calm.now 4) (hash_token calm given_secret) new_request "{}" ≡ true
unfolding verify_signature is_recent since saturate wrap ◌+ℤ◌ ◌-ℤ◌ ◌*ℤ◌ neg64 parse_int scan_number
    scan_digits String-discrete
just_signed = refl

signed : IsSignedWith calm made_app given_key given_secret "{}" new_request opened
unfolding statement String-discrete
signed = record {
  runs = refl;
  named = ground (arith, eq_iff "id-2" "");
  given = ground (arith, eq_iff given_key "");
  sent = refl;
  read = refl;
  signed = rw opened_tick just_signed;
}

create_app-require_app_example :
    require_app calm (lookup_app calm) (pay calm shop) new_request opened
    ≡ pay calm shop made_app.id new_request (record opened { tick = opened.tick + 1 })
create_app-require_app_example =
    create_app-require_app calm (relayer calm shop) (pay calm shop) some_request new_request
      new_shop made_app given_key given_secret "{}" none shown signed

abbrev approved_key : String
approved_key = "0101010101010101010101010101010101010101010101010101010101010101"

abbrev approved_secret : String
approved_secret = "0202020202020202020202020202020202020202020202020202020202020202"

abbrev approved_request : Request
approved_request = record some_request { header = new_headers approved_key approved_secret }

abbrev approved : World
approved = (approve_signup calm some_request asked).1

abbrev approved_app : App
approved_app =
    new_app "id-3" (calm.now 3) "shop" ("#" ++ approved_key) ("#" ++ approved_secret) none

approved_shown :
    (approve_signup calm some_request asked).0.body
    ≡ credentials approved_app approved_key approved_secret (some applicant.email)
unfolding approve_signup approve_found find_signup mark_approved String-discrete generate_token
    create statement any find text_of_digits format_int hex
approved_shown = refl

approved_tick : approved.tick ≡ 5
unfolding approve_signup approve_found find_signup mark_approved String-discrete generate_token
    create statement any find text_of_digits format_int hex
approved_tick = refl

approved_just_signed :
    verify_signature calm (calm.now 6) (hash_token calm approved_secret) approved_request "{}"
    ≡ true
unfolding verify_signature is_recent since saturate wrap ◌+ℤ◌ ◌-ℤ◌ ◌*ℤ◌ neg64 parse_int scan_number
    scan_digits String-discrete
approved_just_signed = refl

approved_signed :
    IsSignedWith calm approved_app approved_key approved_secret "{}" approved_request approved
unfolding statement String-discrete
approved_signed = record {
  runs = refl;
  named = ground (arith, eq_iff "id-3" "");
  given = ground (arith, eq_iff approved_key "");
  sent = refl;
  read = refl;
  signed = rw approved_tick approved_just_signed;
}

approve_signup-require_app_example :
    require_app calm (lookup_app calm) (pay calm shop) approved_request approved
    ≡ pay calm shop approved_app.id approved_request (record approved { tick = approved.tick + 1 })
approve_signup-require_app_example =
    approve_signup-require_app calm (pay calm shop) some_request approved_request asked approved_app
      approved_key approved_secret "{}" (some applicant.email) approved_shown approved_signed
