-- ===== src/Tests/Guarded.antt =====
-- Requests that pass the guards, and requests that do not.
use Prim.Native.String.{◌++◌}
use abmcy_core_payment.Base.{
  String-discrete, ◌-◌, ◌*◌, ◌^◌, String, true, false, ◌||◌, ◌≡◌, ◌≢◌, refl, ◌⊎◌, arith, ◌==◌, find,
  if◌then◌else◌,
}
use abmcy_core_payment.Int64.{pos, wrap, ◌+ℤ◌, ◌-ℤ◌, ◌*ℤ◌, neg64}
use abmcy_core_payment.Decimal.{parse_int, scan_number, scan_digits}
use abmcy_core_payment.Model.{App}
use abmcy_core_payment.World.{M, statement}
use abmcy_core_payment.Http.{Request, Response, empty, respond}
use abmcy_core_payment.Auth.{
  is_recent, require_app, identified, verified, require_admin, verify_signature, since, saturate,
}
use abmcy_core_payment.Auth.Window.{is_near, is_far, is_recent-described}
use abmcy_core_payment.Auth.Guards.{IsRefused}
use abmcy_core_payment.Auth.Signature.{IsCaller, after_lookup, require_app-IsCaller}
use abmcy_core_payment.Auth.Bearer.{require_admin-passes}
use abmcy_core_payment.Repo.Apps.{find_by_key_hash}
use abmcy_core_payment.Payments.Handler.{lookup_app}
use abmcy_core_payment.Tests.Samples.{calm, some_request, app_request, new_shop}

-- A minute late.
is_recent-described_example :
    is_recent (1_700_000_060 * 10 ^ 9) (pos 1_700_000_000)
    ≡ is_near (1_700_000_060 * 10 ^ 9) (pos 1_700_000_000)
      || is_far (1_700_000_060 * 10 ^ 9) (pos 1_700_000_000)
is_recent-described_example =
    is_recent-described (1_700_000_060 * 10 ^ 9) (pos 1_700_000_000) (omega arith) (omega arith)

-- The year 2338, and the last second of an int64.
is_recent_far : is_recent (1_700_000_000 * 10 ^ 9) (pos 11_600_000_000) ≡ true
unfolding is_recent since saturate wrap ◌+ℤ◌ ◌-ℤ◌ ◌*ℤ◌ neg64
is_recent_far = refl

is_recent_last : is_recent (1_700_000_000 * 10 ^ 9) (pos (2 ^ 63 - 1)) ≡ false
unfolding is_recent since saturate wrap ◌+ℤ◌ ◌-ℤ◌ ◌*ℤ◌ neg64
is_recent_last = refl

abbrev answer : String → Request → M Response
answer id r = respond 200 empty

require_app-IsCaller_example :
    ((app : App) × (body : String) × IsCaller calm app body app_request new_shop
      × (require_app calm (lookup_app calm) answer app_request new_shop
          ≡ answer app.id app_request (record new_shop { tick = 1 })))
    ⊎ (((app : App) (body : String) → ¬ IsCaller calm app body app_request new_shop)
        × IsRefused
            (after_lookup app_request new_shop)
            (require_app calm (lookup_app calm) answer app_request new_shop))
require_app-IsCaller_example = require_app-IsCaller calm app_request new_shop (omega arith) answer

-- It is the first of the two: the request is answered.
app_request_answered :
    (require_app calm (lookup_app calm) answer app_request new_shop).0.status ≡ 200
unfolding require_app identified verified lookup_app find_by_key_hash statement find
    verify_signature is_recent since saturate wrap ◌+ℤ◌ ◌-ℤ◌ ◌*ℤ◌ neg64 parse_int scan_number
    scan_digits String-discrete
app_request_answered = refl

abbrev admin_token : String
admin_token = "admin"

abbrev admin_headers : String → String
admin_headers name = if name == "Authorization" then "Bearer admin" else ""

abbrev admin_request : Request
admin_request = record some_request { header = admin_headers }

require_admin-passes_example :
    ((admin_token ≢ "")
      × (admin_request.header "Authorization" ≡ "Bearer " ++ admin_token)
      × (require_admin admin_token (answer "") admin_request new_shop
          ≡ answer "" admin_request new_shop))
    ⊎ (((admin_token ≢ "") → admin_request.header "Authorization" ≢ "Bearer " ++ admin_token)
        × ((require_admin admin_token (answer "") admin_request new_shop).1 ≡ new_shop)
        × (((require_admin admin_token (answer "") admin_request new_shop).0.status ≡ 401)
            ⊎ ((require_admin admin_token (answer "") admin_request new_shop).0.status ≡ 503)))
require_admin-passes_example = require_admin-passes admin_token (answer "") admin_request new_shop
