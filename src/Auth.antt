-- ===== src/Auth.antt =====
-- internal/middleware/app_auth.go and admin_auth.go: who may call what.
pub mod Window
pub mod Guards
pub mod Signature
pub mod Bearer
use Prim.Native.String.{◌++◌, len, slice}
use text.Mathlib.Text.{starts_with}
use abmcy_core_payment.Base.{
  ℕ, ◌+◌, ◌*◌, ◌-◌, ◌^◌, String, Bool, false, not, ◌||◌, Option, none, some, ◌==◌, codes, leb,
  if◌then◌else◌,
}
use abmcy_core_payment.Int64.{ℤ, pos, negsuc, ◌+ℤ◌, ◌-ℤ◌, ◌*ℤ◌, ltb_ℤ, wrap, neg64}
use abmcy_core_payment.Decimal.{parse_int}
use abmcy_core_payment.World.{Env, Result, ok, err, M, ◌>>=◌}
use abmcy_core_payment.Http.{Request, Response, http_error}

pub record AppLookup : Type 0 where
  pub id : String
  pub hmac_secret_hash : String

-- Five minutes, in nanoseconds.
abbrev pub signature_max_age : ℤ
signature_max_age = pos (300 * 10 ^ 9)

-- From the year 1 to 1970, in seconds: what `time.Unix` adds to its argument, in an int64.
abbrev pub unix_to_internal : ℕ
unix_to_internal = 62135596800

-- A `Duration` that is out of range is the least or the greatest one.
unfoldable pub saturate : ℤ → ℤ
saturate a =
    if ltb_ℤ (pos (2 ^ 63 - 1)) a
    then pos (2 ^ 63 - 1)
    else if ltb_ℤ a (negsuc (2 ^ 63 - 1))
    then negsuc (2 ^ 63 - 1)
    else a

-- time.Since(time.Unix(ts, 0)) at `now`
unfoldable pub since : ℕ → ℤ → ℤ
since now ts =
    saturate
      (pos (now + unix_to_internal * 10 ^ 9) -ℤ wrap (ts +ℤ pos unix_to_internal) *ℤ pos (10 ^ 9))

-- `if age < 0 { age = -age }; if age > signatureMaxAge { return false }`
unfoldable pub is_recent : ℕ → ℤ → Bool
is_recent now ts =
    let age = since now ts in
    let age' = if ltb_ℤ age (pos 0) then neg64 age else age in not (ltb_ℤ signature_max_age age')

abbrev recent_header : ℕ → Option ℤ → Bool
recent_header now none = false
recent_header now (some ts) = is_recent now ts

unfoldable pub verify_signature : Env → ℕ → String → Request → String → Bool
verify_signature e now hmac_secret_hash r body =
    let sig = r.header "X-Abmcy-Signature" in
    let ts = r.header "X-Abmcy-Timestamp" in
    if hmac_secret_hash == ""
    then false
    else if sig == "" || ts == ""
    then false
    else if not (recent_header now (parse_int (codes ts)))
    then false
    else e.hmac_hex hmac_secret_hash (ts ++ "." ++ body) == sig

module _ (e : Env) (lookup : String → M (Result AppLookup))
    (next : String → Request → M Response) where
  abbrev pub verified_body : AppLookup → Request → Option String → M Response
  verified_body app r none w = http_error 400 "read_failed" w
  verified_body app r (some body) w =
      if verify_signature e (e.now w.tick) app.hmac_secret_hash r body
      then next app.id r w
      else http_error 401 "invalid_signature" w

  unfoldable pub verified : AppLookup → Request → M Response
  verified app r = verified_body app r r.body

  unfoldable pub identified : Request → Result AppLookup → M Response
  identified r (err _) = http_error 401 "invalid_app_key"
  identified r (ok app) = if app.id == "" then http_error 401 "invalid_app_key" else verified app r

  unfoldable pub require_app : Request → M Response
  require_app r =
      let key = r.header "X-App-Key" in
      if key == ""
      then http_error 401 "missing_app_key"
      else (do app ← lookup (e.sha256_hex key); identified r app)

-- The header has a token behind "Bearer ".
abbrev pub is_bearer : String → Bool
is_bearer auth = not (leb (len auth) 7 || not (starts_with auth "Bearer "))

abbrev pub supplied_token : String → String
supplied_token auth = slice auth 7 (len auth)

unfoldable pub require_admin : String → (Request → M Response) → Request → M Response
require_admin token next r =
    if token == ""
    then http_error 503 "admin_disabled"
    else if not (is_bearer (r.header "Authorization"))
    then http_error 401 "missing_admin_token"
    else if supplied_token (r.header "Authorization") == token
    then next r
    else http_error 401 "invalid_admin_token"
