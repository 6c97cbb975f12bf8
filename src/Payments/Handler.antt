-- ===== src/Payments/Handler.antt =====
-- PaymentHandler of payment_handler.go, and what its endpoints share.
use Prim.Native.String.{◌++◌, len, slice}
use abmcy_core_payment.Base.{◌-◌, String, ◌&&◌, ◌||◌, ◌==◌, leb, if◌then◌else◌}
use abmcy_core_payment.Int64.{ℤ, pos, leb_ℤ}
use abmcy_core_payment.Fees.{default_usd_rate}
use abmcy_core_payment.Gateway.{Config}
use abmcy_core_payment.Model.{App, pending, processing, completed, failed, cancelled}
use abmcy_core_payment.World.{Env, Result, ok, err, M, pure, ◌>>=◌}
use abmcy_core_payment.Repo.Apps.{find_by_key_hash}
use abmcy_core_payment.Auth.{AppLookup}

pub record PaymentHandler : Type 0 where
  pub diarra : Config
  pub diarra_hmac_secret_hash : String
  pub self_callback_url : String
  pub public_base_url : String
  pub usd_rate : ℤ

-- strings.TrimSuffix
unfoldable pub trim_suffix : String → String → String
trim_suffix s suffix =
    let k = len s - len suffix in
    if leb (len suffix) (len s) && slice s k (len s) == suffix then slice s 0 k else s

unfoldable pub new_payment_handler : Config → String → String → ℤ → PaymentHandler
unfolding trim_suffix
new_payment_handler diarra secret_hash self_callback_url usd_rate = record {
  diarra = diarra;
  diarra_hmac_secret_hash = secret_hash;
  self_callback_url = self_callback_url;
  public_base_url = trim_suffix (trim_suffix self_callback_url "/webhooks/diarra") "/";
  usd_rate = if leb_ℤ usd_rate (pos 0) then default_usd_rate else usd_rate;
}

unfoldable pub hosted_pay_url : PaymentHandler → String → String
hosted_pay_url h ref = if h.public_base_url == "" then "" else h.public_base_url ++ "/pay/" ++ ref

-- An unknown status of the gateway counts as processing.
unfoldable pub normalize_status : String → String
normalize_status s =
    if s == pending || (s == processing || (s == completed || (s == failed || s == cancelled)))
    then s
    else processing

abbrev pub lookup_of : Result App → Result AppLookup
lookup_of (ok a) = ok (record { id = a.id; hmac_secret_hash = a.hmac_secret_hash })
lookup_of (err x) = err x

-- LookupApp: only active apps.
unfoldable pub lookup_app : Env → String → M (Result AppLookup)
lookup_app e key_hash = do a ← find_by_key_hash e key_hash; pure (lookup_of a)
