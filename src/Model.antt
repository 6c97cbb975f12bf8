-- ===== src/Model.antt =====
-- internal/model/app.go and internal/model/signup.go: the rows of the three tables, the inputs of
-- the endpoints and the limits. A `*string` is an `Option`; times are nanoseconds since 1970.
use abmcy_core_payment.Base.{ℕ, String, Bool, Option, if◌then◌else◌, ◌==◌}
use abmcy_core_payment.Int64.{ℤ, pos}

pub record App : Type 0 where
  pub id : String
  pub name : String
  pub api_key_hash : String
  pub hmac_secret_hash : String
  pub default_callback_url : Option String
  pub is_active : Bool
  pub kyc_level : String
  pub created_at : ℕ
  pub updated_at : ℕ

abbrev pub kyc_none : String
kyc_none = "none"

abbrev pub kyc_verified : String
kyc_verified = "verified"

abbrev pub max_amount_no_kyc : ℤ
max_amount_no_kyc = pos 200_000

abbrev pub max_amount_verified : ℤ
max_amount_verified = pos 1_000_000

unfoldable pub max_amount_for : String → ℤ
max_amount_for kyc_level =
    if kyc_level == kyc_verified then max_amount_verified else max_amount_no_kyc

abbrev pub type_deposit : String
type_deposit = "deposit"

abbrev pub type_payout : String
type_payout = "payout"

abbrev pub type_refund : String
type_refund = "refund"

abbrev pub pending : String
pending = "pending"

abbrev pub processing : String
processing = "processing"

abbrev pub completed : String
completed = "completed"

abbrev pub failed : String
failed = "failed"

abbrev pub cancelled : String
cancelled = "cancelled"

abbrev pub relay_pending : String
relay_pending = "pending"

abbrev pub relay_delivered : String
relay_delivered = "delivered"

abbrev pub relay_failed : String
relay_failed = "failed"

abbrev pub relay_skipped : String
relay_skipped = "skipped"

pub record Payment : Type 0 where
  pub id : String
  pub app_id : String
  pub app_ref : String
  pub diarra_client_ref : String
  pub kind : String
  pub provider : Option String
  pub status : String
  pub failure_reason : Option String
  pub amount_cfa : ℤ
  pub fee_cfa : ℤ
  pub net_cfa : Option ℤ
  pub usd_rate_used : Option ℤ
  pub currency : String
  pub description : Option String
  pub redirect_url : Option String
  pub callback_url : Option String
  pub return_url : Option String
  pub refund_of_payment_id : Option String
  pub recipient_phone : Option String
  pub recipient_operator : Option String
  pub country : Option String
  pub relay_status : String
  pub relay_attempts : ℕ
  pub relay_last_error : Option String
  pub relay_last_attempt_at : Option ℕ
  pub created_at : ℕ
  pub updated_at : ℕ

pub record PaymentWithApp : Type 0 where
  pub payment : Payment
  pub app_name : String

pub record CreatePaymentInput : Type 0 where
  pub app_ref : String
  pub amount_cfa : ℤ
  pub country : String
  pub description : String
  pub callback_url : String
  pub return_url : String

pub record CreateRefundInput : Type 0 where
  pub deposit_app_ref : String
  pub refund_app_ref : String
  pub callback_url : String

pub record CreatePayoutInput : Type 0 where
  pub app_ref : String
  pub amount_cfa : ℤ
  pub recipient_phone : String
  pub recipient_operator : String
  pub country : String
  pub description : String
  pub callback_url : String

abbrev pub signup_pending : String
signup_pending = "pending"

abbrev pub signup_approved : String
signup_approved = "approved"

abbrev pub signup_rejected : String
signup_rejected = "rejected"

pub record SignupRequest : Type 0 where
  pub id : String
  pub business_name : String
  pub contact_name : String
  pub email : String
  pub phone : Option String
  pub website : Option String
  pub country : Option String
  pub description : Option String
  pub expected_volume : Option String
  pub status : String
  pub review_note : Option String
  pub app_id : Option String
  pub created_at : ℕ
  pub reviewed_at : Option ℕ

pub record PublicSignupInput : Type 0 where
  pub business_name : String
  pub contact_name : String
  pub email : String
  pub phone : String
  pub website : String
  pub country : String
  pub description : String
  pub expected_volume : String
