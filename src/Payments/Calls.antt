-- ===== src/Payments/Calls.antt =====
-- What a call of the gateway does to the world, and what sends nothing.
use abmcy_core_payment.Base.{
  String, Bool, true, false, ◌∷◌, ◌≡◌, refl, ◌⊎◌, inl, inr, if◌then◌else◌,
}
use abmcy_core_payment.World.{
  World, Env, Fault, fine, refused, reply_lost, Result, err, HttpRequest, Payload, Transaction,
  statement, run_statement, message,
}
use abmcy_core_payment.Http.{send}
use abmcy_core_payment.Gateway.{Config, do_signed, signed_request, read_reply}
use abmcy_core_payment.Repo.Apps.{find_by_id}
use abmcy_core_payment.Repo.Payments.{find_payment_by_app_ref_type}
use abmcy_core_payment.Uuid.{abmcy_uuid}

-- No row changes, and nothing is sent, or one request with this payload.
pub record IsCall (b : Payload) (v w : World) : Type 0 where
  pub rows : w.payments ≡ v.payments
  pub called : (w.sent ≡ v.sent) ⊎ ((q : HttpRequest) × (w.sent ≡ q ∷ v.sent) × (q.payload ≡ b))

pub do_signed-IsCall :
    (e : Env) (cfg : Config) (method path : String) (b : Payload) (v : World)
    → IsCall b v (do_signed e cfg method path b v).1
unfolding do_signed send signed_request
do_signed-IsCall e cfg method path b v = by_test _
  where
    by_test :
        (valid : Bool)
        → IsCall b v
            (let u : Result Transaction × World =
                if valid
                then (let (r, w') = send e (signed_request e cfg (e.now v.tick) method path b) v in
                    (read_reply e r, w'))
                else (err (message "invalid url"), v) in
              u).1
    by_test true = record { rows = refl; called = inr (_, refl, refl) }
    by_test false = record { rows = refl; called = inl refl }

pub abmcy_uuid_quiet : (e : Env) (w : World) → (abmcy_uuid e w).1.sent ≡ w.sent
unfolding abmcy_uuid
abmcy_uuid_quiet e w = refl

statement_quiet :
    {A : Type 0} (e : Env) (f : World → Result A) (w : World)
    → (statement e (λ v. (f v, v)) w).1.sent ≡ w.sent
unfolding statement
statement_quiet e f w = by_fault (e.fault w.tick)
  where
    by_fault : (x : Fault) → (run_statement e x (λ v. (f v, v)) w).1.sent ≡ w.sent
    by_fault fine = refl
    by_fault (refused s) = refl
    by_fault (reply_lost s) = refl

pub find_by_id_quiet : (e : Env) (id : String) (w : World) → (find_by_id e id w).1.sent ≡ w.sent
unfolding find_by_id
find_by_id_quiet e id w = statement_quiet e _ w

pub find_payment_quiet :
    (e : Env) (a r k : String) (w : World)
    → (find_payment_by_app_ref_type e a r k w).1.sent ≡ w.sent
unfolding find_payment_by_app_ref_type
find_payment_quiet e a r k w = statement_quiet e _ w
