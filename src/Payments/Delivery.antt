-- ===== src/Payments/Delivery.antt =====
-- What a callback of the gateway does, and what a relay to an app leaves behind.
use abmcy_core_payment.Base.{
  ◌+◌, String, Bool, true, false, ◌&&◌, Option, none, some, ◌∷◌, ◌≡◌, ◌≢◌, refl, ap, ◌⊎◌, inl, inr,
  arith, ◌∙◌, ◌==◌, any, find, update, non_empty,
}
use abmcy_core_payment.Model.{Payment}
use abmcy_core_payment.World.{
  World, Env, Fault, fine, refused, reply_lost, GatewayCallbackPayload, statement,
}
use abmcy_core_payment.Http.{Request, empty, error}
use abmcy_core_payment.Repo.Payments.{
  is_status, find_payment_by_diarra_ref, update_payment_status, set_where,
}
use abmcy_core_payment.Payments.Handler.{PaymentHandler}
use abmcy_core_payment.Payments.Callback.{
  verify_gateway_signature, called_back, spawn_relay, callback_found, callback_decoded,
  callback_read, diarra_callback,
}

and_false : (b : Bool) → (b && false) ≡ false
and_false b = ground arith

module _ (e : Env) (h : PaymentHandler) where
  -- The body of the request is signed by the gateway.
  pub record IsFromGateway (r : Request) (body : String) : Type 0 where
    pub read : r.body ≡ some body
    pub signed :
        verify_gateway_signature e h.diarra_hmac_secret_hash body
          (r.header "X-Diarra-Gateway-Signature")
        ≡ true

  read_decoded :
      (r : Request) (w : World) (body : String) (o : Option String)
      → o ≡ some body
      → verify_gateway_signature e h.diarra_hmac_secret_hash body
          (r.header "X-Diarra-Gateway-Signature")
        ≡ true
      → callback_read e h r o w ≡ callback_decoded e h (e.decode_callback body) w
  unfolding callback_read
  read_decoded r w body o eq s = rw (eq, s)

  -- The signature header is the HMAC of the body under the secret of the gateway, which is set.
  pub record IsGenuine (r : Request) (body : String) : Type 0 where
    pub read : r.body ≡ some body
    pub secret_set : h.diarra_hmac_secret_hash ≢ ""
    pub given : r.header "X-Diarra-Gateway-Signature" ≢ ""
    pub signed : e.hmac_hex h.diarra_hmac_secret_hash body ≡ r.header "X-Diarra-Gateway-Signature"

  verify-IsGenuine :
      (r : Request) (body : String)
      → r.body ≡ some body
      → verify_gateway_signature e h.diarra_hmac_secret_hash body
          (r.header "X-Diarra-Gateway-Signature")
        ≡ true
      → IsGenuine r body
  unfolding verify_gateway_signature
  verify-IsGenuine r body read s = record {
    read = read;
    secret_set = ground arith;
    given = ground arith;
    signed = ground arith;
  }

  IsGenuine-verify :
      (r : Request) (body : String)
      → IsGenuine r body
      → verify_gateway_signature e h.diarra_hmac_secret_hash body
          (r.header "X-Diarra-Gateway-Signature")
        ≡ true
  unfolding verify_gateway_signature
  IsGenuine-verify r body g =
      let a = g.secret_set in let b = g.given in let c = g.signed in ground arith

  -- What comes of a callback: it is read, or refused.
  abbrev IsJudged : Request → World → Type 0
  IsJudged r w =
      ((body : String) × IsGenuine r body
        × (diarra_callback e h r w ≡ callback_decoded e h (e.decode_callback body) w))
      ⊎ (((body : String) → ¬ IsGenuine r body)
          × ((diarra_callback e h r w).1 ≡ w)
          × (((diarra_callback e h r w).0.status ≡ 400)
              ⊎ ((diarra_callback e h r w).0.status ≡ 401)))

  judged : (r : Request) (w : World) (o : Option String) → r.body ≡ o → IsJudged r w
  unfolding diarra_callback callback_read
  judged r w none read = rw read (inr ((λ body g. let b = g.read in cc), refl, inl refl))
  judged r w (some body) read = by_test _ refl
    where
      by_test :
          (b : Bool)
          → verify_gateway_signature e h.diarra_hmac_secret_hash body
              (r.header "X-Diarra-Gateway-Signature")
            ≡ b
          → IsJudged r w
      by_test true q = inl (body, verify-IsGenuine r body read q, rw (read, q))
      by_test false q =
          let refusal : diarra_callback e h r w
              ≡ (record { status = 401; body = error "invalid_signature" }, w) =
            rw (read, q) in
          inr (
            (λ body' g. let v = IsGenuine-verify r body' g in let b = g.read in cc),
            ap (λ a. a.1) refusal,
            inr (ap (λ a. a.0.status) refusal),
          )

  -- A callback is read exactly where the gateway's secret is set and the signature in the header,
  -- which is not empty, is the HMAC of the body under that secret: any other one is refused with
  -- 400 or 401, and nothing changes.
  pub diarra_callback-IsGenuine :
      (r : Request) (w : World)
      → ((body : String) × IsGenuine r body
          × (diarra_callback e h r w ≡ callback_decoded e h (e.decode_callback body) w))
        ⊎ (((body : String) → ¬ IsGenuine r body)
            × ((diarra_callback e h r w).1 ≡ w)
            × (((diarra_callback e h r w).0.status ≡ 400)
                ⊎ ((diarra_callback e h r w).0.status ≡ 401)))
  diarra_callback-IsGenuine r w = judged r w r.body refl

  -- The world once the callback is stored: the row has the new status and reason, and one relay of
  -- it waits.
  abbrev pub stored : Payment → GatewayCallbackPayload → World → World
  stored p c w =
      let set = (λ (q : Payment). record q {
        status = c.status;
        failure_reason = non_empty c.failure_reason;
        updated_at = e.now (w.tick + 1);
      }) in
      record w {
        payments = update (λ q. q.id == p.id) set w.payments;
        relays = called_back e h p c ∷ w.relays;
        tick = w.tick + 1 + 1;
      }

  not_found :
      (c : GatewayCallbackPayload) (w : World) (f : Fault)
      → e.fault w.tick ≡ f
      → find (λ (q : Payment). q.diarra_client_ref == c.client_ref) w.payments ≡ none
      → callback_decoded e h (some c) w
        ≡ (record { status = 200; body = empty }, record w { tick = w.tick + 1 })
  unfolding callback_decoded callback_found find_payment_by_diarra_ref statement
  not_found c w fine eq absent = rw (eq, absent)
  not_found c w (refused s) eq absent = rw eq
  not_found c w (reply_lost s) eq absent = rw eq

  found_stored :
      (p : Payment) (c : GatewayCallbackPayload) (w : World)
      → is_status c.status ≡ true
      → e.fault w.tick ≡ fine
      → e.fault (w.tick + 1) ≡ fine
      → find (λ (q : Payment). q.diarra_client_ref == c.client_ref) w.payments ≡ some p
      → callback_decoded e h (some c) w ≡ (record { status = 200; body = empty }, stored p c w)
  unfolding callback_decoded callback_found find_payment_by_diarra_ref update_payment_status
      statement set_where spawn_relay
  found_stored p c w status first second found =
      rw (first, found, second, status, and_false (any (λ (q : Payment). q.id == p.id) w.payments))

  -- A signed callback with a status of the schema, for a payment that is there, sets the status and
  -- the reason of that row, leaves its relay to a goroutine, and changes nothing else, where the
  -- two statements run.
  pub diarra_callback-stored :
      (r : Request) (body : String) (p : Payment) (c : GatewayCallbackPayload) (w : World)
      → IsFromGateway r body
      → e.decode_callback body ≡ some c
      → is_status c.status ≡ true
      → e.fault w.tick ≡ fine
      → e.fault (w.tick + 1) ≡ fine
      → find (λ (q : Payment). q.diarra_client_ref == c.client_ref) w.payments ≡ some p
      → diarra_callback e h r w ≡ (record { status = 200; body = empty }, stored p c w)
  unfolding diarra_callback
  diarra_callback-stored r body p c w s decoded status first second found =
      read_decoded r w body r.body s.read s.signed
      ∙ (rw decoded (found_stored p c w status first second found))

  -- A signed callback for a payment that is not there is answered 200, and changes nothing but the
  -- count of the effects.
  pub diarra_callback-unknown :
      (r : Request) (body : String) (c : GatewayCallbackPayload) (w : World)
      → IsFromGateway r body
      → e.decode_callback body ≡ some c
      → find (λ (q : Payment). q.diarra_client_ref == c.client_ref) w.payments ≡ none
      → diarra_callback e h r w
        ≡ (record { status = 200; body = empty }, record w { tick = w.tick + 1 })
  unfolding diarra_callback
  diarra_callback-unknown r body c w s decoded absent =
      read_decoded r w body r.body s.read s.signed
      ∙ (rw decoded (not_found c w (e.fault w.tick) refl absent))
