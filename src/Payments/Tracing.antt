-- ===== src/Payments/Tracing.antt =====
-- Each relay to an app leaves its outcome in the row.
use Prim.Native.String.{◌++◌}
use abmcy_core_payment.Base.{
  ℕ, ◌+◌, String, Bool, true, false, Option, none, some, List, ◌≡◌, ◌≢◌, refl, ◌⊎◌, inl, inr, arith,
  ◌==◌, find, update, deref, leb,
}
use abmcy_core_payment.Int64.{pos}
use abmcy_core_payment.Decimal.{format_int, text_of_digits}
use abmcy_core_payment.Model.{Payment, App, relay_delivered, relay_failed, relay_skipped}
use abmcy_core_payment.World.{
  World, Env, fine, Error, message, Result, ok, err, HttpReply, transport_error, reply, advance,
  statement,
}
use abmcy_core_payment.Http.{send}
use abmcy_core_payment.Repo.Apps.{find_by_id, scan_app}
use abmcy_core_payment.Repo.Payments.{set_relay_result, set_where}
use abmcy_core_payment.Payments.Relay.{
  fail_relay, relay_payment, relay_signed, relay_answered, relay_request,
}

-- The row after an attempt.
abbrev pub traced : String → Option String → ℕ → Payment → Payment
traced status text now q = record q {
  relay_status = status;
  relay_attempts = q.relay_attempts + 1;
  relay_last_error = text;
  relay_last_attempt_at = some now;
  updated_at = now;
}

-- The result agrees with the status that the row has got.
abbrev pub Tells : String → Result (Unit {0}) → Type 0
Tells status (ok _) = (status ≡ relay_delivered) ⊎ (status ≡ relay_skipped)
Tells status (err _) = status ≡ relay_failed

pub record IsTraced (p : Payment) (ps : List Payment) (a : Result (Unit {0}) × World) : Type 0 where
  pub status : String
  pub text : Option String
  pub now : ℕ
  pub rows : a.1.payments ≡ update (λ (q : Payment). q.id == p.id) (traced status text now) ps
  pub told : Tells status a.0

module _ (e : Env) (runs : (n : ℕ) → e.fault n ≡ fine) where
  set_relay_runs :
      (id status : String) (text : Option String) (w : World)
      → set_relay_result e id status text w
        ≡ (ok tt, set_where id (traced status text (e.now w.tick)) (advance w))
  unfolding set_relay_result statement
  set_relay_runs id status text w = rw (runs w.tick)

  fail_relay-IsTraced :
      (p : Payment) (text : String) (x : Error) (w : World)
      → IsTraced p w.payments (fail_relay e p text x w)
  unfolding set_where
  fail_relay-IsTraced p text x w = rw (set_relay_runs p.id relay_failed (some text) w) (record {
    status = relay_failed;
    text = some text;
    now = e.now w.tick;
    rows = refl;
    told = refl;
  })

  relay_answered-IsTraced :
      (p : Payment) (a : HttpReply) (w : World) → IsTraced p w.payments (relay_answered e p a w)
  unfolding relay_answered set_where
  relay_answered-IsTraced p (transport_error s) w = fail_relay-IsTraced p s (message s) w
  relay_answered-IsTraced p (reply status body) w = by_test (leb 300 status) refl
    where
      by_test :
          (b : Bool)
          → leb 300 status ≡ b
          → IsTraced p w.payments (relay_answered e p (reply status body) w)
      by_test true q =
          let text = "callback a répondu HTTP " ++ text_of_digits (format_int (pos status)) in
          rw q (fail_relay-IsTraced p text (message text) w)
      by_test false q =
          rw (q, set_relay_runs p.id relay_delivered none w)
            (record {
              status = relay_delivered;
              text = none;
              now = e.now w.tick;
              rows = refl;
              told = inl refl;
            })

  relay_signed-IsTraced :
      (p : Payment) (r : Result App) (w : World)
      → e.valid_url (deref p.callback_url) ≡ true
      → IsTraced p w.payments (relay_signed e p r w)
  unfolding relay_signed send
  relay_signed-IsTraced p (err x) w valid =
      fail_relay-IsTraced p "app introuvable pour la signature du relais" x w
  relay_signed-IsTraced p (ok app) w valid = rw valid (
      relay_answered-IsTraced p (e.http_do w.tick (relay_request e app p))
        (send e (relay_request e app p) w).1)

  -- Where the statements run and a request can be made of the callback URL, if there is one, the relay
  -- counts one attempt more in the row, and no other row changes; the status of the relay that it
  -- stores is "failed" if it returns an error, and "delivered" or "skipped" if it returns none.
  pub relay_payment-IsTraced :
      (p : Payment) (w : World)
      → ((deref p.callback_url ≢ "") → e.valid_url (deref p.callback_url) ≡ true)
      → IsTraced p w.payments (relay_payment e p w)
  unfolding relay_payment find_by_id statement set_where
  relay_payment-IsTraced p w valid = by_test (deref p.callback_url == "") refl
    where
      by_test :
          (b : Bool)
          → (deref p.callback_url == "") ≡ b
          → IsTraced p w.payments (relay_payment e p w)
      by_test true q =
          rw (q, set_relay_runs p.id relay_skipped none w)
            (record {
              status = relay_skipped;
              text = none;
              now = e.now w.tick;
              rows = refl;
              told = inr refl;
            })
      by_test false q =
          rw (q, runs w.tick)
            (relay_signed-IsTraced p (scan_app (find (λ (a : App). a.id == p.app_id) w.apps))
              (advance w) (valid ground arith))
