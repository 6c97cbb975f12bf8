-- ===== src/Payments/Draining.antt =====
-- The goroutines that callbacks leave behind: each ends, and writes nothing but the outcome of its
-- relay.
use Prim.Native.String.{◌++◌}
use abmcy_core_payment.Base.{
  ℕ, zero, suc, ◌+◌, String, Bool, true, false, Option, none, some, List, [], ◌∷◌, ◌≡◌, refl, ap,
  ◌∙◌, ◌==◌, map, map-update, length, deref, leb, if◌then◌else◌,
}
use abmcy_core_payment.Int64.{pos}
use abmcy_core_payment.Decimal.{format_int, text_of_digits}
use abmcy_core_payment.Model.{
  App, Payment, SignupRequest, relay_delivered, relay_failed, relay_skipped,
}
use abmcy_core_payment.World.{
  World, Env, Error, message, Result, ok, err, HttpReply, transport_error, reply, M,
}
use abmcy_core_payment.World.Preserves.{
  Preserves, IsTimeless, Preserves-pure, Preserves-bind, Preserves-statement,
}
use abmcy_core_payment.Http.{send}
use abmcy_core_payment.Repo.Apps.{find_by_id}
use abmcy_core_payment.Repo.Payments.{set_relay_result, set_where}
use abmcy_core_payment.Payments.Handler.{PaymentHandler}
use abmcy_core_payment.Payments.Relay.{relay_payment, relay_signed, relay_answered, fail_relay}
use abmcy_core_payment.Payments.Callback.{run_relay}

-- A payment without the outcome of its relays.
abbrev pub settled : Payment → Payment
settled p = record p {
  relay_status = "";
  relay_attempts = 0;
  relay_last_error = none;
  relay_last_attempt_at = none;
  updated_at = 0;
}

-- The tables without the outcomes of the relays, and the goroutines that are left.
pub record Rest : Type 0 where
  pub apps : List App
  pub payments : List Payment
  pub signups : List SignupRequest
  pub relays : List Payment

abbrev pub rest : World → Rest
rest w = record {
  apps = w.apps;
  payments = map settled w.payments;
  signups = w.signups;
  relays = w.relays;
}

rest-IsTimeless : IsTimeless rest
rest-IsTimeless = record { same = λ w t. refl }

module _ (e : Env) where
  Preserves-if :
      {A : Type 0} (b : Bool) {m n : M A}
      → Preserves rest m
      → Preserves rest n
      → Preserves rest (if b then m else n)
  Preserves-if true p q = p
  Preserves-if false p q = q

  set_relay_result-Preserves :
      (id status : String) (text : Option String)
      → Preserves rest (set_relay_result e id status text)
  unfolding set_relay_result set_where
  set_relay_result-Preserves id status text = Preserves-statement rest-IsTimeless e _ λ v. record {
    same = λ w.
        let u =
          map-update settled (λ p. p.id == id)
            (λ p. record p {
              relay_status = status;
              relay_attempts = p.relay_attempts + 1;
              relay_last_error = text;
              relay_last_attempt_at = some (e.now v.tick);
              updated_at = e.now v.tick;
            })
            (λ p. refl) w.payments in
        ap (λ ps. record (rest w) { payments = ps }) u;
  }

  fail_relay-Preserves :
      (p : Payment) (text : String) (x : Error) → Preserves rest (fail_relay e p text x)
  fail_relay-Preserves p text x =
      Preserves-bind _ _ (set_relay_result-Preserves p.id relay_failed (some text))
        (λ _. Preserves-pure (err x))

  relay_answered-Preserves : (p : Payment) (a : HttpReply) → Preserves rest (relay_answered e p a)
  unfolding relay_answered
  relay_answered-Preserves p (transport_error s) = fail_relay-Preserves p s (message s)
  relay_answered-Preserves p (reply status body) =
      let text = "callback a répondu HTTP " ++ text_of_digits (format_int (pos status)) in
      Preserves-if (leb 300 status) (fail_relay-Preserves p text (message text))
        (set_relay_result-Preserves p.id relay_delivered none)

  relay_signed-Preserves : (p : Payment) (r : Result App) → Preserves rest (relay_signed e p r)
  unfolding relay_signed send
  relay_signed-Preserves p (err x) =
      fail_relay-Preserves p "app introuvable pour la signature du relais" x
  relay_signed-Preserves p (ok app) =
      Preserves-if (e.valid_url (deref p.callback_url))
        (Preserves-bind _ _ (record { same = λ w. refl }) (relay_answered-Preserves p))
        (Preserves-pure (err (message "invalid url")))

  relay_payment-Preserves : (p : Payment) → Preserves rest (relay_payment e p)
  unfolding relay_payment find_by_id
  relay_payment-Preserves p =
      Preserves-if (deref p.callback_url == "") (set_relay_result-Preserves p.id relay_skipped none)
        (Preserves-bind _ _
          (Preserves-statement rest-IsTimeless e _ λ v. record { same = λ w. refl })
          (relay_signed-Preserves p))

  module _ (h : PaymentHandler) where
    -- `k` goroutines run, one after the other.
    pub drain : ℕ → World → World
    drain zero w = w
    drain (suc k) w = drain k (run_relay e h 0 w).1

    run_relay_first :
        (p : Payment) (ps : List Payment) (w : World)
        → w.relays ≡ p ∷ ps
        → rest (run_relay e h 0 w).1 ≡ record (rest w) { relays = ps }
    unfolding run_relay
    run_relay_first p ps w eq = rw eq ((relay_payment-Preserves p).same (record w { relays = ps }))

    drain-relays :
        (ps : List Payment) (w : World)
        → w.relays ≡ ps
        → rest (drain (length ps) w) ≡ record (rest w) { relays = [] }
    unfolding drain
    drain-relays [] w eq = rw eq
    drain-relays (p ∷ ps) w eq =
        let one = run_relay_first p ps w eq in
        drain-relays ps (run_relay e h 0 w).1 (ap (λ (r : Rest). r.relays) one)
        ∙ ap (λ (r : Rest). record r { relays = [] }) one

    -- After as many turns as there are goroutines none is left, whatever the database and the apps
    -- answer; and all that they change in the tables is the outcome of the relays.
    pub drain-rest :
        (w : World) → rest (drain (length w.relays) w) ≡ record (rest w) { relays = [] }
    drain-rest w = drain-relays w.relays w refl
