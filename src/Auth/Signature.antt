-- ===== src/Auth/Signature.antt =====
-- Whose requests RequireApp lets through: the signature of the app's secret, in time, on the body.
use Prim.Native.String.{◌++◌}
use abmcy_core_payment.Base.{
  ℕ, ◌+◌, ◌^◌, ◌<◌, String, true, false, ◌&&◌, ◌||◌, Option, none, some, ◌≡◌, ◌≢◌, refl, sym, ap,
  subst, ◌∙◌, ◌⊎◌, inl, inr, arith, ◌==◌, codes, find, if◌then◌else◌, is_not_empty,
}
use abmcy_core_payment.Int64.{ℤ}
use abmcy_core_payment.Decimal.{parse_int}
use abmcy_core_payment.Decimal.Laws.{parse_int-FitsInt64}
use abmcy_core_payment.Model.{App}
use abmcy_core_payment.World.{
  World, Env, Fault, fine, refused, reply_lost, database, Result, ok, err, M, statement,
  run_statement,
}
use abmcy_core_payment.Http.{Request, Response}
use abmcy_core_payment.Repo.Apps.{scan_app, find_by_key_hash}
use abmcy_core_payment.Auth.{AppLookup, recent_header, verify_signature, require_app}
use abmcy_core_payment.Auth.Window.{is_near, is_far, is_recent-described}
use abmcy_core_payment.Auth.Guards.{
  IsRefused, IsFrom, looked_up, FromOrNot, IsFrom-decided, require_app-IsFrom,
  require_app-IsRefused,
}
use abmcy_core_payment.Payments.Handler.{lookup_of, lookup_app}

-- The header X-Abmcy-Signature is the HMAC, under this secret, of the timestamp, a dot and the body,
-- and the timestamp is a number of seconds that is within five minutes of the clock, or so far ahead
-- that its age overflows.
pub record HasSignature (e : Env) (now : ℕ) (secret : String) (r : Request) (body : String)
    : Type 0 where
  pub secret_set : secret ≢ ""
  pub given : r.header "X-Abmcy-Signature" ≢ ""
  pub time : ℤ
  pub read : parse_int (codes (r.header "X-Abmcy-Timestamp")) ≡ some time
  pub timely : is_near now time || is_far now time ≡ true
  pub signed :
      e.hmac_hex secret (r.header "X-Abmcy-Timestamp" ++ "." ++ body) ≡ r.header "X-Abmcy-Signature"

parse_int_of_nothing : parse_int (codes "") ≡ none
unfolding parse_int
parse_int_of_nothing = refl

module _ (e : Env) (now : ℕ) (clock : now < 2 ^ 63) where
  recent_header-timely :
      (o : Option ℤ) (s : String)
      → parse_int (codes s) ≡ o
      → recent_header now o ≡ true
      → (t : ℤ) × (o ≡ some t) × (is_near now t || is_far now t ≡ true)
  recent_header-timely none s q h = cc
  recent_header-timely (some t) s q h =
      (t, refl, sym (is_recent-described now t clock (parse_int-FitsInt64 (codes s) t q)) ∙ h)

  -- What verifySignature accepts.
  pub verify_signature-HasSignature :
      (secret body : String) (r : Request)
      → verify_signature e now secret r body ≡ true
      → HasSignature e now secret r body
  unfolding verify_signature
  verify_signature-HasSignature secret body r h =
      let ts = r.header "X-Abmcy-Timestamp" in
      let recent : recent_header now (parse_int (codes ts)) ≡ true = ground arith in
      let (time, read, timely) = recent_header-timely (parse_int (codes ts)) ts refl recent in
      record {
        secret_set = ground arith;
        given = ground arith;
        time = time;
        read = read;
        timely = timely;
        signed = ground arith;
      }

  pub HasSignature-verify_signature :
      (secret body : String) (r : Request)
      → HasSignature e now secret r body
      → verify_signature e now secret r body ≡ true
  unfolding verify_signature
  HasSignature-verify_signature secret body r s =
      let ts = r.header "X-Abmcy-Timestamp" in
      let sig = r.header "X-Abmcy-Signature" in
      let stamped : ts == "" ≡ false = is_not_empty ts (λ no_text.
        let nothing = ap (λ t. parse_int (codes t)) no_text ∙ parse_int_of_nothing in
        let read = s.read in cc) in
      let recent : recent_header now (parse_int (codes ts)) ≡ true =
        ap (recent_header now) s.read
        ∙ is_recent-described now s.time clock (parse_int-FitsInt64 (codes ts) s.time s.read)
        ∙ s.timely in
      let signed : e.hmac_hex secret (ts ++ "." ++ body) == sig ≡ true =
        (let q = s.signed in ground arith) in
      rw (is_not_empty secret s.secret_set, is_not_empty sig s.given, stamped, recent, signed)

module _ (e : Env) (app : App) (body : String) (r : Request) (w : World) where
  -- The key of the request is that of an active app of the table, whose secret signs the body, and
  -- the table is read.
  pub record IsCaller : Type 0 where
    pub key : r.header "X-App-Key" ≢ ""
    pub runs : e.fault w.tick ≡ fine
    pub found :
        find
          (λ (a : App). a.api_key_hash == e.sha256_hex (r.header "X-App-Key") && a.is_active)
          w.apps
        ≡ some app
    pub named : app.id ≢ ""
    pub read : r.body ≡ some body
    pub signed : HasSignature e (e.now (w.tick + 1)) app.hmac_secret_hash r body

-- The lookup counts as one effect.
abbrev pub after_lookup : Request → World → World
after_lookup r w = if r.header "X-App-Key" == "" then w else record w { tick = w.tick + 1 }

-- What RequireApp keeps of an app.
abbrev pub account_of : App → AppLookup
account_of app = record { id = app.id; hmac_secret_hash = app.hmac_secret_hash }

-- What a query for an app answers.
abbrev answered : Fault → Option App → Result App
answered fine o = scan_app o
answered (refused s) o = err (database s)
answered (reply_lost s) o = err (database s)

found_of_answered :
    (f : Fault) (o : Option App) (account : AppLookup)
    → lookup_of (answered f o) ≡ ok account
    → (f ≡ fine) × (app : App) × (o ≡ some app) × (account_of app ≡ account)
found_of_answered fine none account h = cc
found_of_answered fine (some app) account h = (refl, app, refl, cc)
found_of_answered (refused s) o account h = cc
found_of_answered (reply_lost s) o account h = cc

module _ (e : Env) (r : Request) (w : World) where
  -- The active app with the key of the request.
  abbrev active_app : Option App
  active_app =
      find (λ (a : App). a.api_key_hash == e.sha256_hex (r.header "X-App-Key") && a.is_active)
        w.apps

  lookup_answered :
      looked_up e (lookup_app e) r w
      ≡ (lookup_of (answered (e.fault w.tick) active_app), record w { tick = w.tick + 1 })
  unfolding lookup_app find_by_key_hash statement
  lookup_answered = by_fault (e.fault w.tick)
    where
      by_fault :
          (f : Fault)
          → (let a : Result App × World =
                run_statement e f
                  (λ v. (
                    scan_app (
                        find
                          (λ (a : App).
                            a.api_key_hash == e.sha256_hex (r.header "X-App-Key") && a.is_active)
                          v.apps),
                    v,
                  ))
                  w in
              let b : Result AppLookup × World = (lookup_of a.0, a.1) in
              b ≡ (lookup_of (answered f active_app), record w { tick = w.tick + 1 }))
      by_fault fine = refl
      by_fault (refused s) = refl
      by_fault (reply_lost s) = refl

  module _ (clock : e.now (w.tick + 1) < 2 ^ 63) where
    IsCaller-IsFrom :
        (app : App) (body : String)
        → IsCaller e app body r w
        → IsFrom e (lookup_app e) (account_of app) body r w
    IsCaller-IsFrom app body c =
        let verified =
          HasSignature-verify_signature e (e.now (w.tick + 1)) clock app.hmac_secret_hash body r
            c.signed in
        record {
          key = c.key;
          found = ap (λ a. a.0) lookup_answered ∙ (rw (c.runs, c.found));
          signed =
              rw lookup_answered (record { named = c.named; read = c.read; signed = verified });
        }

    IsFrom-IsCaller :
        (account : AppLookup) (body : String)
        → IsFrom e (lookup_app e) account body r w
        → (app : App) × IsCaller e app body r w × (account_of app ≡ account)
    IsFrom-IsCaller account body f =
        let (runs, app, found, same) =
          found_of_answered (e.fault w.tick) active_app account
            (sym (ap (λ a. a.0) lookup_answered) ∙ f.found) in
        let signed : verify_signature e (e.now (w.tick + 1)) account.hmac_secret_hash r body
            ≡ true =
          ap (λ a. verify_signature e (e.now a.1.tick) account.hmac_secret_hash r body)
            (sym lookup_answered)
          ∙ f.signed.signed in
        let digest : app.hmac_secret_hash ≡ account.hmac_secret_hash =
          ap (λ a. a.hmac_secret_hash) same in
        (
          app,
          record {
            key = f.key;
            runs = runs;
            found = found;
            named = λ no_id. f.signed.named (sym (ap (λ a. a.id) same) ∙ no_id);
            read = f.signed.read;
            signed =
                verify_signature-HasSignature e (e.now (w.tick + 1)) clock app.hmac_secret_hash body
                  r (rw digest signed);
          },
          same,
        )

    -- A request is answered by the endpoint, for an app, exactly where the table is read and the
    -- request is from that app: it has the key of an active app of the table, which has an id and a
    -- secret, and its signature, which is not empty, is the HMAC of its timestamp and its body
    -- under that secret, with a timestamp within five minutes of the clock, or so far ahead that
    -- its age overflows. Any other request is refused with 400 or 401, and nothing is written. So
    -- it is whatever the database answers, while the clock is an int64.
    pub require_app-IsCaller :
        (next : String → Request → M Response)
        → ((app : App) × (body : String) × IsCaller e app body r w
            × (require_app e (lookup_app e) next r w
                ≡ next app.id r (record w { tick = w.tick + 1 })))
          ⊎ (((app : App) (body : String) → ¬ IsCaller e app body r w)
              × IsRefused (after_lookup r w) (require_app e (lookup_app e) next r w))
    require_app-IsCaller next = by_caller (IsFrom-decided e (lookup_app e) r w)
      where
        by_caller :
            FromOrNot e (lookup_app e) r w
            → ((app : App) × (body : String) × IsCaller e app body r w
                × (require_app e (lookup_app e) next r w
                    ≡ next app.id r (record w { tick = w.tick + 1 })))
              ⊎ (((app : App) (body : String) → ¬ IsCaller e app body r w)
                  × IsRefused (after_lookup r w) (require_app e (lookup_app e) next r w))
        by_caller (inl (account, body, from)) =
            let (app, caller, same) = IsFrom-IsCaller account body from in
            inl (
              app,
              body,
              caller,
              require_app-IsFrom e (lookup_app e) next account body r w from
                  ∙ ap (λ a. next account.id r a.1) lookup_answered
                  ∙ ap (λ a. next a.id r (record w { tick = w.tick + 1 })) (sym same),
            )
        by_caller (inr stranger) =
            let refusal = require_app-IsRefused e (lookup_app e) next r w stranger in
            inr (
              (λ app body c. stranger (account_of app) body (IsCaller-IsFrom app body c)),
              subst
                  (λ a.
                    IsRefused (if r.header "X-App-Key" == "" then w else a.1)
                      (require_app e (lookup_app e) next r w))
                  lookup_answered refusal,
            )
