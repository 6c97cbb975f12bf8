-- ===== src/Admin/Deactivation.antt =====
-- The console's switch against RequireApp: an app that is switched off is locked out.
use abmcy_core_payment.Base.{
  ℕ, ◌+◌, String, Bool, true, false, ◌&&◌, none, some, List, [], ◌∷◌, ◌≡◌, ◌≢◌, refl, arith, ◌==◌,
  and_false, is_not_empty, All, find, update, any, deref, if◌then◌else◌,
}
use abmcy_core_payment.Model.{App}
use abmcy_core_payment.World.{World, Env, fine, ok, err, app_not_found, M, statement}
use abmcy_core_payment.Http.{Request, Response, error}
use abmcy_core_payment.Repo.Apps.{set_active, set_app_where, find_by_key_hash}
use abmcy_core_payment.Auth.{identified, require_app}
use abmcy_core_payment.Payments.Handler.{lookup_app}
use abmcy_core_payment.Admin.{Relayer, set_app_active, set_app_active_input}

-- `api_key_hash` is UNIQUE: only the app with the id has this one.
abbrev pub OnlyKeyOf : String → String → List App → Type 0
OnlyKeyOf id hash = All (λ (a : App). a.api_key_hash ≡ hash → a.id ≡ id)

abbrev pub switched_off : ℕ → App → App
switched_off now a = record a { is_active = false; updated_at = now }

find-switched_off :
    (id hash : String) (now : ℕ) (apps : List App)
    → OnlyKeyOf id hash apps
    → find
        (λ (a : App). a.api_key_hash == hash && a.is_active)
        (update (λ (a : App). a.id == id) (switched_off now) apps)
      ≡ none
unfolding find update
find-switched_off id hash now [] h = refl
find-switched_off id hash now (a ∷ apps) (only, h) =
    by_tests (find-switched_off id hash now apps h) (a.id == id) (a.api_key_hash == hash) refl refl
  where
    by_tests :
        find
            (λ (a : App). a.api_key_hash == hash && a.is_active)
            (update (λ (a : App). a.id == id) (switched_off now) apps)
          ≡ none
        → (i k : Bool) → (a.id == id) ≡ i
        → (a.api_key_hash == hash) ≡ k
        → (let row : App = if i then switched_off now a else a in
            if row.api_key_hash == hash && row.is_active
            then some row
            else find
                (λ (a : App). a.api_key_hash == hash && a.is_active)
                (update (λ (a : App). a.id == id) (switched_off now) apps))
          ≡ none
    by_tests rest true true one two = rw (two, rest)
    by_tests rest true false one two = rw (two, rest)
    by_tests rest false true one two = absurd (let same = only (ground arith) in ground arith)
    by_tests rest false false one two = rw (two, rest)

module _ (e : Env) (runs : (n : ℕ) → e.fault n ≡ fine) where
  set_active_runs :
      (id : String) (w : World)
      → set_active e id false w ≡ (
        ok tt,
        record w {
          apps = update (λ (a : App). a.id == id) (switched_off (e.now w.tick)) w.apps;
          tick = w.tick + 1;
        },
      )
  unfolding set_active set_app_where statement
  set_active_runs id w = rw (runs w.tick, and_false (any (λ (a : App). a.id == id) w.apps))

  lookup_switched_off :
      (id hash : String) (now : ℕ) (w : World)
      → OnlyKeyOf id hash w.apps
      → lookup_app e hash
          (record w { apps = update (λ (a : App). a.id == id) (switched_off now) w.apps })
        ≡ (
          err app_not_found,
          record w {
            apps = update (λ (a : App). a.id == id) (switched_off now) w.apps;
            tick = w.tick + 1;
          },
        )
  unfolding lookup_app find_by_key_hash statement
  lookup_switched_off id hash now w only =
      rw (runs w.tick, find-switched_off id hash now w.apps only)

  -- Once the console has switched an app off, a request with its key is refused with 401, whatever
  -- its signature is and whatever endpoint it is for, and nothing is written, where the statements
  -- run and no other app has the key.
  pub set_app_active-require_app :
      (relay : Relayer) (r q : Request) (next : String → Request → M Response) (w : World)
      → e.decode_active (deref r.body) ≡ some false
      → q.header "X-App-Key" ≢ ""
      → OnlyKeyOf (r.param "id") (e.sha256_hex (q.header "X-App-Key")) w.apps
      → (let w' = (set_app_active e relay r w).1 in
          require_app e (lookup_app e) next q w' ≡ (
            record { status = 401; body = error "invalid_app_key" },
            record w' { tick = w'.tick + 1 },
          ))
  unfolding set_app_active set_app_active_input require_app identified
  set_app_active-require_app relay r q next w off given only =
      let key = is_not_empty (q.header "X-App-Key") given in
      rw (
        off,
        set_active_runs (r.param "id") w,
        key,
        lookup_switched_off (r.param "id") (e.sha256_hex (q.header "X-App-Key")) (e.now w.tick)
            (record w { tick = w.tick + 1 }) only,
      )
