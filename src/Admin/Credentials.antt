-- ===== src/Admin/Credentials.antt =====
-- The credentials that the console shows are those that RequireApp asks for.
use abmcy_core_payment.Base.{
  ℕ, ◌+◌, String, Bool, true, false, ◌&&◌, Option, none, some, ◌∷◌, ◌≡◌, ◌≢◌, refl, sym, ap, subst,
  ◌∙◌, arith, ◌==◌, find, any, non_empty, deref, if◌then◌else◌,
}
use abmcy_core_payment.Model.{App}
use abmcy_core_payment.World.{
  World, Env, Fault, fine, refused, reply_lost, Result, ok, err, unique_violation, M, ◌>>=◌,
  advance, statement, run_statement,
}
use abmcy_core_payment.Http.{Request, Response, Body, credentials, http_error}
use abmcy_core_payment.Repo.Apps.{new_app, insert_app, clashes_app, create, find_by_key_hash}
use abmcy_core_payment.Token.{generate_token, hash_token}
use abmcy_core_payment.Auth.{AppLookup, verify_signature, require_app}
use abmcy_core_payment.Auth.Guards.{IsFrom, require_app-IsFrom}
use abmcy_core_payment.Payments.Handler.{lookup_app}
use abmcy_core_payment.Admin.{
  Relayer, create_app, create_app_input, create_key, create_secret, app_created,
}

module _ (e : Env) where
  -- The app is the one that is found by the key, and its secret is the digest of this one.
  pub record IsOpened (key secret : String) (app : App) (w : World) : Type 0 where
    pub found :
        find (λ (a : App). a.api_key_hash == e.sha256_hex key && a.is_active) w.apps ≡ some app
    pub digest : app.hmac_secret_hash ≡ e.sha256_hex secret

  -- What the INSERT of an app leaves.
  abbrev pub IsOpenedIf : String → String → World → Result App → Type 0
  IsOpenedIf key secret w (ok app) = IsOpened key secret app w
  IsOpenedIf key secret w (err x) = Unit

  -- What an answer with credentials says.
  abbrev pub Opens : World → Body → Type 0
  Opens w (credentials app key secret email) = IsOpened key secret app w
  Opens w b = Unit

  module _ (key secret : String) where
    insert_app-IsOpened :
        (id name : String) (now : ℕ) (url : Option String) (w : World)
        → (let a = new_app id now name (hash_token e key) (hash_token e secret) url in
            IsOpenedIf key secret (insert_app a w).1 (insert_app a w).0)
    unfolding insert_app find
    insert_app-IsOpened id name now url w = by_test (any (clashes_app a) w.apps)
      where
        a : App
        a = new_app id now name (hash_token e key) (hash_token e secret) url

        same : e.sha256_hex key == e.sha256_hex key ≡ true
        same = ground arith

        by_test :
            (b : Bool)
            → (let u : Result App × World =
                  if b then (err unique_violation, w) else (ok a, record w { apps = a ∷ w.apps }) in
                IsOpenedIf key secret u.1 u.0)
        by_test true = tt
        by_test false = record { found = rw same refl; digest = refl }

    pub create-IsOpened :
        (name : String) (url : Option String) (w : World)
        → (let made = create e name (hash_token e key) (hash_token e secret) url w in
            IsOpenedIf key secret made.1 made.0)
    unfolding create statement
    create-IsOpened name url w = by_fault (e.fault w.tick)
      where
        a : App
        a =
            new_app (e.gen_uuid w.tick) (e.now w.tick) name (hash_token e key) (hash_token e secret)
              url

        by_fault :
            (f : Fault)
            → IsOpenedIf key secret
                (run_statement e f (insert_app a) w).1
                (run_statement e f (insert_app a) w).0
        by_fault fine = insert_app-IsOpened (e.gen_uuid w.tick) name (e.now w.tick) url (advance w)
        by_fault (refused s) = tt
        by_fault (reply_lost s) = tt

  -- The request of the app `app`, with this key, signed with the digest of this secret.
  pub record IsSignedWith (app : App) (key secret body : String) (q : Request) (w : World)
      : Type 0 where
    pub runs : e.fault w.tick ≡ fine
    pub named : app.id ≢ ""
    pub given : key ≢ ""
    pub sent : q.header "X-App-Key" ≡ key
    pub read : q.body ≡ some body
    pub signed : verify_signature e (e.now (w.tick + 1)) (hash_token e secret) q body ≡ true

  lookup_opened :
      (key secret : String) (app : App) (w : World)
      → e.fault w.tick ≡ fine
      → IsOpened key secret app w
      → lookup_app e (e.sha256_hex key) w ≡ (
        ok (record { id = app.id; hmac_secret_hash = app.hmac_secret_hash }),
        record w { tick = w.tick + 1 },
      )
  unfolding lookup_app find_by_key_hash statement
  lookup_opened key secret app w runs o = rw (runs, o.found)

  pub opened-require_app :
      (next : String → Request → M Response) (q : Request) (w : World) (app : App)
      (key secret body : String)
      → IsOpened key secret app w
      → IsSignedWith app key secret body q w
      → require_app e (lookup_app e) next q w ≡ next app.id q (record w { tick = w.tick + 1 })
  opened-require_app next q w app key secret body o s =
      let account : AppLookup = record { id = app.id; hmac_secret_hash = app.hmac_secret_hash } in
      let looked =
        ap (λ k. lookup_app e (e.sha256_hex k) w) s.sent
        ∙ lookup_opened key secret app w s.runs o in
      let from : IsFrom e (lookup_app e) account body q w = record {
        key = λ none_given. s.given (sym s.sent ∙ none_given);
        found = ap (λ a. a.0) looked;
        signed =
            rw looked (record { named = s.named; read = s.read; signed = rw o.digest s.signed });
      } in
      require_app-IsFrom e (lookup_app e) next account body q w from
      ∙ ap (λ a. next app.id q a.1) looked

  module _ (relay : Relayer) where
    app_created-Opens :
        (key secret : String) (r : Result App) (w : World)
        → IsOpenedIf key secret w r
        → (let a = app_created e relay key secret r w in Opens a.1 a.0.body)
    app_created-Opens key secret (err x) w o = tt
    app_created-Opens key secret (ok app) w o = o

    create_secret-Opens :
        (name callback key : String) (r : Result String) (w : World)
        → (let a = create_secret e relay (name, callback) key r w in Opens a.1 a.0.body)
    create_secret-Opens name callback key (err x) w = tt
    create_secret-Opens name callback key (ok secret) w =
        let made = create e name (hash_token e key) (hash_token e secret) (non_empty callback) w in
        app_created-Opens key secret made.0 made.1
          (create-IsOpened key secret name (non_empty callback) w)

    create_key-Opens :
        (name callback : String) (r : Result String) (w : World)
        → (let a = create_key e relay (name, callback) r w in Opens a.1 a.0.body)
    create_key-Opens name callback (err x) w = tt
    create_key-Opens name callback (ok key) w =
        let secret = generate_token e w in create_secret-Opens name callback key secret.0 secret.1

    create_app_input-Opens :
        (i : Option (String × String)) (w : World)
        → (let a = create_app_input e relay i w in Opens a.1 a.0.body)
    unfolding create_app_input
    create_app_input-Opens none w = tt
    create_app_input-Opens (some (name, callback)) w = by_test (name == "")
      where
        by_test :
            (b : Bool)
            → (let m : M Response =
                  if b
                  then http_error 400 "name_required"
                  else generate_token e >>= create_key e relay (name, callback) in
                Opens (m w).1 (m w).0.body)
        by_test true = tt
        by_test false = create_key-Opens name callback (generate_token e w).0 (generate_token e w).1

    create_app-Opens :
        (r : Request) (w : World) → (let a = create_app e relay r w in Opens a.1 a.0.body)
    unfolding create_app
    create_app-Opens r w = create_app_input-Opens (e.decode_app (deref r.body)) w

    -- The credentials that the console shows for a new app let it in: a request with this key, signed
    -- with the digest of this secret, is answered by the endpoint, for this app, where the lookup runs
    -- and the app has an id.
    pub create_app-require_app :
        (next : String → Request → M Response) (r q : Request) (w : World) (app : App)
        (key secret body : String) (email : Option String)
        → (create_app e relay r w).0.body ≡ credentials app key secret email
        → IsSignedWith app key secret body q (create_app e relay r w).1
        → require_app e (lookup_app e) next q (create_app e relay r w).1
          ≡ next app.id q
              (record (create_app e relay r w).1 { tick = (create_app e relay r w).1.tick + 1 })
    create_app-require_app next r q w app key secret body email shown s =
        let a = create_app e relay r w in
        opened-require_app next q a.1 app key secret body
          (subst (Opens a.1) shown (create_app-Opens r w)) s
