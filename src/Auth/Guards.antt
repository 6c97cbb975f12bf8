-- ===== src/Auth/Guards.antt =====
-- Who passes RequireApp, internal/middleware/app_auth.go.
use abmcy_core_payment.Base.{
  String, Bool, true, false, Option, some, none, ◌≡◌, ◌≢◌, refl, ◌⊎◌, inl, inr, arith, ◌==◌,
  if◌then◌else◌,
}
use abmcy_core_payment.World.{World, Env, Result, ok, err, M}
use abmcy_core_payment.Http.{Request, Response}
use abmcy_core_payment.Auth.{
  AppLookup, verify_signature, verified_body, verified, identified, require_app,
}

-- Refused with the world as the guard left it.
abbrev pub IsRefused : World → Response × World → Type 0
IsRefused w a = (a.1 ≡ w) × ((a.0.status ≡ 400) ⊎ (a.0.status ≡ 401))

module _ (e : Env) (lookup : String → M (Result AppLookup)) where
  -- The world after the lookup of the key of the request.
  abbrev pub looked_up : Request → World → Result AppLookup × World
  looked_up r w = lookup (e.sha256_hex (r.header "X-App-Key")) w

  -- The body of the request is signed with the app's secret.
  pub record IsSigned (app : AppLookup) (body : String) (r : Request) (v : World) : Type 0 where
    pub named : app.id ≢ ""
    pub read : r.body ≡ some body
    pub signed : verify_signature e (e.now v.tick) app.hmac_secret_hash r body ≡ true

  -- The key of the request is that of the app, which signed it.
  pub record IsFrom (app : AppLookup) (body : String) (r : Request) (w : World) : Type 0 where
    pub key : r.header "X-App-Key" ≢ ""
    pub found : (looked_up r w).0 ≡ ok app
    pub signed : IsSigned app body r (looked_up r w).1

  module _ (next : String → Request → M Response) where
    verified_body-IsSigned :
        (app : AppLookup) (body : String) (r : Request) (v : World) (o : Option String)
        → o ≡ some body
        → verify_signature e (e.now v.tick) app.hmac_secret_hash r body ≡ true
        → verified_body e lookup next app r o v ≡ next app.id r v
    verified_body-IsSigned app body r v o eq q = rw (eq, q)

    identified-IsSigned :
        (app : AppLookup) (body : String) (r : Request) (v : World)
        → IsSigned app body r v
        → identified e lookup next r (ok app) v ≡ next app.id r v
    unfolding identified verified
    identified-IsSigned app body r v s =
        let named : app.id == "" ≡ false = (let n = s.named in ground arith) in
        rw (named, verified_body-IsSigned app body r v r.body s.read s.signed)

    -- A request whose key is that of an app, and whose body is signed with the app's secret, is
    -- answered by the endpoint, for that app.
    pub require_app-IsFrom :
        (app : AppLookup) (body : String) (r : Request) (w : World)
        → IsFrom app body r w
        → require_app e lookup next r w ≡ next app.id r (looked_up r w).1
    unfolding require_app
    require_app-IsFrom app body r w s =
        let given : r.header "X-App-Key" == "" ≡ false = (let n = s.key in ground arith) in
        rw (given, s.found, identified-IsSigned app body r (looked_up r w).1 s.signed)

    verified-IsRefused :
        (app : AppLookup) (r : Request) (v : World) (o : Option String)
        → ((body : String)
            → o ≡ some body
            → verify_signature e (e.now v.tick) app.hmac_secret_hash r body ≢ true)
        → IsRefused v (verified_body e lookup next app r o v)
    verified-IsRefused app r v none h = (refl, inl refl)
    verified-IsRefused app r v (some body) h =
        let q : verify_signature e (e.now v.tick) app.hmac_secret_hash r body ≡ false =
          (let u = h body refl in ground arith) in
        rw q (refl, inr refl)

    identified-IsRefused :
        (r : Request) (v : World) (o : Result AppLookup)
        → ((app : AppLookup) (body : String) → o ≡ ok app → ¬ IsSigned app body r v)
        → IsRefused v (identified e lookup next r o v)
    unfolding identified verified
    identified-IsRefused r v (err x) h = (refl, inr refl)
    identified-IsRefused r v (ok app) h = by_name (app.id == "") refl
      where
        by_name :
            (b : Bool) → (app.id == "") ≡ b → IsRefused v (identified e lookup next r (ok app) v)
        by_name true q = rw q (refl, inr refl)
        by_name false q = rw q (
            verified-IsRefused app r v r.body
              λ body eq u. h app body refl (record { named = ground arith; read = eq; signed = u }))

    -- The world is that which the lookup leaves, or as it was where there is no key.
    pub require_app-IsRefused :
        (r : Request) (w : World)
        → ((app : AppLookup) (body : String) → ¬ IsFrom app body r w)
        → IsRefused
            (if r.header "X-App-Key" == "" then w else (looked_up r w).1)
            (require_app e lookup next r w)
    unfolding require_app
    require_app-IsRefused r w h = by_key (r.header "X-App-Key" == "") refl
      where
        by_key :
            (b : Bool)
            → (r.header "X-App-Key" == "") ≡ b
            → IsRefused
                (if r.header "X-App-Key" == "" then w else (looked_up r w).1)
                (require_app e lookup next r w)
        by_key true q = rw q (refl, inr refl)
        by_key false q = rw q (
            identified-IsRefused r (looked_up r w).1 (looked_up r w).0
              λ app body eq s. h app body (record { key = ground arith; found = eq; signed = s }))

  -- Whether a request is from an app.
  abbrev pub FromOrNot : Request → World → Type 0
  FromOrNot r w =
      ((app : AppLookup) × (body : String) × IsFrom app body r w)
      ⊎ ((app : AppLookup) (body : String) → ¬ IsFrom app body r w)

  body_decided :
      (r : Request) (w : World) (app : AppLookup) (o : Option String)
      → r.header "X-App-Key" ≢ ""
      → (looked_up r w).0 ≡ ok app
      → app.id ≢ ""
      → r.body ≡ o
      → FromOrNot r w
  body_decided r w app none k found named read = inr λ app' body f. let b = f.signed.read in cc
  body_decided r w app (some body) k found named read =
      by_test (verify_signature e (e.now v.tick) app.hmac_secret_hash r body) refl
    where
      v : World
      v = (looked_up r w).1

      by_test :
          (b : Bool)
          → verify_signature e (e.now v.tick) app.hmac_secret_hash r body ≡ b
          → FromOrNot r w
      by_test true q = inl (
        app,
        body,
        record {
          key = k;
          found = found;
          signed = record { named = named; read = read; signed = q };
        },
      )
      by_test false q =
          inr λ app' body' f.
            let s = f.signed.signed in let b = f.signed.read in let a = f.found in cc

  found_decided :
      (r : Request) (w : World) (o : Result AppLookup)
      → r.header "X-App-Key" ≢ ""
      → (looked_up r w).0 ≡ o
      → FromOrNot r w
  found_decided r w (err x) k found = inr λ app body f. let a = f.found in cc
  found_decided r w (ok app) k found = by_id (app.id == "") refl
    where
      by_id : (b : Bool) → (app.id == "") ≡ b → FromOrNot r w
      by_id true q = inr λ app' body f.
          let a = f.found in
          let same : app ≡ app' = cc in
          f.signed.named (let empty : app.id ≡ "" = ground arith in cc)
      by_id false q = body_decided r w app r.body k found (ground arith) refl

  pub IsFrom-decided : (r : Request) (w : World) → FromOrNot r w
  IsFrom-decided r w = by_key (r.header "X-App-Key" == "") refl
    where
      by_key : (b : Bool) → (r.header "X-App-Key" == "") ≡ b → FromOrNot r w
      by_key true q = inr λ app body f. f.key (ground arith)
      by_key false q = found_decided r w (looked_up r w).0 (ground arith) refl
