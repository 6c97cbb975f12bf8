-- ===== src/Signup/Approval.antt =====
-- Credentials are issued once, to a pending request, which is approved with them.
use abmcy_core_payment.Base.{
  ℕ, ◌+◌, String, Bool, true, false, not, ◌&&◌, Option, none, some, List, [], ◌∷◌, ◌≡◌, ◌≢◌, refl,
  ◌⊎◌, inl, inr, arith, ◌==◌, All, In, here, find, any, update, deref, non_empty, if◌then◌else◌,
}
use abmcy_core_payment.Model.{App, SignupRequest, signup_pending, signup_approved}
use abmcy_core_payment.World.{
  World, Env, Fault, fine, refused, reply_lost, Result, ok, err, unique_violation,
  foreign_key_violation, M, advance, statement, run_statement,
}
use abmcy_core_payment.Http.{Request, Body, credentials}
use abmcy_core_payment.Repo.Apps.{new_app, insert_app, clashes_app, create}
use abmcy_core_payment.Repo.Signups.{find_signup, mark_approved}
use abmcy_core_payment.Token.{generate_token, hash_token}
use abmcy_core_payment.Signup.{
  approve_signup, approve_found, approve_key, approve_secret, approve_created, approve_marked,
}

-- The app of a request, with these credentials.
pub record IsIssued (e : Env) (s : SignupRequest) (app : App) (key secret : String) (w : World)
    : Type 0 where
  pub active : app.is_active ≡ true
  pub key_hash : app.api_key_hash ≡ e.sha256_hex key
  pub secret_hash : app.hmac_secret_hash ≡ e.sha256_hex secret
  pub name : app.name ≡ s.business_name
  pub there : In app w.apps

-- What the INSERT of an app leaves.
abbrev IsCreated : App → World → Result App → Type 0
IsCreated a w (ok b) = (b ≡ a) × In a w.apps
IsCreated a w (err x) = Unit

insert_app-IsCreated : (a : App) (w : World) → IsCreated a (insert_app a w).1 (insert_app a w).0
unfolding insert_app
insert_app-IsCreated a w = by_test (any (clashes_app a) w.apps)
  where
    by_test :
        (b : Bool)
        → (let u : Result App × World =
              if b then (err unique_violation, w) else (ok a, record w { apps = a ∷ w.apps }) in
            IsCreated a u.1 u.0)
    by_test true = tt
    by_test false = (refl, here)

pub create-IsCreated :
    (e : Env) (name key secret : String) (url : Option String) (w : World)
    → IsCreated
        (new_app (e.gen_uuid w.tick) (e.now w.tick) name key secret url)
        (create e name key secret url w).1
        (create e name key secret url w).0
unfolding create statement
create-IsCreated e name key secret url w =
    by_fault (new_app (e.gen_uuid w.tick) (e.now w.tick) name key secret url) (e.fault w.tick)
  where
    by_fault :
        (a : App) (f : Fault)
        → IsCreated a (run_statement e f (insert_app a) w).1 (run_statement e f (insert_app a) w).0
    by_fault a fine = insert_app-IsCreated a (advance w)
    by_fault a (refused s) = tt
    by_fault a (reply_lost s) = tt

-- A row with the id of the request is approved, and linked to the app.
abbrev IsMarked : SignupRequest → App → SignupRequest → Type 0
IsMarked s app t = (t.id ≡ s.id) → (t.status ≡ signup_approved) × (t.app_id ≡ some app.id)

module _ (s : SignupRequest) (app : App) (f : SignupRequest → SignupRequest)
    (h : (t : SignupRequest)
      → ((f t).status ≡ signup_approved) × ((f t).app_id ≡ some app.id)) where
  row-IsMarked :
      (t : SignupRequest) (b : Bool) → (t.id == s.id) ≡ b → IsMarked s app (if b then f t else t)
  row-IsMarked t true q = λ _. h t
  row-IsMarked t false q = λ eq. ground arith

  update-IsApproved :
      (l : List SignupRequest)
      → All (IsMarked s app) (update (λ (t : SignupRequest). t.id == s.id) f l)
  unfolding update
  update-IsApproved [] = tt
  update-IsApproved (t ∷ l) = (row-IsMarked t (t.id == s.id) refl, update-IsApproved l)

-- What the UPDATE leaves.
abbrev IsLinked : SignupRequest → App → World → Result (Unit {0}) → Type 0
IsLinked s app w (ok u) = All (IsMarked s app) w.signups
IsLinked s app w (err x) = Unit

pub mark_approved-IsLinked :
    (e : Env) (s : SignupRequest) (app : App) (note : String) (w : World)
    → ((mark_approved e s.id app.id note w).1.apps ≡ w.apps)
      × IsLinked s app (mark_approved e s.id app.id note w).1 (mark_approved e s.id app.id note w).0
unfolding mark_approved statement
mark_approved-IsLinked e s app note w = by_fault (e.fault w.tick)
  where
    mark : SignupRequest → SignupRequest
    mark t = record t {
      status = signup_approved;
      app_id = some app.id;
      review_note = non_empty note;
      reviewed_at = some (e.now w.tick);
    }

    run : M (Result (Unit {0}))
    run v =
        if any (λ (t : SignupRequest). t.id == s.id) v.signups
          && not (any (λ (a : App). a.id == app.id) v.apps)
        then (err foreign_key_violation, v)
        else (
          ok tt,
          record v { signups = update (λ (t : SignupRequest). t.id == s.id) mark v.signups },
        )

    by_test :
        (v : World) (b : Bool)
        → (let u : Result (Unit {0}) × World = if b then (err foreign_key_violation, v) else (
          ok tt,
          record v { signups = update (λ (t : SignupRequest). t.id == s.id) mark v.signups },
        ) in
            (u.1.apps ≡ v.apps) × IsLinked s app u.1 u.0)
    by_test v true = (refl, tt)
    by_test v false = (refl, update-IsApproved s app mark (λ t. (refl, refl)) v.signups)

    by_fault :
        (f : Fault)
        → ((run_statement e f run w).1.apps ≡ w.apps)
          × IsLinked s app (run_statement e f run w).1 (run_statement e f run w).0
    by_fault fine = by_test (advance w) _
    by_fault (refused x) = (refl, tt)
    by_fault (reply_lost x) = ((by_test (advance w) _).0, tt)

-- What an answer with credentials says of the request `s`.
abbrev pub Issues : Env → SignupRequest → World → Body → Type 0
Issues e s w (credentials app key secret email) =
    IsIssued e s app key secret w × All (IsMarked s app) w.signups × (email ≡ some s.email)
Issues e s w b = Unit

module _ (e : Env) (s : SignupRequest) where
  approve_marked-Issues :
      (app : App) (key secret : String) (r : Result (Unit {0})) (w : World)
      → IsIssued e s app key secret w
      → IsLinked s app w r
      → Issues e s
          (approve_marked e s app key secret r w).1
          (approve_marked e s app key secret r w).0.body
  approve_marked-Issues app key secret (err x) w i l = tt
  approve_marked-Issues app key secret (ok u) w i l = (i, l, refl)

  -- The app that was created has the credentials.
  created-IsIssued :
      (key secret id : String) (now : ℕ) (b : App) (w : World)
      → IsCreated
          (new_app id now s.business_name (hash_token e key) (hash_token e secret) none)
          w
          (ok b)
      → IsIssued e s b key secret w
  created-IsIssued key secret id now b w (eq, m) =
      rw eq (record { active = refl; key_hash = refl; secret_hash = refl; name = refl; there = m })

  approve_created-Issues :
      (note key secret id : String) (now : ℕ) (r : Result App) (w : World)
      → IsCreated (new_app id now s.business_name (hash_token e key) (hash_token e secret) none) w r
      → Issues e s
          (approve_created e s note key secret r w).1
          (approve_created e s note key secret r w).0.body
  approve_created-Issues note key secret id now (err x) w c = tt
  approve_created-Issues note key secret id now (ok b) w c =
      let marked = mark_approved e s.id b.id note w in
      let linked = mark_approved-IsLinked e s b note w in
      let i = created-IsIssued key secret id now b w c in
      approve_marked-Issues b key secret marked.0 marked.1
        (record {
          active = i.active;
          key_hash = i.key_hash;
          secret_hash = i.secret_hash;
          name = i.name;
          there = rw linked.0 i.there;
        })
        linked.1

  approve_secret-Issues :
      (note key : String) (r : Result String) (w : World)
      → Issues e s (approve_secret e s note key r w).1 (approve_secret e s note key r w).0.body
  approve_secret-Issues note key (err x) w = tt
  approve_secret-Issues note key (ok secret) w =
      let a = create e s.business_name (hash_token e key) (hash_token e secret) none w in
      approve_created-Issues note key secret (e.gen_uuid w.tick) (e.now w.tick) a.0 a.1
        (create-IsCreated e s.business_name (hash_token e key) (hash_token e secret) none w)

  approve_key-Issues :
      (note : String) (r : Result String) (w : World)
      → Issues e s (approve_key e s note r w).1 (approve_key e s note r w).0.body
  approve_key-Issues note (err x) w = tt
  approve_key-Issues note (ok key) w =
      approve_secret-Issues note key (generate_token e w).0 (generate_token e w).1

-- An approval of the request with this id, for a row that is read: if the row is pending, an answer
-- with credentials says that an active app with them and with the name of the applicant is in the
-- table, that every row with the id is approved and linked to it, and that the address is the
-- applicant's; and if the row is not pending, the answer is 409, and no app is made and no row changes.
pub approve_signup-Issues :
    (e : Env) (r : Request) (s : SignupRequest) (w : World)
    → e.fault w.tick ≡ fine
    → find (λ (t : SignupRequest). t.id == r.param "id") w.signups ≡ some s
    → ((s.status ≡ signup_pending)
        × Issues e s (approve_signup e r w).1 (approve_signup e r w).0.body)
      ⊎ ((s.status ≢ signup_pending)
          × ((approve_signup e r w).0.status ≡ 409)
          × ((approve_signup e r w).1 ≡ record w { tick = w.tick + 1 }))
unfolding approve_signup approve_found find_signup statement
approve_signup-Issues e r s w runs found = by_test (s.status == signup_pending) refl
  where
    note : String
    note = e.decode_note (deref r.body)

    by_test :
        (b : Bool)
        → (s.status == signup_pending) ≡ b
        → ((s.status ≡ signup_pending)
            × Issues e s (approve_signup e r w).1 (approve_signup e r w).0.body)
          ⊎ ((s.status ≢ signup_pending)
              × ((approve_signup e r w).0.status ≡ 409)
              × ((approve_signup e r w).1 ≡ record w { tick = w.tick + 1 }))
    by_test true q = inl (
        rw (runs, found, q)
          (
            ground arith,
            approve_key-Issues e s note (generate_token e (advance w)).0
                (generate_token e (advance w)).1,
          ))
    by_test false q = inr (rw (runs, found, q) (ground arith, refl, refl))
