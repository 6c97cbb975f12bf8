-- ===== src/Repo/Signups/Unique.antt =====
-- Statements that keep the pending requests of addresses apart: the index uq_signup_pending_email.
use text.Mathlib.TextEquality.{eq_iff}
use abmcy_core_payment.Base.{
  ℕ, String, Bool, true, false, Option, some, List, [], ◌∷◌, ◌≡◌, ◌≢◌, refl, arith, ◌==◌, All, any,
  update, if◌then◌else◌, non_empty,
}
use abmcy_core_payment.Model.{
  App, SignupRequest, PublicSignupInput, signup_pending, signup_approved, signup_rejected,
}
use abmcy_core_payment.World.{
  World, Env, Fault, fine, refused, reply_lost, Result, ok, err, unique_violation,
  foreign_key_violation, M, pure, ◌>>=◌, advance, statement, run_statement,
}
use abmcy_core_payment.Repo.Apps.{create, insert_app, clashes_app}
use abmcy_core_payment.Repo.Signups.{
  new_signup, clashes_signup, insert_signup, create_signup, find_signup, mark_approved,
  mark_rejected,
}
use abmcy_core_payment.Token.{generate_token}

not_approved : signup_approved ≢ signup_pending
not_approved = ground (arith, eq_iff signup_approved signup_pending)

not_rejected : signup_rejected ≢ signup_pending
not_rejected = ground (arith, eq_iff signup_rejected signup_pending)

module _ (e : Env) where
  -- Two pending requests have different addresses, in small letters.
  abbrev pub Differs : SignupRequest → SignupRequest → Type 0
  Differs s t =
      s.status ≡ signup_pending → t.status ≡ signup_pending → e.lower s.email ≢ e.lower t.email

  unfoldable pub IsUnique : List SignupRequest → Type 0
  IsUnique [] = Unit
  IsUnique (s ∷ l) = All (Differs s) l × IsUnique l

  no_clash :
      (s : SignupRequest) (l : List SignupRequest)
      → any (clashes_signup e s) l ≡ false
      → All (Differs s) l
  unfolding any
  no_clash s [] q = tt
  no_clash s (t ∷ l) q = ((λ p p' same. ground arith), no_clash s l (ground arith))

  module _ (t : SignupRequest → Bool) (f : SignupRequest → SignupRequest)
      (ends : (s : SignupRequest) → (f s).status ≢ signup_pending) where
    All-ended :
        (s : SignupRequest) (l : List SignupRequest)
        → All (Differs s) l
        → All (Differs s) (update t f l)
    unfolding update
    All-ended s [] h = tt
    All-ended s (u ∷ l) (d, h) = (by_test (t u), All-ended s l h)
      where
        by_test : (b : Bool) → Differs s (if b then f u else u)
        by_test true = λ p p'. absurd (ends u p')
        by_test false = d

    -- A review ends requests.
    update-IsUnique : (l : List SignupRequest) → IsUnique l → IsUnique (update t f l)
    unfolding update IsUnique
    update-IsUnique [] h = tt
    update-IsUnique (u ∷ l) (d, h) = (by_test (t u), update-IsUnique l h)
      where
        ended : (x : List SignupRequest) → All (Differs (f u)) x
        ended [] = tt
        ended (y ∷ x) = ((λ p. absurd (ends u p)), ended x)

        by_test : (b : Bool) → All (Differs (if b then f u else u)) (update t f l)
        by_test true = ended (update t f l)
        by_test false = All-ended u l d

  -- An action that keeps the addresses of pending requests apart.
  pub record IsStable {A : Type 0} (m : M A) : Type 0 where
    pub at : (w : World) → IsUnique w.signups → IsUnique (m w).1.signups

  pub IsStable-pure : {A : Type 0} (a : A) → IsStable (pure a)
  IsStable-pure a = record { at = λ w h. h }

  pub IsStable-bind :
      {A B : Type 0} (m : M A) (f : A → M B)
      → IsStable m
      → ((a : A) → IsStable (f a))
      → IsStable (m >>= f)
  IsStable-bind m f p q = record { at = λ w h. let (a, w') = m w in (q a).at w' (p.at w h) }

  pub IsStable-if :
      {A : Type 0} (b : Bool) {m n : M A} → IsStable m → IsStable n → IsStable (if b then m else n)
  IsStable-if true p q = p
  IsStable-if false p q = q

  IsStable-statement :
      {A : Type 0} (make : World → M (Result A))
      → ((w : World) → IsStable (make w))
      → IsStable (λ w. statement e (make w) w)
  unfolding statement
  IsStable-statement make p = record { at = λ w h. by_fault w h (e.fault w.tick) }
    where
      by_fault :
          (w : World)
          → IsUnique w.signups
          → (f : Fault) → IsUnique (run_statement e f (make w) w).1.signups
      by_fault w h fine = (p w).at (advance w) h
      by_fault w h (refused s) = h
      by_fault w h (reply_lost s) = (p w).at (advance w) h

  insert_signup-IsStable : (s : SignupRequest) → IsStable (insert_signup e s)
  unfolding insert_signup IsUnique
  insert_signup-IsStable s = record {
    at = λ w h. by_test w h (any (clashes_signup e s) w.signups) refl;
  }
    where
      by_test :
          (w : World)
          → IsUnique w.signups
          → (b : Bool) → any (clashes_signup e s) w.signups ≡ b
          → (let u : Result SignupRequest × World =
                if b
                then (err unique_violation, w)
                else (ok s, record w { signups = s ∷ w.signups }) in
              IsUnique u.1.signups)
      by_test w h true q = h
      by_test w h false q = (no_clash s w.signups q, h)

  pub create_signup-IsStable : (i : PublicSignupInput) → IsStable (create_signup e i)
  unfolding create_signup
  create_signup-IsStable i = record {
    at = λ w h.
        (IsStable-statement (λ v. insert_signup e (new_signup (e.gen_uuid v.tick) (e.now v.tick) i))
            (λ v. insert_signup-IsStable (new_signup (e.gen_uuid v.tick) (e.now v.tick) i))).at
          w h;
  }

  pub find_signup-IsStable : (id : String) → IsStable (find_signup e id)
  unfolding find_signup
  find_signup-IsStable id = IsStable-statement _ λ w. record { at = λ w h. h }

  pub generate_token-IsStable : IsStable (generate_token e)
  unfolding generate_token
  generate_token-IsStable = record { at = λ w h. h }

  insert_app-IsStable : (a : App) → IsStable (insert_app a)
  unfolding insert_app
  insert_app-IsStable a = record { at = λ w h. by_test w h (any (clashes_app a) w.apps) }
    where
      by_test :
          (w : World)
          → IsUnique w.signups
          → (b : Bool)
          → (let u : Result App × World =
                if b then (err unique_violation, w) else (ok a, record w { apps = a ∷ w.apps }) in
              IsUnique u.1.signups)
      by_test w h true = h
      by_test w h false = h

  pub create-IsStable :
      (name key secret : String) (url : Option String) → IsStable (create e name key secret url)
  unfolding create
  create-IsStable name key secret url = IsStable-statement _ λ w. insert_app-IsStable _

  pub mark_approved-IsStable : (id app_id note : String) → IsStable (mark_approved e id app_id note)
  unfolding mark_approved
  mark_approved-IsStable id app_id note =
      IsStable-statement _ λ v. record { at = λ w h. by_test w (e.now v.tick) h _ }
    where
      mark : ℕ → SignupRequest → SignupRequest
      mark now s = record s {
        status = signup_approved;
        app_id = some app_id;
        review_note = non_empty note;
        reviewed_at = some now;
      }

      by_test :
          (w : World) (now : ℕ)
          → IsUnique w.signups
          → (b : Bool)
          → (let u : Result (Unit {0}) × World = if b then (err foreign_key_violation, w) else (
            ok tt,
            record w { signups = update (λ (s : SignupRequest). s.id == id) (mark now) w.signups },
          ) in
              IsUnique u.1.signups)
      by_test w now h true = h
      by_test w now h false =
          update-IsUnique (λ s. s.id == id) (mark now) (λ s. not_approved) w.signups h

  pub mark_rejected-IsStable : (id note : String) → IsStable (mark_rejected e id note)
  unfolding mark_rejected
  mark_rejected-IsStable id note = IsStable-statement _ λ v. record {
    at = λ w h. update-IsUnique (λ s. s.id == id) _ (λ s. not_rejected) w.signups h;
  }
