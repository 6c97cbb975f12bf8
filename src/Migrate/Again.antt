-- ===== src/Migrate/Again.antt =====
-- A run that has ended well leaves nothing to do.
use abmcy_core_payment.Base.{
  String, Bool, true, List, [], ◌∷◌, ◌++◌, ◌≡◌, refl, subst, arith, ◌==◌, ==-self, any, All,
}
use abmcy_core_payment.Migrate.{base, Database, Session, Exit, finished, Tool, directory, migrate}
use abmcy_core_payment.Migrate.Replay.{
  is_applied, Progress, ended, stopped, skips, applies, in_order, migrate-Progress,
}

any-append : (t : String → Bool) (xs ys : List String) → any t xs ≡ true → any t (xs ++ ys) ≡ true
unfolding any
any-append t [] ys h = cc
any-append t (x ∷ xs) ys h = let rest = any-append t xs ys in ground arith

any-last :
    (t : String → Bool) (xs : List String) (y : String) → t y ≡ true → any t (xs ++ y ∷ []) ≡ true
unfolding any
any-last t [] y h = ground arith
any-last t (x ∷ xs) y h = let rest = any-last t xs y h in ground arith

module _ {S : Type 0} where
  -- A name stays in the table.
  stays :
      (t : Tool S) (g : String) {fs : List String} {db db' : Database S} {x : Exit}
      → is_applied g db ≡ true
      → Progress t fs db x db'
      → is_applied g db' ≡ true
  stays t g h ended = h
  stays t g h (stopped m) = h
  stays t g h (skips there p) = stays t g h p
  stays t g {db = db} h (applies r p) = stays t g (any-append (λ n. n == base g) db.applied _ h) p

  -- After an end without an error each name is in the table.
  finished-All :
      (t : Tool S) {fs : List String} {db db' : Database S}
      → Progress t fs db finished db'
      → All (λ f. is_applied f db' ≡ true) fs
  finished-All t ended = tt
  finished-All t (skips {f = f} there p) = (stays t f there p, finished-All t p)
  finished-All t {db = db} (applies {f = f} r p) = (
    stays t f (any-last (λ n. n == base f) db.applied (base f) (==-self (base f))) p,
    finished-All t p,
  )

  nothing_left :
      (t : Tool S) {fs : List String} {db db' : Database S} {x : Exit}
      → Progress t fs db x db'
      → All (λ f. is_applied f db ≡ true) fs
      → db' ≡ db
  nothing_left t ended h = refl
  nothing_left t (stopped m) h = refl
  nothing_left t (skips there q) (p, h) = nothing_left t q h
  nothing_left t (applies r q) (p, h) = let new = r.is_new in cc

  -- After a run that ended without an error another run over the same files leaves the schema and the
  -- table as they are, whatever the database answers, and whatever the files say by then.
  pub migrate-again :
      (t u : Tool S) (s r : Session S)
      → (migrate t s).0 ≡ finished
      → r.db ≡ (migrate t s).1.db
      → u.glob (directory u.argument) ≡ t.glob (directory t.argument)
      → (migrate u r).1.db ≡ r.db
  migrate-again t u s r ends same files =
      let done = finished-All t (
        subst (λ x. Progress t (in_order (t.glob (directory t.argument))) s.db x (migrate t s).1.db)
          ends (migrate-Progress t s)) in
      nothing_left u (migrate-Progress u r) (rw (same, files) done)
