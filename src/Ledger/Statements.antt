-- ===== src/Ledger/Statements.antt =====
-- Each statement on `payments` keeps the ledger, whether it fails or not, and each read gives a
-- row of the table.
use abmcy_core_payment.Base.{
  String, Bool, true, false, Option, none, some, List, ◌≡◌, refl, arith, In, find, find-In, ◌==◌,
  ◌&&◌, if◌then◌else◌,
}
use abmcy_core_payment.Model.{Payment, type_deposit}
use abmcy_core_payment.World.{
  World, Env, Error, Result, ok, err, statement, check_violation, unique_violation,
}
use abmcy_core_payment.World.Keeps.{Triple, Ends, Triple-weaken, Triple-statement}
use abmcy_core_payment.Repo.Payments.{
  scan_payment, set_where, find_payment_by_app_ref_type, find_payment_by_app_ref,
  find_payment_by_diarra_ref, find_payment_by_id, update_diarra_ref_and_redirect,
  update_payment_redirect, update_payment_status, set_relay_result,
}
use abmcy_core_payment.Ledger.{IsLedger}
use abmcy_core_payment.Ledger.Rows.{SameBook, IsLedger-update}

-- A fallible action that keeps the ledger and, where it succeeds, gives a row of the table that
-- satisfies `S`.
abbrev pub Gives : (Payment → Type 0) → List Payment → Result Payment → Type 0
Gives S = Ends IsLedger (λ ps p. In p ps × S p)

abbrev Runs : List Payment → Result (Unit {0}) → Type 0
Runs = Ends IsLedger (λ ps _. Unit)

scan-In :
    (t : Payment → Bool) (ps : List Payment) (o : Option Payment)
    → find t ps ≡ o
    → IsLedger ps
    → Gives (λ p. t p ≡ true) ps (scan_payment o)
scan-In t ps none e h = h
scan-In t ps (some p) e h = let (m, q) = find-In t ps {x = p} e in (h, (m, q))

read-Gives :
    (e : Env) (t : Payment → Bool)
    → Triple IsLedger
        (statement e λ w. (scan_payment (find t w.payments), w))
        (Gives (λ p. t p ≡ true))
read-Gives e t =
    Triple-statement e (λ ps l. l) (λ _ w. (scan_payment (find t w.payments), w))
      λ _. record { at = λ w h. scan-In t w.payments (find t w.payments) refl h }

-- What a row found by its key says of itself.
pub record HasKey (app_id app_ref kind : String) (p : Payment) : Type 0 where
  pub app : p.app_id ≡ app_id
  pub ref : p.app_ref ≡ app_ref
  pub type : p.kind ≡ kind

key_of_test :
    (app_id app_ref kind : String) (p : Payment)
    → (p.app_id == app_id && (p.app_ref == app_ref && p.kind == kind)) ≡ true
    → HasKey app_id app_ref kind p
key_of_test a r k p h = record { app = ground arith; ref = ground arith; type = ground arith }

pub Gives-weaker :
    {S T : Payment → Type 0}
    → ((p : Payment) → S p → T p)
    → (ps : List Payment) (r : Result Payment) → Gives S ps r
    → Gives T ps r
Gives-weaker f ps (ok p) (l, (m, s)) = (l, (m, f p s))
Gives-weaker f ps (err x) l = l

module _ (e : Env) where
  pub find_payment_by_app_ref_type-Gives :
      (a r k : String)
      → Triple IsLedger (find_payment_by_app_ref_type e a r k) (Gives (HasKey a r k))
  unfolding find_payment_by_app_ref_type
  find_payment_by_app_ref_type-Gives a r k =
      Triple-weaken (λ ps l. l) (Gives-weaker (key_of_test a r k)) (read-Gives e _)

  pub find_payment_by_app_ref-Gives :
      (a r : String)
      → Triple IsLedger (find_payment_by_app_ref e a r) (Gives (HasKey a r type_deposit))
  unfolding find_payment_by_app_ref
  find_payment_by_app_ref-Gives a r = find_payment_by_app_ref_type-Gives a r type_deposit

  pub find_payment_by_diarra_ref-Gives :
      (r : String)
      → Triple IsLedger (find_payment_by_diarra_ref e r) (Gives (λ p. p.diarra_client_ref ≡ r))
  unfolding find_payment_by_diarra_ref
  find_payment_by_diarra_ref-Gives r =
      Triple-weaken (λ ps l. l) (Gives-weaker (λ p h. ground arith)) (read-Gives e _)

  pub find_payment_by_id-Gives :
      (id : String) → Triple IsLedger (find_payment_by_id e id) (Gives (λ p. p.id ≡ id))
  unfolding find_payment_by_id
  find_payment_by_id-Gives id =
      Triple-weaken (λ ps l. l) (Gives-weaker (λ p h. ground arith)) (read-Gives e _)

-- An UPDATE of columns that are not of the book.
set_where-Runs :
    (id : String) (f : Payment → Payment)
    → ((p : Payment) → SameBook p (f p))
    → Triple IsLedger (λ w. (ok tt, set_where id f w)) Runs
unfolding set_where
set_where-Runs id f keeps = record {
  at = λ w h. (IsLedger-update (λ p. p.id == id) f keeps w.payments h, tt);
}

-- The same behind the test of a constraint.
checked-Runs :
    (id : String) (f : Payment → Payment) (violated : World → Bool) (x : Error)
    → ((p : Payment) → SameBook p (f p))
    → Triple IsLedger (λ w. if violated w then (err x, w) else (ok tt, set_where id f w)) Runs
checked-Runs id f violated x keeps = record { at = λ w h. by_test w h (violated w) }
  where
    by_test :
        (w : World)
        → IsLedger w.payments
        → (b : Bool)
        → let r =
            (let u : Result (Unit {0}) × World =
                if b then (err x, w) else (ok tt, set_where id f w) in
              u) in
          Runs r.1.payments r.0
    by_test w h true = h
    by_test w h false = (set_where-Runs id f keeps).at w h

module _ (e : Env) where
  pub update_payment_status-Runs :
      (id s : String) (provider reason : Option String)
      → Triple IsLedger (update_payment_status e id s provider reason) Runs
  unfolding update_payment_status
  update_payment_status-Runs id s provider reason =
      Triple-statement e (λ ps l. l) _ λ w. checked-Runs id _ _ check_violation λ p. ground arith

  pub update_payment_redirect-Runs :
      (id url : String) → Triple IsLedger (update_payment_redirect e id url) Runs
  unfolding update_payment_redirect
  update_payment_redirect-Runs id url =
      Triple-statement e (λ ps l. l) _ λ w. set_where-Runs id _ λ p. ground arith

  pub update_diarra_ref_and_redirect-Runs :
      (id ref url : String) → Triple IsLedger (update_diarra_ref_and_redirect e id ref url) Runs
  unfolding update_diarra_ref_and_redirect
  update_diarra_ref_and_redirect-Runs id ref url =
      Triple-statement e (λ ps l. l) _ λ w. checked-Runs id _ _ unique_violation λ p. ground arith

  pub set_relay_result-Runs :
      (id s : String) (text : Option String) → Triple IsLedger (set_relay_result e id s text) Runs
  unfolding set_relay_result
  set_relay_result-Runs id s text =
      Triple-statement e (λ ps l. l) _ λ w. set_where-Runs id _ λ p. ground arith
