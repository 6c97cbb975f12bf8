-- ===== src/Repo/Payments/Conflicts.antt =====
-- CreatePayment under a key that is in use.
use abmcy_core_payment.Base.{
  ◌+◌, String, Bool, true, ◌&&◌, Option, some, List, [], ◌∷◌, ◌≡◌, arith, ◌==◌, any, find,
}
use abmcy_core_payment.Model.{Payment, type_deposit}
use abmcy_core_payment.World.{World, Env, fine, ok, statement}
use abmcy_core_payment.Repo.Payments.{
  PaymentParams, fits_columns, same_key, insert_or_nothing, fresh, create_payment,
  find_payment_by_app_ref_type,
}

any-find :
    (t u : Payment → Bool) (ps : List Payment) (p : Payment)
    → ((q : Payment) → t q ≡ true → u q ≡ true)
    → find t ps ≡ some p
    → any u ps ≡ true
unfolding any find
any-find t u [] p h eq = cc
any-find t u (q ∷ ps) p h eq = let rest = any-find t u ps p h in let one = h q in ground arith

module _ (e : Env) where
  -- CreatePayment for an app_ref that the app has a deposit for returns that deposit and makes no row,
  -- also where another request has made it since the caller looked: the two statements run, and the
  -- amounts are those of an INTEGER column.
  pub create_payment_existing :
      (params : PaymentParams) (return_url : Option String) (p : Payment) (w : World)
      → e.fault w.tick ≡ fine
      → e.fault (w.tick + 1) ≡ fine
      → fits_columns (fresh e type_deposit params w) ≡ true
      → find
          (λ (q : Payment).
            q.app_id == params.app_id && (q.app_ref == params.app_ref && q.kind == type_deposit))
          w.payments
        ≡ some p
      → create_payment e params return_url w ≡ (ok p, record w { tick = w.tick + 1 + 1 })
  unfolding create_payment insert_or_nothing find_payment_by_app_ref_type statement
  create_payment_existing params return_url p w first second fits found =
      let row = record (fresh e type_deposit params w) { return_url = return_url } in
      let clash : any (same_key row) w.payments ≡ true =
        any-find _ (same_key row) w.payments p (λ q h. ground arith) found in
      rw (first, fits, clash, second, found)
