-- ===== src/Repo/Payments/Pages.antt =====
-- What ListPayments returns, and that its pages cover all payments.
use mathlib.Core.List.{Permᴰ}
use abmcy_core_payment.Base.{
  ℕ, zero, suc, ◌+◌, ◌*◌, ◌≤◌, String, Bool, true, false, Option, none, some, List, [], ◌∷◌, ◌++◌,
  ◌≡◌, refl, ap, sym, subst, arith, ◌==◌, ltb, All, In, here, there, All-map, All-filter, All-take,
  All-drop, find-In, take-append, drop-drop, take_all, length, length-take, find, take, drop,
  if◌then◌else◌,
}
use abmcy_core_payment.Int64.{ℤ, pos, negsuc, pos_part, ltb_ℤ}
use abmcy_core_payment.Model.{App, Payment, PaymentWithApp}
use abmcy_core_payment.World.{
  World, Env, Fault, fine, refused, reply_lost, Result, ok, err, database, M, pure, ◌>>=◌, on_ok,
  statement, run_statement,
}
use abmcy_core_payment.Repo.Payments.Listing.{
  ListPaymentsFilter, effective_limit, join_apps, passes, matching, wanted_app, page_of,
  select_page, list_payments,
}
use abmcy_core_payment.Orders.{
  Descends, IsOrderedBy, All-rearranged, length-rearranged, Descends-take, Descends-drop,
}

abbrev pub age : PaymentWithApp → ℤ
age pw = pos pw.payment.created_at

-- A row of the table, with the name of its app.
pub record IsJoined (apps : List App) (payments : List Payment) (pw : PaymentWithApp) : Type 0 where
  pub row : In pw.payment payments
  pub app : (a : App) × In a apps × (a.id ≡ pw.payment.app_id) × (a.name ≡ pw.app_name)

-- A row that the filter asks for.
pub record IsListed (wanted : Option String) (status : String) (w : World) (pw : PaymentWithApp)
    : Type 0 where
  pub joined : IsJoined w.apps w.payments pw
  pub passing : passes wanted status pw ≡ true

join_apps-IsJoined :
    (apps : List App) (ps : List Payment) → All (IsJoined apps ps) (join_apps apps ps)
unfolding join_apps
join_apps-IsJoined apps [] = tt
join_apps-IsJoined apps (p ∷ ps) =
    let rest =
      All-map (IsJoined apps ps) (IsJoined apps (p ∷ ps))
        (λ pw j. record { row = there j.row; app = j.app }) (join_apps apps ps)
        (join_apps-IsJoined apps ps) in
    by_app (find (λ (a : App). a.id == p.app_id) apps) refl rest
  where
    by_app :
        (o : Option App)
        → find (λ (a : App). a.id == p.app_id) apps ≡ o
        → All (IsJoined apps (p ∷ ps)) (join_apps apps ps)
        → All (IsJoined apps (p ∷ ps)) (elim o [
          | none ↦ join_apps apps ps
          | some a ↦ record { payment = p; app_name = a.name } ∷ join_apps apps ps
        ])
    by_app none eq rest = rest
    by_app (some a) eq rest =
        let (at, same) = find-In (λ (a : App). a.id == p.app_id) apps eq in
        (record { row = here; app = (a, at, ground arith, refl) }, rest)

matching-IsListed :
    (wanted : Option String) (status : String) (w : World)
    → All (IsListed wanted status w) (matching wanted status w)
unfolding matching
matching-IsListed wanted status w =
    All-filter (IsJoined w.apps w.payments) (IsListed wanted status w) (passes wanted status)
      (λ pw t j. record { joined = j; passing = t }) (join_apps w.apps w.payments)
      (join_apps-IsJoined w.apps w.payments)

effective_limit-le : (n : ℤ) → effective_limit n ≤ 200
unfolding effective_limit
effective_limit-le (pos n) = ground arith
effective_limit-le (negsuc n) = omega arith

effective_limit-pos : (n : ℤ) → 1 ≤ effective_limit n
unfolding effective_limit
effective_limit-pos (pos n) = ground arith
effective_limit-pos (negsuc n) = omega arith

-- A page: at most 200 rows, each a row of the table that the filter asks for, the newest first.
pub record IsPage (wanted : Option String) (status : String) (w : World)
    (rows : List PaymentWithApp) : Type 0 where
  pub short : length rows ≤ 200
  pub newest_first : Descends age rows
  pub listed : All (IsListed wanted status w) rows

module _ (e : Env) where
  page_of-IsPage :
      (f : ListPaymentsFilter) (wanted : Option String) (w : World)
      (order : List PaymentWithApp → List PaymentWithApp)
      → IsOrderedBy age order
      → IsPage wanted f.status w (page_of e f (order (matching wanted f.status w)))
  page_of-IsPage f wanted w order o =
      let rows = matching wanted f.status w in
      let n = effective_limit f.limit in
      let k = pos_part f.offset in
      record {
        short =
            let a = length-take n (drop k (order rows)) in
            let b = effective_limit-le f.limit in omega arith;
        newest_first =
            Descends-take age n (drop k (order rows))
              (Descends-drop age k (order rows) (o.descends rows));
        listed = All-take (IsListed wanted f.status w) n (drop k (order rows)) (
            All-drop (IsListed wanted f.status w) k (order rows) (
              All-rearranged (IsListed wanted f.status w) (o.rearranges rows)
                (matching-IsListed wanted f.status w)));
      }

  -- What ListPayments returns is a page of what the filter asks for, where the database arranges the
  -- rows by their age: at most 200 rows, whatever limit is asked for, each with the name of its app,
  -- the newest first. A text that is no UUID is refused.
  pub list_payments-IsPage :
      (f : ListPaymentsFilter) (w : World) {rows : List PaymentWithApp}
      → IsOrderedBy age (e.arrange w.tick).payments_by_age
      → (list_payments e f w).0 ≡ ok rows
      → (wanted : Option String) × (wanted_app e f.app_id ≡ some wanted)
        × IsPage wanted f.status w rows
  unfolding list_payments statement
  list_payments-IsPage f w {rows} o returned =
      by_fault (e.fault w.tick) (wanted_app e f.app_id) refl returned
    where
      by_offset :
          (v : World) (wanted : Option String) (b : Bool)
          → (let r : Result (List PaymentWithApp) × World =
                if b then (err (database "OFFSET must not be negative"), v) else (
                  ok (
                      page_of e f
                        ((e.arrange w.tick).payments_by_age (matching wanted f.status w))),
                  v,
                ) in
              r).0
            ≡ ok rows
          → IsPage wanted f.status w rows
      by_offset v wanted true h = cc
      by_offset v wanted false h =
          subst (IsPage wanted f.status w) (let same = h in cc) (page_of-IsPage f wanted w _ o)

      by_fault :
          (x : Fault) (id : Option (Option String))
          → wanted_app e f.app_id ≡ id
          → (run_statement e x (select_page e f ((e.arrange w.tick).payments_by_age) id) w).0
            ≡ ok rows
          → (wanted : Option String) × (wanted_app e f.app_id ≡ some wanted)
            × IsPage wanted f.status w rows
      by_fault fine none eq h = cc
      by_fault fine (some wanted) eq h = (wanted, eq, by_offset _ wanted (ltb_ℤ f.offset (pos 0)) h)
      by_fault (refused s) id eq h = cc
      by_fault (reply_lost s) id eq h = cc

  -- A client that asks for `k` pages, one after the other, from the offset of `f`.
  abbrev pub next_page : ListPaymentsFilter → ListPaymentsFilter
  next_page f = record f { offset = pos (pos_part f.offset + effective_limit f.limit) }

  abbrev pub joined_pages :
      List PaymentWithApp → Result (List PaymentWithApp) → M (Result (List PaymentWithApp))
  joined_pages rows (err x) = pure (err x)
  joined_pages rows (ok more) = pure (ok (rows ++ more))

  unfoldable pub collect : ℕ → ListPaymentsFilter → M (Result (List PaymentWithApp))
  collect zero f = pure (ok [])
  collect (suc k) f = do
    r ← list_payments e f
    on_ok r λ rows. do more ← collect k (next_page f); joined_pages rows more

  joined_ok :
      (rows more : List PaymentWithApp) (r : Result (List PaymentWithApp)) (v : World)
      → r ≡ ok more
      → (joined_pages rows r v).0 ≡ ok (rows ++ more)
  joined_ok rows more r v h = rw h

  list_payments-page :
      (f : ListPaymentsFilter) (w : World) (wanted : Option String) (o : ℕ)
      → e.fault w.tick ≡ fine
      → wanted_app e f.app_id ≡ some wanted
      → f.offset ≡ pos o
      → list_payments e f w ≡ (
        ok (
            take
              (effective_limit f.limit)
              (drop o ((e.arrange w.tick).payments_by_age (matching wanted f.status w)))),
        record w { tick = w.tick + 1 },
      )
  unfolding list_payments statement matching
  list_payments-page f w wanted o fault id offset =
      let ahead : ltb (o + 0) (0 + 0) ≡ false = ground arith in rw (fault, id, offset, ahead)

  module _ (order : List PaymentWithApp → List PaymentWithApp) (calm : (n : ℕ) → e.fault n ≡ fine)
      (steady : (n : ℕ) → (e.arrange n).payments_by_age ≡ order) where
    collect-take :
        (k : ℕ) (f : ListPaymentsFilter) (w : World) (wanted : Option String) (o : ℕ)
        → wanted_app e f.app_id ≡ some wanted
        → f.offset ≡ pos o
        → (collect k f w).0
          ≡ ok (take (k * effective_limit f.limit) (drop o (order (matching wanted f.status w))))
    unfolding collect matching
    collect-take zero f w wanted o id offset =
        let none_left : 0 * effective_limit f.limit ≡ 0 = omega arith in rw none_left
    collect-take (suc k) f w wanted o id offset =
        let n = effective_limit f.limit in
        let rows = order (matching wanted f.status w) in
        let at : pos_part f.offset + n ≡ o + n = rw offset in
        let rest =
          collect-take k (next_page f) (record w { tick = w.tick + 1 }) wanted (o + n) id (rw at) in
        let size : suc k * n ≡ n + k * n = grind arith in
        rw
          (
            list_payments-page f w wanted o (calm w.tick) id offset,
            steady w.tick,
            size,
            sym (take-append n (k * n) (drop o rows)),
            drop-drop o n rows,
          )
          (joined_ok (take n (drop o rows)) (take (k * n) (drop (o + n) rows)) _ _ rest)

    -- Page after page, from the first, every payment that the filter asks for comes once: so it is
    -- where the statements run, the database arranges equal rows in the same way each time, and there
    -- are enough pages for the rows, of the size that the limit gives.
    pub collect-IsComplete :
        (k : ℕ) (f : ListPaymentsFilter) (w : World) (wanted : Option String)
        → IsOrderedBy age order
        → wanted_app e f.app_id ≡ some wanted
        → f.offset ≡ pos 0
        → length (matching wanted f.status w) ≤ k * effective_limit f.limit
        → (rows : List PaymentWithApp) × ((collect k f w).0 ≡ ok rows)
          × Permᴰ rows (matching wanted f.status w)
    collect-IsComplete k f w wanted o id offset enough =
        let rows = matching wanted f.status w in
        let same = length-rearranged (o.rearranges rows) in
        let all = take_all (k * effective_limit f.limit) (order rows) (omega arith) in
        (order rows, rw (collect-take k f w wanted 0 id offset) (ap ok all), o.rearranges rows)
