-- ===== src/Repo/Payments/Listing.antt =====
-- ListPayments of internal/repository/app_repo.go: a page of the payments, the newest first.
use abmcy_core_payment.Base.{
  ℕ, String, Bool, true, ◌&&◌, ◌||◌, Option, none, some, List, [], ◌∷◌, ◌==◌, ltb, find, filter,
  take, drop, if◌then◌else◌,
}
use abmcy_core_payment.Int64.{ℤ, pos, negsuc, pos_part, ltb_ℤ}
use abmcy_core_payment.Model.{App, Payment, PaymentWithApp}
use abmcy_core_payment.World.{World, Env, Result, ok, err, database, M, statement}

pub record ListPaymentsFilter : Type 0 where
  pub app_id : String
  pub status : String
  pub limit : ℤ
  pub offset : ℤ

-- Fifty, unless the limit is one of 1, …, 200.
unfoldable pub effective_limit : ℤ → ℕ
effective_limit (pos n) = if ltb n 1 || ltb 200 n then 50 else n
effective_limit (negsuc n) = 50

-- JOIN apps a ON a.id = p.app_id: the id of an app is unique, and a payment of no app is no row.
unfoldable pub join_apps : List App → List Payment → List PaymentWithApp
join_apps apps [] = []
join_apps apps (p ∷ ps) =
    let rest = join_apps apps ps in
    elim (find (λ (a : App). a.id == p.app_id) apps) [
      | none ↦ rest
      | some a ↦ record { payment = p; app_name = a.name } ∷ rest
    ]

abbrev pub of_app : Option String → Payment → Bool
of_app none p = true
of_app (some id) p = p.app_id == id

abbrev pub passes : Option String → String → PaymentWithApp → Bool
passes wanted status pw = of_app wanted pw.payment && (status == "" || pw.payment.status == status)

-- The rows of the query, before ORDER BY.
unfoldable pub matching : Option String → String → World → List PaymentWithApp
unfolding join_apps
matching wanted status w = filter (passes wanted status) (join_apps w.apps w.payments)

module _ (e : Env) where
  -- $1 = '' asks for no app; another text has to be a UUID.
  unfoldable pub wanted_app : String → Option (Option String)
  wanted_app id = if id == "" then some none else map_some (e.parse_uuid id)
    where
      map_some : Option String → Option (Option String)
      map_some none = none
      map_some (some id) = some (some id)

  -- LIMIT and OFFSET.
  abbrev pub page_of : ListPaymentsFilter → List PaymentWithApp → List PaymentWithApp
  page_of f rows = take (effective_limit f.limit) (drop (pos_part f.offset) rows)

  abbrev pub select_page :
      ListPaymentsFilter
      → (List PaymentWithApp → List PaymentWithApp)
      → Option (Option String)
      → M (Result (List PaymentWithApp))
  select_page f order none w = (err (database "invalid input syntax for type uuid"), w)
  select_page f order (some wanted) w =
      if ltb_ℤ f.offset (pos 0)
      then (err (database "OFFSET must not be negative"), w)
      else (ok (page_of f (order (matching wanted f.status w))), w)

  unfoldable pub list_payments : ListPaymentsFilter → M (Result (List PaymentWithApp))
  unfolding matching wanted_app effective_limit
  list_payments f w =
      statement e (select_page f (e.arrange w.tick).payments_by_age (wanted_app f.app_id)) w
