-- ===== src/Ledger.antt =====
-- The invariant of the table `payments`, over every row that the handlers of
-- internal/handler write.
pub mod Rows
pub mod Statements
pub mod Inserts
pub mod Amounts
pub mod Reads
pub mod Respond
pub mod Handlers
use abmcy_core_payment.Base.{
  String, Bool, false, Option, none, some, List, [], ◌∷◌, ◌≡◌, ◌≢◌, All, In,
}
use abmcy_core_payment.Int64.{ℤ, pos, ◌≤ℤ◌}
use abmcy_core_payment.Fees.Bounds.{IsSplit}
use abmcy_core_payment.Model.{Payment, type_deposit, type_payout, type_refund, max_amount_verified}
use abmcy_core_payment.Repo.Payments.{same_key}

-- The commission and the net, where it is stored, add up to the amount.
abbrev pub HasSplit : ℤ → ℤ → Option ℤ → Type 0
HasSplit amount fee none = ⊥
HasSplit amount fee (some net) = IsSplit amount fee net

-- A row: a positive amount, split into commission and net, and within the highest limit unless it
-- is a payout.
pub record IsAccountedAs (kind : String) (amount fee : ℤ) (net : Option ℤ) : Type 0 where
  pub positive : pos 1 ≤ℤ amount
  pub split : HasSplit amount fee net
  pub capped : kind ≢ type_payout → amount ≤ℤ max_amount_verified

abbrev pub IsAccounted : Payment → Type 0
IsAccounted p = IsAccountedAs p.kind p.amount_cfa p.fee_cfa p.net_cfa

-- The row `d` is the deposit that the row `r` refunds: of the same app, and for its whole amount.
pub record Refunds (r d : Payment) : Type 0 where
  pub deposit : d.kind ≡ type_deposit
  pub app : d.app_id ≡ r.app_id
  pub whole : d.amount_cfa ≡ r.amount_cfa

abbrev pub LinkedTo : List Payment → Payment → Option String → Type 0
LinkedTo ps r none = r.kind ≢ type_refund
LinkedTo ps r (some id) = (d : Payment) × In d ps × (d.id ≡ id) × Refunds r d

-- A refund points at its deposit, and nothing else points anywhere.
abbrev pub IsLinked : List Payment → Payment → Type 0
IsLinked ps r = LinkedTo ps r r.refund_of_payment_id

-- Two rows with different ids and different (app_id, app_ref, type).
pub record IsApart (p q : Payment) : Type 0 where
  pub ids : p.id ≢ q.id
  pub keys : same_key p q ≡ false

abbrev pub Pairwise : List Payment → Type 0
Pairwise [] = Unit
Pairwise (p ∷ ps) = All (IsApart p) ps × Pairwise ps

pub record IsLedger (ps : List Payment) : Type 0 where
  pub rows : All IsAccounted ps
  pub links : All (IsLinked ps) ps
  pub apart : Pairwise ps
