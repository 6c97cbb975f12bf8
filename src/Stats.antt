-- ===== src/Stats.antt =====
-- internal/repository/stats_repo.go: the figures of the console, as they are computed of the rows
-- that a query reads. A quotient is kept as its two counts.
pub mod Sums
use abmcy_core_payment.Base.{
  ℕ, zero, suc, ◌+◌, String, Bool, ◌&&◌, ◌||◌, Option, none, some, List, [], ◌∷◌, map, length,
  filter, ◌==◌, deref, if◌then◌else◌,
}
use abmcy_core_payment.Int64.{ℤ, pos, ◌+ℤ◌, ◌-ℤ◌}
use abmcy_core_payment.Model.{Payment, PaymentWithApp, completed, failed}

-- SuccessRate: `completed` of the `ended` payments; 0 where none has ended.
pub record Rate : Type 0 where
  pub completed : ℕ
  pub ended : ℕ

pub record Totals : Type 0 where
  pub count : ℕ
  pub amount_cfa : ℤ
  pub fee_cfa : ℤ
  pub net_cfa : ℤ
  pub completed : ℕ
  pub failed : ℕ
  pub success_rate : Rate

pub record ByType : Type 0 where
  pub kind : String
  pub count : ℕ
  pub amount_cfa : ℤ
  pub fee_cfa : ℤ

pub record ByApp : Type 0 where
  pub app_id : String
  pub app_name : String
  pub count : ℕ
  pub amount_cfa : ℤ
  pub fee_cfa : ℤ
  pub success_rate : Rate

pub record ByOperator : Type 0 where
  pub operator : String
  pub count : ℕ
  pub amount_cfa : ℤ

pub record Dashboard : Type 0 where
  pub since_days : ℤ
  pub totals : Totals
  pub by_type : List ByType
  pub by_app : List ByApp
  pub by_operator : List ByOperator

-- COALESCE(SUM(…), 0): a sum of INTEGERs is a BIGINT, which no table of fewer than 2^32 rows
-- exceeds.
unfoldable pub sum : {A : Type 0} → (A → ℤ) → List A → ℤ
sum f [] = pos 0
sum f (x ∷ xs) = f x +ℤ sum f xs

-- COUNT(*) FILTER (WHERE …)
abbrev pub count_where : {A : Type 0} → (A → Bool) → List A → ℕ
count_where t xs = length (filter t xs)

-- GROUP BY: the rows with one key, for each key that a row has.
pub record Group (K A : Type 0) : Type 0 where
  pub key : K
  pub rows : List A

module _ {K A : Type 0} (same : K → K → Bool) (key : A → K) where
  unfoldable pub add_row : A → List (Group K A) → List (Group K A)
  add_row x [] = record { key = key x; rows = x ∷ [] } ∷ []
  add_row x (g ∷ gs) =
      let rest = add_row x gs in
      if same g.key (key x) then record g { rows = x ∷ g.rows } ∷ gs else g ∷ rest

  unfoldable pub groups : List A → List (Group K A)
  unfolding add_row
  groups [] = []
  groups (x ∷ xs) = add_row x (groups xs)

abbrev pub amount_of : Payment → ℤ
amount_of p = p.amount_cfa

abbrev pub fee_of : Payment → ℤ
fee_of p = p.fee_cfa

-- COALESCE(net_cfa, amount_cfa - fee_cfa)
abbrev pub net_or : Option ℤ → ℤ → ℤ → ℤ
net_or none amount fee = amount -ℤ fee
net_or (some net) amount fee = net

abbrev pub net_of : Payment → ℤ
net_of p = net_or p.net_cfa p.amount_cfa p.fee_cfa

abbrev pub is_completed : Payment → Bool
is_completed p = p.status == completed

abbrev pub is_failed : Payment → Bool
is_failed p = p.status == failed

abbrev pub has_ended : Payment → Bool
has_ended p = p.status == completed || p.status == failed

unfoldable pub totals_of : List Payment → Totals
unfolding sum
totals_of ps =
    let done = count_where is_completed ps in
    let lost = count_where is_failed ps in
    record {
      count = length ps;
      amount_cfa = sum amount_of ps;
      fee_cfa = sum fee_of ps;
      net_cfa = sum net_of ps;
      completed = done;
      failed = lost;
      success_rate = record { completed = done; ended = done + lost };
    }

abbrev pub type_figures : Group String Payment → ByType
type_figures g = record {
  kind = g.key;
  count = length g.rows;
  amount_cfa = sum amount_of g.rows;
  fee_cfa = sum fee_of g.rows;
}

unfoldable pub types_of : List Payment → List ByType
unfolding groups
types_of ps = map type_figures (groups ◌==◌ (λ (p : Payment). p.kind) ps)

-- GROUP BY p.app_id, a.name
abbrev pub same_app : String × String → String × String → Bool
same_app a b = a.0 == b.0 && a.1 == b.1

abbrev pub app_key : PaymentWithApp → String × String
app_key pw = (pw.payment.app_id, pw.app_name)

abbrev pub app_figures : Group (String × String) PaymentWithApp → ByApp
app_figures g = record {
  app_id = g.key.0;
  app_name = g.key.1;
  count = length g.rows;
  amount_cfa = sum (λ pw. amount_of pw.payment) g.rows;
  fee_cfa = sum (λ pw. fee_of pw.payment) g.rows;
  success_rate = record {
    completed = count_where (λ pw. is_completed pw.payment) g.rows;
    ended = count_where (λ pw. has_ended pw.payment) g.rows;
  };
}

unfoldable pub apps_of : List PaymentWithApp → List ByApp
unfolding groups
apps_of ps = map app_figures (groups same_app app_key ps)

abbrev pub operator_figures : Group String Payment → ByOperator
operator_figures g = record {
  operator = g.key;
  count = length g.rows;
  amount_cfa = sum amount_of g.rows;
}

-- The rows that are read have an operator.
unfoldable pub operators_of : List Payment → List ByOperator
unfolding groups
operators_of ps =
    map operator_figures (groups ◌==◌ (λ (p : Payment). deref p.recipient_operator) ps)
