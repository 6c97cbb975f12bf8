-- ===== src/Stats/Sums.antt =====
-- Sums over rows: grouped, rearranged, and taken of several columns.
use mathlib.Core.List.{Permᴰ}
use abmcy_core_payment.Base.{
  Bool, true, false, List, [], ◌∷◌, ◌≡◌, refl, arith, All, map, length, if◌then◌else◌,
}
use abmcy_core_payment.Int64.{ℤ, pos, ◌+ℤ◌}
use abmcy_core_payment.Int64.Sums.{+ℤ_zero, +ℤ_assoc, +ℤ_left_comm, +ℤ_swap}
use abmcy_core_payment.Stats.{sum, Group, add_row, groups}

module _ {A : Type 0} where
  -- The number of the rows as a sum.
  abbrev pub one : A → ℤ
  one x = pos 1

  pub sum-one : (xs : List A) → sum one xs ≡ pos (length xs)
  unfolding sum ◌+ℤ◌
  sum-one [] = refl
  sum-one (x ∷ xs) = let rest = sum-one xs in rw rest (ground arith)

  pub sum-map :
      {B : Type 0} (f : B → ℤ) (g : A → B) (xs : List A) → sum f (map g xs) ≡ sum (λ x. f (g x)) xs
  unfolding sum
  sum-map f g [] = refl
  sum-map f g (x ∷ xs) = rw (sum-map f g xs)

  pub sum-perm : (f : A → ℤ) {xs ys : List A} → Permᴰ xs ys → sum f xs ≡ sum f ys
  unfolding sum
  sum-perm f Permᴰ.nil = refl
  sum-perm f (Permᴰ.cons same rest) = rw (same, sum-perm f rest)
  sum-perm f (Permᴰ.swap {a = a} {b = b} {l = l} first second) =
      rw (first, second) (+ℤ_left_comm _ _ (sum f l))
  sum-perm f (Permᴰ.trans p q) = rw (sum-perm f p) (sum-perm f q)

  -- What is equal in each row is equal in the sum.
  pub sum_same : (f g : A → ℤ) (xs : List A) → All (λ x. f x ≡ g x) xs → sum f xs ≡ sum g xs
  unfolding sum
  sum_same f g [] h = refl
  sum_same f g (x ∷ xs) (p, h) = rw (p, sum_same f g xs h)

  pub sum-add : (f g : A → ℤ) (xs : List A) → sum (λ x. f x +ℤ g x) xs ≡ sum f xs +ℤ sum g xs
  unfolding sum
  sum-add f g [] = let z = +ℤ_zero (pos 0) in ground arith
  sum-add f g (x ∷ xs) = rw (sum-add f g xs) (+ℤ_swap (f x) (g x) (sum f xs) (sum g xs))

module _ {K A : Type 0} (same : K → K → Bool) (key : A → K) (f : A → ℤ) where
  abbrev of_group : Group K A → ℤ
  of_group g = sum f g.rows

  sum-add_row :
      (x : A) (gs : List (Group K A))
      → sum of_group (add_row same key x gs) ≡ f x +ℤ sum of_group gs
  unfolding sum add_row
  sum-add_row x [] = +ℤ_zero (f x +ℤ pos 0)
  sum-add_row x (g ∷ gs) = by_key (sum-add_row x gs) (same g.key (key x))
    where
      by_key :
          sum of_group (add_row same key x gs) ≡ f x +ℤ sum of_group gs
          → (b : Bool)
          → sum of_group
              (if b then record g { rows = x ∷ g.rows } ∷ gs else g ∷ add_row same key x gs)
            ≡ f x +ℤ (sum f g.rows +ℤ sum of_group gs)
      by_key ih true = +ℤ_assoc (f x) (sum f g.rows) (sum of_group gs)
      by_key ih false = rw ih (+ℤ_left_comm (sum f g.rows) (f x) (sum of_group gs))

  -- The groups lose no row and take none twice.
  pub sum-groups : (xs : List A) → sum of_group (groups same key xs) ≡ sum f xs
  unfolding sum groups
  sum-groups [] = refl
  sum-groups (x ∷ xs) = rw (sum-add_row x (groups same key xs), sum-groups xs)
