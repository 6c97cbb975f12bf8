-- ===== src/Orders/Sort.antt =====
-- A sort by a test of two rows, for `sort.Strings` and for a database that arranges its rows.
use mathlib.Core.List.{Permᴰ}
use mathlib.Core.List.Permᴰ
use abmcy_core_payment.Base.{
  Bool, true, false, List, [], ◌∷◌, ◌≡◌, refl, arith, All-map, if◌then◌else◌,
}
use abmcy_core_payment.Int64.{ℤ, ◌≤ℤ◌, leb_ℤ}
use abmcy_core_payment.Orders.{Descends, IsOrderedBy, All-rearranged}

module _ {A : Type 0} (before : A → A → Bool) where
  unfoldable pub insert_by : A → List A → List A
  insert_by x [] = x ∷ []
  insert_by x (y ∷ ys) = let rest = insert_by x ys in if before x y then x ∷ y ∷ ys else y ∷ rest

  unfoldable pub sort_by : List A → List A
  unfolding insert_by
  sort_by [] = []
  sort_by (x ∷ xs) = insert_by x (sort_by xs)

  insert_by-perm : (x : A) (ys : List A) → Permᴰ (insert_by x ys) (x ∷ ys)
  unfolding insert_by
  insert_by-perm x [] = Permᴰ.refl (x ∷ [])
  insert_by-perm x (y ∷ ys) = by_test (insert_by-perm x ys) (before x y)
    where
      by_test :
          Permᴰ (insert_by x ys) (x ∷ ys)
          → (b : Bool) → Permᴰ (if b then x ∷ y ∷ ys else y ∷ insert_by x ys) (x ∷ y ∷ ys)
      by_test ih true = Permᴰ.refl (x ∷ y ∷ ys)
      by_test ih false = Permᴰ.trans (Permᴰ.cons refl ih) (Permᴰ.swap refl refl)

  pub sort_by-perm : (xs : List A) → Permᴰ (sort_by xs) xs
  unfolding sort_by
  sort_by-perm [] = Permᴰ.nil
  sort_by-perm (x ∷ xs) =
      Permᴰ.trans (insert_by-perm x (sort_by xs)) (Permᴰ.cons refl (sort_by-perm xs))

module _ {A : Type 0} (key : A → ℤ) where
  -- ORDER BY key DESC
  abbrev pub before_by : A → A → Bool
  before_by x y = leb_ℤ (key y) (key x)

  trans_ℤ : (a b c : ℤ) → a ≤ℤ b → b ≤ℤ c → a ≤ℤ c
  trans_ℤ a b c h k = omega arith

  leb_ℤ-false : (a b : ℤ) → leb_ℤ a b ≡ false → b ≤ℤ a
  leb_ℤ-false a b h = ground arith

  leb_ℤ-true : (a b : ℤ) → leb_ℤ a b ≡ true → a ≤ℤ b
  leb_ℤ-true a b h = ground arith

  insert_by-Descends :
      (x : A) (ys : List A) → Descends key ys → Descends key (insert_by before_by x ys)
  unfolding insert_by
  insert_by-Descends x [] h = (tt, tt)
  insert_by-Descends x (y ∷ ys) (below, h) =
      by_test (insert_by-Descends x ys h) (before_by x y) refl
    where
      by_test :
          Descends key (insert_by before_by x ys)
          → (b : Bool) → before_by x y ≡ b
          → Descends key (if b then x ∷ y ∷ ys else y ∷ insert_by before_by x ys)
      by_test ih true eq =
          let least = leb_ℤ-true (key y) (key x) eq in
          let all =
            All-map (λ z. key z ≤ℤ key y) (λ z. key z ≤ℤ key x)
              (λ z q. trans_ℤ (key z) (key y) (key x) q least) ys below in
          ((least, all), (below, h))
      by_test ih false eq = (
        All-rearranged (λ z. key z ≤ℤ key y) (insert_by-perm before_by x ys)
            (leb_ℤ-false (key y) (key x) eq, below),
        ih,
      )

  sort_by-Descends : (xs : List A) → Descends key (sort_by before_by xs)
  unfolding sort_by
  sort_by-Descends [] = tt
  sort_by-Descends (x ∷ xs) = insert_by-Descends x (sort_by before_by xs) (sort_by-Descends xs)

  pub sort_by-IsOrderedBy : IsOrderedBy key (sort_by before_by)
  sort_by-IsOrderedBy = record { rearranges = sort_by-perm before_by; descends = sort_by-Descends }
