-- ===== src/Orders.antt =====
-- ORDER BY: the rows of a query come back rearranged, and with equal keys in any order.
pub mod Sort
use mathlib.Core.List.{Permᴰ}
use abmcy_core_payment.Base.{
  ℕ, zero, suc, List, [], ◌∷◌, ◌≡◌, refl, arith, All, All-take, length, take, drop,
}
use abmcy_core_payment.Int64.{ℤ, ◌≤ℤ◌}

module _ {A : Type 0} where
  -- No row stands before one with a greater key.
  abbrev pub Descends : (A → ℤ) → List A → Type 0
  Descends key [] = Unit
  Descends key (x ∷ xs) = All (λ y. key y ≤ℤ key x) xs × Descends key xs

  pub record IsRearranging (f : List A → List A) : Type 0 where
    pub rearranged : (xs : List A) → Permᴰ (f xs) xs

  -- ORDER BY key DESC
  pub record IsOrderedBy (key : A → ℤ) (f : List A → List A) : Type 0 where
    pub rearranges : (xs : List A) → Permᴰ (f xs) xs
    pub descends : (xs : List A) → Descends key (f xs)

  -- What holds of all rows holds of them rearranged.
  pub All-rearranged : (P : A → Type 0) {xs ys : List A} → Permᴰ xs ys → All P ys → All P xs
  All-rearranged P Permᴰ.nil h = tt
  All-rearranged P (Permᴰ.cons {b = b} same rest) (p, h) = (rw same p, All-rearranged P rest h)
  All-rearranged P (Permᴰ.swap first second) (p, (q, h)) = (rw first q, (rw second p, h))
  All-rearranged P (Permᴰ.trans one two) h = All-rearranged P one (All-rearranged P two h)

  pub length-rearranged : {xs ys : List A} → Permᴰ xs ys → length xs ≡ length ys
  length-rearranged Permᴰ.nil = refl
  length-rearranged (Permᴰ.cons same rest) = omega (arith, length-rearranged rest)
  length-rearranged (Permᴰ.swap first second) = refl
  length-rearranged (Permᴰ.trans one two) =
      omega (arith, length-rearranged one, length-rearranged two)

  module _ (key : A → ℤ) where
    pub Descends-take : (n : ℕ) (xs : List A) → Descends key xs → Descends key (take n xs)
    Descends-take zero xs h = tt
    Descends-take (suc n) [] h = tt
    Descends-take (suc n) (x ∷ xs) (p, h) =
        (All-take (λ y. key y ≤ℤ key x) n xs p, Descends-take n xs h)

    pub Descends-drop : (n : ℕ) (xs : List A) → Descends key xs → Descends key (drop n xs)
    Descends-drop zero xs h = h
    Descends-drop (suc n) [] h = tt
    Descends-drop (suc n) (x ∷ xs) (p, h) = Descends-drop n xs h
