-- ===== src/Base/Lists.antt =====
-- Predicates over all items, and the rows of a table.
use Prim.Native.Nat.{ℕ, zero, suc, ◌+◌, ◌≤◌}
use mathlib.Core.Path.{◌≡◌, refl, subst}
use mathlib.Core.Bool.{Bool, true, false, ◌||◌}
use mathlib.Core.Option.{Option, none, some}
use mathlib.Core.List.{List, [], ◌∷◌, ◌++◌, map}
use native.Mathlib.Omega.{arith}
use native.Mathlib.Numerals.{unary_clauses}
use abmcy_core_payment.Base.Tests.{if◌then◌else◌}

module _ {ℓ} {A : Type ℓ} where
  abbrev pub length : List A → ℕ
  length [] = 0
  length (x ∷ xs) = suc (length xs)

  pub length-append : (xs ys : List A) → length (xs ++ ys) ≡ length xs + length ys
  length-append [] ys = omega arith
  length-append (x ∷ xs) ys = omega (arith, length-append xs ys)

module _ {ℓ κ} {A : Type ℓ} (P : A → Type κ) where
  abbrev pub All : List A → Type κ
  All [] = Unit
  All (x ∷ xs) = P x × All xs

  pub All-append : (xs ys : List A) → All xs → All ys → All (xs ++ ys)
  All-append [] ys _ hy = hy
  All-append (x ∷ xs) ys (px, hx) hy = (px, All-append xs ys hx hy)

-- A table is the list of its rows. A statement selects rows by a test.
module _ {ℓ} {A : Type ℓ} where
  unfoldable pub any : (A → Bool) → List A → Bool
  any t [] = false
  any t (x ∷ xs) = t x || any t xs

  unfoldable pub find : (A → Bool) → List A → Option A
  find t [] = none
  find t (x ∷ xs) = if t x then some x else find t xs

  -- UPDATE … WHERE: every row that passes the test is changed.
  unfoldable pub update : (A → Bool) → (A → A) → List A → List A
  update t f [] = []
  update t f (x ∷ xs) = (if t x then f x else x) ∷ update t f xs

  unfoldable pub filter : (A → Bool) → List A → List A
  filter t [] = []
  filter t (x ∷ xs) = if t x then x ∷ filter t xs else filter t xs

module _ {ℓ} {A : Type ℓ} where
  abbrev pub take : ℕ → List A → List A
  take zero xs = []
  take (suc n) [] = []
  take (suc n) (x ∷ xs) = x ∷ take n xs

  abbrev pub drop : ℕ → List A → List A
  drop zero xs = xs
  drop (suc n) [] = []
  drop (suc n) (x ∷ xs) = drop n xs

  abbrev pub replicate : ℕ → A → List A
  replicate zero a = []
  replicate (suc n) a = a ∷ replicate n a

-- `x` stands in the list.
pub data In {ℓ} {A : Type ℓ} (x : A) : List A → Type ℓ where
  here : {xs : List A} → In x (x ∷ xs)
  there : {y : A} {xs : List A} → In x xs → In x (y ∷ xs)

module _ {ℓ κ} {A : Type ℓ} where
  pub All-In : (P : A → Type κ) {x : A} {xs : List A} → In x xs → All P xs → P x
  All-In P here (p, _) = p
  All-In P (there m) (_, h) = All-In P m h

  pub All-map : (P Q : A → Type κ) → ((x : A) → P x → Q x) → (xs : List A) → All P xs → All Q xs
  All-map P Q f [] h = tt
  All-map P Q f (x ∷ xs) (p, h) = (f x p, All-map P Q f xs h)

  pub All-update :
      (P Q : A → Type κ) (t : A → Bool) (f : A → A)
      → ((x : A) → P x → Q x)
      → ((x : A) → t x ≡ true → P x → Q (f x))
      → (xs : List A) → All P xs
      → All Q (update t f xs)
  unfolding update
  All-update P Q t f same changed [] h = tt
  All-update P Q t f same changed (x ∷ xs) (p, h) =
      (if_changed (t x) refl, All-update P Q t f same changed xs h)
    where
      if_changed : (b : Bool) → t x ≡ b → Q (if b then f x else x)
      if_changed true e = changed x e p
      if_changed false e = same x p

module _ {ℓ} {A : Type ℓ} where
  pub find-In : (t : A → Bool) (xs : List A) {x : A} → find t xs ≡ some x → In x xs × (t x ≡ true)
  unfolding find
  find-In t [] h = cc
  find-In t (y ∷ xs) {x} h = split (find-In t xs {x = x}) (t y) refl h
    where
      split :
          (find t xs ≡ some x → In x xs × (t x ≡ true))
          → (b : Bool) → t y ≡ b
          → (if b then some y else find t xs) ≡ some x
          → In x (y ∷ xs) × (t x ≡ true)
      split ih true e h =
          let same : y ≡ x = cc in subst (λ z. In z (y ∷ xs) × (t z ≡ true)) same (here, e)
      split ih false e h = let (m, p) = ih h in (there m, p)

  -- A test that no row passes.
  pub any-false : (t : A → Bool) (xs : List A) → any t xs ≡ false → All (λ x. t x ≡ false) xs
  unfolding any
  any-false t [] h = tt
  any-false t (x ∷ xs) h = (ground arith, any-false t xs (ground arith))

module _ {ℓ κ} {A : Type ℓ} {B : Type κ} where
  -- A view of the rows that no change touches is the same after an UPDATE.
  pub map-update :
      (g : A → B) (t : A → Bool) (f : A → A)
      → ((x : A) → g (f x) ≡ g x)
      → (xs : List A) → map g (update t f xs) ≡ map g xs
  unfolding update
  map-update g t f same [] = refl
  map-update g t f same (x ∷ xs) =
      let h = same x in let rest = map-update g t f same xs in ground arith

module _ {ℓ} {A : Type ℓ} where
  pub take-append : (m n : ℕ) (xs : List A) → take m xs ++ take n (drop m xs) ≡ take (m + n) xs
  take-append zero n xs = let same : 0 + n ≡ n = omega arith in rw same
  take-append (suc m) zero [] = simp unary_clauses
  take-append (suc m) (suc n) [] = simp unary_clauses
  take-append (suc m) n (x ∷ xs) =
      let next : suc m + n ≡ suc (m + n) = omega arith in rw (next, take-append m n xs)

  pub drop-drop : (m n : ℕ) (xs : List A) → drop n (drop m xs) ≡ drop (m + n) xs
  drop-drop zero n xs = let same : 0 + n ≡ n = omega arith in rw same
  drop-drop (suc m) zero [] = simp unary_clauses
  drop-drop (suc m) (suc n) [] = simp unary_clauses
  drop-drop (suc m) n (x ∷ xs) =
      let next : suc m + n ≡ suc (m + n) = omega arith in rw (next, drop-drop m n xs)

  pub take_all : (n : ℕ) (xs : List A) → length xs ≤ n → take n xs ≡ xs
  take_all zero [] h = refl
  take_all (suc n) [] h = refl
  take_all zero (x ∷ xs) h = absurd (omega arith)
  take_all (suc n) (x ∷ xs) h = let rest = take_all n xs (omega arith) in ground arith

  pub length-take : (n : ℕ) (xs : List A) → length (take n xs) ≤ n
  length-take zero xs = omega arith
  length-take (suc n) [] = omega arith
  length-take (suc n) (x ∷ xs) = omega (arith, length-take n xs)

module _ {ℓ κ} {A : Type ℓ} (P : A → Type κ) where
  pub All-take : (n : ℕ) (xs : List A) → All P xs → All P (take n xs)
  All-take zero xs h = tt
  All-take (suc n) [] h = tt
  All-take (suc n) (x ∷ xs) (p, h) = (p, All-take n xs h)

  pub All-drop : (n : ℕ) (xs : List A) → All P xs → All P (drop n xs)
  All-drop zero xs h = h
  All-drop (suc n) [] h = tt
  All-drop (suc n) (x ∷ xs) (p, h) = All-drop n xs h

  -- A filter keeps what holds of a row, and its test holds of each row that it keeps.
  pub All-filter :
      (Q : A → Type κ) (t : A → Bool)
      → ((x : A) → t x ≡ true → P x → Q x)
      → (xs : List A) → All P xs
      → All Q (filter t xs)
  unfolding filter
  All-filter Q t f [] h = tt
  All-filter Q t f (x ∷ xs) (p, h) = by_test (All-filter Q t f xs h) (t x) refl
    where
      by_test :
          All Q (filter t xs)
          → (b : Bool) → t x ≡ b
          → All Q (if b then x ∷ filter t xs else filter t xs)
      by_test rest true eq = (f x eq p, rest)
      by_test rest false eq = rest
