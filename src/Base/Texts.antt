-- ===== src/Base/Texts.antt =====
-- Texts are native strings; a test of two texts is the decision of their equality, so that a
-- split on the test gives the equation.
use Prim.Native.Nat.{ℕ}
use Prim.Native.Char.{code}
use Prim.Native.String.{String}
use mathlib.Core.Path.{◌≡◌, refl}
use mathlib.Core.Logic.{◌↔◌, ◌≢◌}
use mathlib.Core.Bool.{Bool, true, false, false≢true}
use mathlib.Core.Option.{Option, none, some}
use mathlib.Core.List.{List, [], ◌∷◌}
use native.Mathlib.Omega.{arith}
use text.Mathlib.Text.{◌==◌ as str_eq}
use text.Mathlib.TextEquality.{eq_iff}

abbrev pub dec_of {ℓ} : {P : Type ℓ} (b : Bool) → (b ≡ true) ↔ P → Dec P
dec_of true h = yes (h.0 refl)
dec_of false h = no (λ p. false≢true (h.1 p))

unfoldable pub String-discrete : Discrete String
String-discrete s t = dec_of (str_eq s t) (eq_iff s t)

infix 50 ◌==◌
-- Go's `==` on strings.
abbrev pub ◌==◌ : String → String → Bool
s == t = elim (String-discrete s t) [ yes _ ↦ true | no _ ↦ false ]

pub ==-self : (s : String) → (s == s) ≡ true
==-self s = ground arith

pub not_empty : (v : String) → (v == "") ≡ false → v ≢ ""
not_empty v h = ground arith

pub is_not_empty : (v : String) → v ≢ "" → (v == "") ≡ false
is_not_empty v h = ground arith

-- Go's `*string` with nil as `none`: the pointed-to text, or "".
abbrev pub deref : Option String → String
deref none = ""
deref (some s) = s

-- The idiom `if s != "" { p = &s }`.
abbrev pub non_empty : String → Option String
non_empty s = if_empty s (s == "")
  where
    if_empty : String → Bool → Option String
    if_empty s true = none
    if_empty s false = some s

-- The code points of a text: its bytes, if it is ASCII.
abbrev pub codes : String → List ℕ
codes String.[] = []
codes (String.◌∷◌ c s) = code c ∷ codes s
