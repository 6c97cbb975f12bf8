-- ===== src/World/Keeps.antt =====
-- Hoare triples for actions, on what they do to the table `payments`.
use abmcy_core_payment.Base.{Bool, true, false, ◌≡◌, refl, List, if◌then◌else◌}
use abmcy_core_payment.Model.{Payment}
use abmcy_core_payment.World.{
  World, Env, Fault, fine, refused, reply_lost, Result, ok, err, M, pure, ◌>>=◌, advance, statement,
  run_statement,
}

abbrev pub Assertion : Type 1
Assertion = List Payment → Type 0

-- From a world whose payments satisfy `P`, the action ends where `Q` holds of them and its result.
pub record Triple {A : Type 0} (P : Assertion) (m : M A) (Q : List Payment → A → Type 0)
    : Type 0 where
  pub at : (w : World) → P w.payments → Q (m w).1.payments (m w).0

-- What holds after a fallible action: `L`, and `S` of a result that it gave.
abbrev pub Ends :
    {A : Type 0} → Assertion → (List Payment → A → Type 0) → List Payment → Result A → Type 0
Ends L S ps (ok a) = L ps × S ps a
Ends L S ps (err x) = L ps

-- An action that keeps `L`, whatever its result.
abbrev pub Keeps : {A : Type 0} → Assertion → M A → Type 0
Keeps L m = Triple L m (λ ps _. L ps)

module _ {A : Type 0} {P : Assertion} where
  pub Triple-pure :
      {Q : List Payment → A → Type 0} (a : A)
      → ((ps : List Payment) → P ps → Q ps a)
      → Triple P (pure a) Q
  Triple-pure a f = record { at = λ w h. f w.payments h }

  pub Triple-if :
      {Q : List Payment → A → Type 0} (b : Bool) {m n : M A}
      → (b ≡ true → Triple P m Q)
      → (b ≡ false → Triple P n Q)
      → Triple P (if b then m else n) Q
  Triple-if true f g = f refl
  Triple-if false f g = g refl

  -- A stronger precondition and a weaker postcondition.
  pub Triple-weaken :
      {P' : Assertion} {Q Q' : List Payment → A → Type 0} {m : M A}
      → ((ps : List Payment) → P' ps → P ps)
      → ((ps : List Payment) (a : A) → Q ps a → Q' ps a)
      → Triple P m Q
      → Triple P' m Q'
  Triple-weaken f g t = record { at = λ w h. g _ _ (t.at w (f _ h)) }

  pub Triple-bind :
      {B : Type 0} {Q : List Payment → A → Type 0} {R : List Payment → B → Type 0} (m : M A)
      (f : A → M B)
      → Triple P m Q
      → ((a : A) → Triple (λ ps. Q ps a) (f a) R)
      → Triple P (m >>= f) R
  Triple-bind m f t u = record { at = λ w h. let (a, w') = m w in (u a).at w' (t.at w h) }

-- A fact that the precondition has.
pub Triple-assume :
    {A : Type 0} {P : Assertion} {F : Type 0} {Q : List Payment → A → Type 0} {m : M A}
    → ((ps : List Payment) → P ps → F)
    → (F → Triple P m Q)
    → Triple P m Q
Triple-assume f t = record { at = λ w h. (t (f w.payments h)).at w h }

-- An action that does not write the table.
pub record Reads {A : Type 0} (m : M A) : Type 0 where
  pub same : (w : World) → (m w).1.payments ≡ w.payments

pub Reads-Triple : {A : Type 0} {m : M A} (P : Assertion) → Reads m → Triple P m (λ ps _. P ps)
Reads-Triple P r = record { at = λ w h. rw (r.same w) h }

-- After a read, go on from what held before it.
pub Triple-after :
    {A B : Type 0} {P : Assertion} {R : List Payment → B → Type 0} {m : M A} {f : A → M B}
    → Reads m
    → ((a : A) → Triple P (f a) R)
    → Triple P (m >>= f) R
Triple-after {P} {m} {f} r t = Triple-bind m f (Reads-Triple P r) t

-- A statement that may be made from the world that it starts in.
pub Reads-made :
    (e : Env) {A : Type 0} (make : World → M (Result A))
    → ((w : World) → Reads (make w))
    → Reads (λ w. statement e (make w) w)
unfolding statement
Reads-made e make r = record { same = λ w. by_fault w (e.fault w.tick) }
  where
    by_fault : (w : World) (f : Fault) → (run_statement e f (make w) w).1.payments ≡ w.payments
    by_fault w fine = (r w).same (advance w)
    by_fault w (refused s) = refl
    by_fault w (reply_lost s) = (r w).same (advance w)

pub Reads-statement : (e : Env) {A : Type 0} (m : M (Result A)) → Reads m → Reads (statement e m)
Reads-statement e m r = Reads-made e (λ _. m) (λ _. r)

-- What is kept in any case.
pub kept :
    {A : Type 0} (L : Assertion) (S : List Payment → A → Type 0) (ps : List Payment) (r : Result A)
    → Ends L S ps r
    → L ps
kept L S ps (ok a) (l, _) = l
kept L S ps (err x) l = l

-- A statement that fails before or after it ran keeps what the statement keeps.
module _ (e : Env) {A : Type 0} {P L : Assertion} {S : List Payment → A → Type 0}
    (keeps : (ps : List Payment) → P ps → L ps) where
  by_fault_kept :
      (m : M (Result A))
      → Triple P m (Ends L S)
      → (w : World) → P w.payments
      → (f : Fault) → Ends L S (run_statement e f m w).1.payments (run_statement e f m w).0
  by_fault_kept m t w h fine = t.at (advance w) h
  by_fault_kept m t w h (refused s) = keeps _ h
  by_fault_kept m t w h (reply_lost s) = kept L S _ _ (t.at (advance w) h)

  -- The statement may be made from the world that it starts in.
  pub Triple-statement :
      (make : World → M (Result A))
      → ((w : World) → Triple P (make w) (Ends L S))
      → Triple P (λ w. statement e (make w) w) (Ends L S)
  unfolding statement
  Triple-statement make t = record { at = λ w h. by_fault_kept (make w) (t w) w h (e.fault w.tick) }

pub Ends-Keeps :
    {A : Type 0} {P L : Assertion} {S : List Payment → A → Type 0} {m : M (Result A)}
    → Triple P m (Ends L S)
    → Triple P m (λ ps _. L ps)
Ends-Keeps {L} {S} t = Triple-weaken (λ ps h. h) (kept L S) t

-- After an action whose result only says that it failed, go on from what it keeps.
pub Keeps-bind :
    {A B : Type 0} {P L : Assertion} {R : List Payment → B → Type 0} {S : List Payment → A → Type 0}
    {m : M (Result A)} {f : Result A → M B}
    → Triple P m (Ends L S)
    → ((r : Result A) → Triple L (f r) R)
    → Triple P (m >>= f) R
Keeps-bind {m} {f} t u = Triple-bind m f (Ends-Keeps t) u

pub Keeps-pure : {A : Type 0} {L : Assertion} (a : A) → Keeps L (pure a)
Keeps-pure a = record { at = λ w h. h }
