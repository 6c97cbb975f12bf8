-- ===== src/World/Preserves.antt =====
-- Actions that leave a view of the world as it is.
use abmcy_core_payment.Base.{ℕ, ◌≡◌, refl, ◌∙◌}
use abmcy_core_payment.World.{
  World, Env, Fault, fine, refused, reply_lost, Result, M, pure, ◌>>=◌, advance, statement,
  run_statement,
}

module _ {B : Type 0} (view : World → B) where
  pub record Preserves {A : Type 0} (m : M A) : Type 0 where
    pub same : (w : World) → view (m w).1 ≡ view w

  -- The view does not show the counter of the effects.
  pub record IsTimeless : Type 0 where
    pub same : (w : World) (tick : ℕ) → view (record w { tick = tick }) ≡ view w

module _ {B : Type 0} {view : World → B} {A : Type 0} where
  pub Preserves-pure : (a : A) → Preserves view (pure a)
  Preserves-pure a = record { same = λ w. refl }

  pub Preserves-bind :
      {C : Type 0} (m : M A) (f : A → M C)
      → Preserves view m
      → ((a : A) → Preserves view (f a))
      → Preserves view (m >>= f)
  Preserves-bind m f p q = record { same = λ w. let (a, w') = m w in (q a).same w' ∙ p.same w }

  pub Preserves-statement :
      IsTimeless view
      → (e : Env) (make : World → M (Result A)) → ((w : World) → Preserves view (make w))
      → Preserves view (λ w. statement e (make w) w)
  unfolding statement
  Preserves-statement timeless e make p = record { same = λ w. by_fault w (e.fault w.tick) }
    where
      ticked : (w : World) → view (advance w) ≡ view w
      ticked w = timeless.same w (advance w).tick

      by_fault : (w : World) (f : Fault) → view (run_statement e f (make w) w).1 ≡ view w
      by_fault w fine = (p w).same (advance w) ∙ ticked w
      by_fault w (refused s) = ticked w
      by_fault w (reply_lost s) = (p w).same (advance w) ∙ ticked w
