-- ===== src/Ledger/Respond.antt =====
-- Answers write nothing.
use abmcy_core_payment.Base.{ℕ}
use abmcy_core_payment.World.Keeps.{Assertion, Keeps}
use abmcy_core_payment.Http.{Body, respond}

pub Keeps-respond : {L : Assertion} (status : ℕ) (body : Body) → Keeps L (respond status body)
Keeps-respond status body = record { at = λ w h. h }
