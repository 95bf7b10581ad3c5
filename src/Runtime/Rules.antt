-- ===== src/Runtime/Rules.antt =====
-- Invariants of the guard and the orders, and what a tick needs to keep one.
pub mod Exits
pub mod Entries
pub mod Ticks
use cryptobot_v.Prelude.{ℕ, List, ◌∷◌}
use cryptobot_v.Prelude.Text.{Text}
use cryptobot_v.Prelude.Keeps.{Rule}
use cryptobot_v.Number.{Num}
use cryptobot_v.Execution.Gates.{ProcessedCandleGuard}
use cryptobot_v.Strategy.Position.{StrategyPosition}
use cryptobot_v.Runtime.Ports.{Ports}
use cryptobot_v.Runtime.Orchestrator.{Order, sold, Runtime, WithPosition}
use cryptobot_v.Runtime.Service.{Service}

-- Of the runtime's guard and the orders, which a sell does not disturb, and of the guard that the service
-- keeps for its gates, which nothing touches.
pub record Invariant (D : Type 0) : Type 1 where
  pub Good : ProcessedCandleGuard → List (Order D) → Type 0
  pub Left : ProcessedCandleGuard → List (Order D) → Type 0
  pub weaken : (g : ProcessedCandleGuard) (os : List (Order D)) → Good g os → Left g os
  pub selling :
      (g : ProcessedCandleGuard) (os : List (Order D)) (s : Text) (qty : D)
      → Good g os
      → Good g (sold s qty ∷ os)
  pub Own : ProcessedCandleGuard → Type 0

module _ {D : Type 0} (inv : Invariant D) where
  abbrev pub on_runtimes : {W : Type 0} → Rule (Runtime D W)
  on_runtimes = record {
    Good = λ r. inv.Good r.guard r.orders;
    Left = λ r. inv.Left r.guard r.orders;
    weaken = λ r. inv.weaken r.guard r.orders;
  }

  abbrev pub on_positions :
      {F W : Type 0} ⦃f : Num F⦄ ⦃d : Num D⦄ (ports : Ports F D W) → Rule (WithPosition ports)
  on_positions ports = record {
    Good = λ s. inv.Good s.0.guard s.0.orders;
    Left = λ s. inv.Left s.0.guard s.0.orders;
    weaken = λ s. inv.weaken s.0.guard s.0.orders;
  }

  abbrev pub on_services : {F W : Type 0} → Rule (Service F D W)
  on_services = record {
    Good = λ s. inv.Good s.runtime.guard s.runtime.orders × inv.Own s.guard;
    Left = λ s. inv.Left s.runtime.guard s.runtime.orders × inv.Own s.guard;
    weaken = λ s (c, own). (inv.weaken s.runtime.guard s.runtime.orders c, own);
  }
