-- ===== src/Runtime/Unmarked.antt =====
-- The guard that the gates of a service read.
use cryptobot_v.Prelude.{◌≡◌, not, List, is_empty}
use cryptobot_v.Prelude.Text.{Text}
use cryptobot_v.Prelude.Result.{Result}
use cryptobot_v.Prelude.Exec.{Exec}
use cryptobot_v.Prelude.Keeps.{Keeps}
use cryptobot_v.Number.{Num}
use cryptobot_v.Market.Candle.{Candle}
use cryptobot_v.Execution.Gates.{OperationalGates, empty_guard}
use cryptobot_v.Runtime.Ports.{Ports}
use cryptobot_v.Runtime.Orchestrator.{Runtime}
use cryptobot_v.Runtime.Rules.{Invariant}
use cryptobot_v.Runtime.Service.{Service, ServiceConfig, SizingPolicy}

module _ {D : Type 0} where
  -- Nothing is said of the runtime; the service's guard has seen nothing.
  abbrev unmarked : Invariant D
  unmarked = record {
    Good = λ g orders. Unit {0};
    Left = λ g orders. Unit {0};
    weaken = λ g orders c. tt;
    selling = λ g orders s qty c. tt;
    Own = λ g. g ≡ empty_guard;
  }

module _ {F D W : Type 0} ⦃f : Num F⦄ ⦃d : Num D⦄ (ports : Ports F D W) (config : ServiceConfig F D)
    (sizing : SizingPolicy F D) where
  -- The gate of the idempotency guard.
  abbrev OpenOn : List (Candle F) → OperationalGates → Type 0
  OpenOn cs gates = gates.not_already_processed ≡ not (is_empty cs)
