-- ===== src/Strategy/Position.antt =====
-- src/cryptobot/strategy/position.py. A method that changes the position is an action on it.
use cryptobot_v.Prelude.{ℕ, Bool, true, false, Option, none, some}
use cryptobot_v.Prelude.Text.{Text}
use cryptobot_v.Prelude.Result.{Result, ok, raised, value_error, raise_if, ◌>>◌}
use cryptobot_v.Prelude.Exec.{Exec}
use cryptobot_v.Number.{Num, ◌⊕◌, ◌≺◌, nought}
use cryptobot_v.Strategy.Parameters.{CoinStrategyParameters}

pub data PositionState : Type 0 where
  opened exit_armed closed : PositionState

pub record RealizedEntry (D : Type 0) : Type 0 where
  pub filled_base_qty : D
  pub avg_entry_price : D
  pub true_entry_cost : D
  pub entry_fees_quote : D
  pub sellable_base_qty : D

module _ {D : Type 0} ⦃d : Num D⦄ where
  -- `RealizedEntry(…)`: the dataclass constructor with its `__post_init__`
  unfoldable pub make_entry : RealizedEntry D → Result (RealizedEntry D)
  make_entry e = do
    raise_if (e.filled_base_qty ≺ nought) value_error
    raise_if (e.avg_entry_price ≺ nought) value_error
    raise_if (e.true_entry_cost ≺ nought) value_error
    raise_if (e.entry_fees_quote ≺ nought) value_error
    raise_if (e.sellable_base_qty ≺ nought) value_error
    raise_if (e.filled_base_qty ≺ e.sellable_base_qty) value_error
    ok e

  unfoldable pub invested_quote_cost : RealizedEntry D → D
  invested_quote_cost e = e.true_entry_cost ⊕ e.entry_fees_quote

pub record StrategyPosition (F D : Type 0) : Type 0 where
  pub symbol : Text
  pub snapshot : CoinStrategyParameters F D
  pub entry : RealizedEntry D
  pub entry_candle_open_time : ℕ
  pub state : PositionState
  pub exit_armed_candle_open_time : Option ℕ

module _ {F D : Type 0} where
  unfoldable pub is_exit_armed : StrategyPosition F D → Bool
  is_exit_armed p = elim p.state [ opened ↦ false | exit_armed ↦ true | closed ↦ false ]

  unfoldable pub arm_exit : ℕ → Exec (StrategyPosition F D) (Unit {0})
  arm_exit candle_open_time p = elim p.state [
    | opened ↦ (
      ok tt,
      record p { state = exit_armed; exit_armed_candle_open_time = some candle_open_time },
    )
    | exit_armed ↦ (ok tt, p)
    | closed ↦ (raised value_error, p)
  ]

  unfoldable pub mark_closed : Exec (StrategyPosition F D) (Unit {0})
  mark_closed p = (ok tt, record p { state = closed })

  unfoldable pub open_position :
      Text → CoinStrategyParameters F D → RealizedEntry D → ℕ → StrategyPosition F D
  open_position symbol params entry entry_candle_open_time = record {
    symbol = symbol;
    snapshot = params;
    entry = entry;
    entry_candle_open_time = entry_candle_open_time;
    state = opened;
    exit_armed_candle_open_time = none;
  }
