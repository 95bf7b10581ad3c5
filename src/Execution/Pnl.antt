-- ===== src/Execution/Pnl.antt =====
-- src/cryptobot/execution/pnl.py
use cryptobot_v.Prelude.{Bool}
use cryptobot_v.Prelude.Result.{Result, ok, value_error, raise_if, ◌>>=◌, ◌>>◌}
use cryptobot_v.Number.{Num, ◌⊖◌, ◌⊗◌, ◌≺◌, ◌≼◌, nought}
use cryptobot_v.Execution.Orderbook.{OrderBook, estimate_sell_proceeds}
use cryptobot_v.Strategy.Position.{StrategyPosition, invested_quote_cost}

pub record ExitCostModel (D : Type 0) : Type 0 where
  pub exit_fee_rate : D
  pub safety_buffer_frac : D

pub record PnLEstimate (D : Type 0) : Type 0 where
  pub gross_proceeds : D
  pub filled_qty : D
  pub fully_filled : Bool
  pub exit_fees : D
  pub safety_buffer : D
  pub invested_quote_cost : D
  pub net_pnl : D

module _ {D : Type 0} ⦃d : Num D⦄ where
  -- `ExitCostModel(…)`: the dataclass constructor with its `__post_init__`
  unfoldable pub make_cost_model : ExitCostModel D → Result (ExitCostModel D)
  make_cost_model m = do
    raise_if (m.exit_fee_rate ≺ nought) value_error
    raise_if (m.safety_buffer_frac ≺ nought) value_error
    ok m

  unfoldable pub meets_target : PnLEstimate D → D → Bool
  meets_target e target_net_pnl = target_net_pnl ≼ e.net_pnl

module _ {F D : Type 0} ⦃d : Num D⦄ where
  unfoldable pub estimate_net_pnl :
      StrategyPosition F D → OrderBook D → ExitCostModel D → Result (PnLEstimate D)
  estimate_net_pnl position order_book cost_model = do
    sell ← estimate_sell_proceeds order_book position.entry.sellable_base_qty
    let exit_fees = sell.gross_proceeds ⊗ cost_model.exit_fee_rate
    let safety_buffer = sell.gross_proceeds ⊗ cost_model.safety_buffer_frac
    let invested = invested_quote_cost position.entry
    ok (record {
      gross_proceeds = sell.gross_proceeds;
      filled_qty = sell.filled_qty;
      fully_filled = sell.fully_filled;
      exit_fees = exit_fees;
      safety_buffer = safety_buffer;
      invested_quote_cost = invested;
      net_pnl = sell.gross_proceeds ⊖ exit_fees ⊖ safety_buffer ⊖ invested;
    })
