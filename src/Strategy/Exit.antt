-- ===== src/Strategy/Exit.antt =====
-- src/cryptobot/strategy/exit.py
pub mod Arming
use cryptobot_v.Prelude.{
  ℕ, ◌-◌, Bool, true, false, Option, none, some, List, [], ◌∷◌, ltb, if◌then◌else◌, length,
  get_elem?,
}
use cryptobot_v.Prelude.Result.{Result, ok, raised, index_error}
use cryptobot_v.Prelude.Exec.{Exec, pure, lift, get_state, ◌>>=◌, ◌>>◌}
use cryptobot_v.Number.{Num, ◌⊗◌, ◌⊘◌, ◌≺◌, ◌≼◌}
use cryptobot_v.Market.Candle.{Candle}
use cryptobot_v.Market.Validation.{validate_series}
use cryptobot_v.Execution.Orderbook.{OrderBook}
use cryptobot_v.Execution.Pnl.{ExitCostModel, PnLEstimate, estimate_net_pnl}
use cryptobot_v.Strategy.Indicators.{compute_indicators, entry}
use cryptobot_v.Strategy.Position.{
  PositionState, opened, exit_armed, closed, StrategyPosition, arm_exit, invested_quote_cost,
}

pub data ExitReason : Type 0 where
  not_armed : PositionState → ExitReason
  target_reached below_target withdrawal_reached withdrawal_below : ExitReason

pub record ExitDecision (D : Type 0) : Type 0 where
  pub sell : Bool
  pub reason : ExitReason
  pub target_net_pnl : Option D
  pub estimate : Option (PnLEstimate D)

module _ {D : Type 0} ⦃d : Num D⦄ where
  -- `Decimal("0.20")`
  abbrev pub withdrawal_min_net_profit_pct : D
  withdrawal_min_net_profit_pct = d.of_ℕ 20 ⊘ d.of_ℕ 100

  unfoldable pub target_net_pnl : D → D → D
  target_net_pnl invested_quote_cost pct = invested_quote_cost ⊗ pct ⊘ d.of_ℕ 100

module _ {F : Type 0} where
  -- `candles[t]`
  abbrev pub candle_at : List (Candle F) → ℕ → Result (Candle F)
  candle_at candles t = elim (get_elem? candles t) [ none ↦ raised index_error | some c ↦ ok c ]

module _ {F D : Type 0} ⦃f : Num F⦄ where
  -- The last test of `update_exit_arming`, on the RSI of the last candle: strict.
  unfoldable pub arm_if_overbought : F → ℕ → Exec (StrategyPosition F D) Bool
  arm_if_overbought rsi open_time = do
    position ← get_state
    elim (position.snapshot.rsi_overbought ≺ rsi) [
      | true ↦ (do arm_exit open_time; pure true)
      | false ↦ pure false
    ]

  -- The part of `update_exit_arming` behind the checks of the state and the series.
  unfoldable pub arm_at : List (Candle F) → Exec (StrategyPosition F D) Bool
  unfolding arm_if_overbought
  arm_at candles = do
    position ← get_state
    let t = length candles - 1
    series ← lift (compute_indicators candles position.snapshot)
    rsi_t ← lift (entry series.rsi t)
    elim rsi_t [
      | none ↦ pure false
      | some rsi ↦ (do c ← lift (candle_at candles t); arm_if_overbought rsi c.open_time)
    ]

  unfoldable pub update_exit_arming : List (Candle F) → Exec (StrategyPosition F D) Bool
  unfolding arm_at
  update_exit_arming candles = do
    position ← get_state
    elim position.state [
      | exit_armed ↦ pure true
      | closed ↦ pure false
      | opened ↦ elim (validate_series candles) [
        | _ ∷ _ ↦ pure false
        | [] ↦ elim (ltb (length candles) 1) [ true ↦ pure false | false ↦ arm_at candles ]
      ]
    ]

module _ {F D : Type 0} ⦃d : Num D⦄ where
  -- The test that both modes make: the estimate against the target.
  unfoldable pub decide_exit :
      StrategyPosition F D
      → OrderBook D
      → ExitCostModel D
      → D
      → ExitReason
      → ExitReason
      → Result (ExitDecision D)
  unfolding target_net_pnl
  decide_exit position order_book cost_model pct reached below =
      let target = target_net_pnl (invested_quote_cost position.entry) pct in
      elim (estimate_net_pnl position order_book cost_model) [
        | raised e ↦ raised e
        | ok estimate ↦
            let enough = target ≼ estimate.net_pnl in
            ok (record {
              sell = enough;
              reason = if enough then reached else below;
              target_net_pnl = some target;
              estimate = some estimate;
            })
      ]

  unfoldable pub should_sell_normal :
      StrategyPosition F D → OrderBook D → ExitCostModel D → Result (ExitDecision D)
  should_sell_normal position order_book cost_model =
      let hold : ExitDecision D = record {
        sell = false;
        reason = not_armed position.state;
        target_net_pnl = none;
        estimate = none;
      } in
      elim position.state [
        | exit_armed ↦
            decide_exit position order_book cost_model position.snapshot.min_net_profit_pct
              target_reached below_target
        | opened ↦ ok hold
        | closed ↦ ok hold
      ]

  unfoldable pub should_sell_withdrawal :
      StrategyPosition F D → OrderBook D → ExitCostModel D → Result (ExitDecision D)
  should_sell_withdrawal position order_book cost_model =
      decide_exit position order_book cost_model withdrawal_min_net_profit_pct withdrawal_reached
        withdrawal_below
