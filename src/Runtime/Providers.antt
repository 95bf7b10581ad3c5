-- ===== src/Runtime/Providers.antt =====
-- src/cryptobot/runtime/providers.py
use cryptobot_v.Prelude.{
  ℕ, ◌+◌, ◌-◌, Bool, false, ◌&&◌, none, some, List, leb, if◌then◌else◌, get_last?,
}
use cryptobot_v.Number.{Num, ◌⊖◌, ◌⊘◌, ◌≼◌, nought}
use cryptobot_v.Market.Candle.{Candle, interval_ms}
use cryptobot_v.Strategy.Parameters.{CoinStrategyParameters}

module _ {F D : Type 0} ⦃d : Num D⦄ where
  unfoldable pub equal_slot_quote_amount : CoinStrategyParameters F D → ℕ → D → D
  equal_slot_quote_amount params open_and_reserved_slots used_capital_usdt =
      let remaining_capital = params.capital_limit_usdt ⊖ used_capital_usdt in
      let per_slot = params.capital_limit_usdt ⊘ d.of_ℕ params.slot_count in
      if leb params.slot_count open_and_reserved_slots
      then nought
      else if remaining_capital ≼ nought
      then nought
      else if per_slot ≼ remaining_capital
      then per_slot
      else remaining_capital

module _ {F : Type 0} where
  -- The chained comparison: behind its first half the difference is not negative.
  unfoldable pub is_market_data_fresh : List (Candle F) → ℕ → ℕ → Bool
  is_market_data_fresh candles now_ms max_lag_ms = elim (get_last? candles) [
    | none ↦ false
    | some c ↦
        let last_close_time = c.open_time + interval_ms - 1 in
        leb last_close_time now_ms && leb (now_ms - last_close_time) max_lag_ms
  ]
