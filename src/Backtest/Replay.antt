-- ===== src/Backtest/Replay.antt =====
-- src/cryptobot/backtest/replay.py, for the one symbol of a backtest; other symbols have no history.
pub mod Past
use cryptobot_v.Prelude.{
  ℕ, ◌+◌, Option, none, some, List, [], ◌∷◌, ◌==◌, if◌then◌else◌, take, take_last, get_elem?,
}
use cryptobot_v.Prelude.Text.{Text, text_eq}
use cryptobot_v.Prelude.Result.{Result, ok, raised, index_error}
use cryptobot_v.Number.{Num, ◌⊕◌, ◌⊖◌, ◌⊗◌}
use cryptobot_v.Market.Candle.{Candle, interval_ms}
use cryptobot_v.Execution.Orderbook.{OrderBook, empty_book, from_levels}

-- `BacktestClock.advance_to`: the time just after the candle closes
unfoldable pub advance_to : {F : Type 0} → Candle F → ℕ
advance_to c = c.open_time + interval_ms

-- `none` is the index -1 of a replay that has not begun.
pub record ReplayMarketData (F D : Type 0) : Type 0 where
  pub symbol : Text
  pub series : List (Candle F)
  pub spread : D
  pub index : Option ℕ

module _ {F D : Type 0} where
  unfoldable pub set_index : ℕ → ReplayMarketData F D → ReplayMarketData F D
  set_index index m = record m { index = some index }

  abbrev pub index_of : ReplayMarketData F D → Text → Option ℕ
  index_of m symbol = if text_eq m.symbol symbol then m.index else none

  unfoldable pub get_closed_candles : ReplayMarketData F D → Text → ℕ → List (Candle F)
  get_closed_candles m symbol limit = elim (index_of m symbol) [
    | none ↦ []
    | some index ↦
        let window = take (index + 1) m.series in
        if limit == 0 then window else take_last limit window
  ]

module _ {F D : Type 0} ⦃d : Num D⦄ (decimal_of : F → D) where
  -- `_DEPTH`
  abbrev pub depth : D
  depth = d.of_ℕ 1_000_000_000_000

  abbrev pub book_around : D → D → OrderBook D
  book_around price spread =
      from_levels ((price ⊗ (d.of_ℕ 1 ⊖ spread), depth) ∷ [])
        ((price ⊗ (d.of_ℕ 1 ⊕ spread), depth) ∷ [])

  unfoldable pub get_order_book : ReplayMarketData F D → Text → Result (OrderBook D)
  get_order_book m symbol = elim (index_of m symbol) [
    | none ↦ ok empty_book
    | some index ↦ elim (get_elem? m.series index) [
      | none ↦ raised index_error
      | some c ↦ ok (book_around (decimal_of c.close) m.spread)
    ]
  ]
