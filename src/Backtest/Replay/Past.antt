-- ===== src/Backtest/Replay/Past.antt =====
-- A replay shows nothing of the future.
use cryptobot_v.Prelude.{
  ℕ, ◌+◌, ◌≡◌, sym, ap, ◌∙◌, List, arith, Bool-cases, inl, inr, get_elem?, get_elem?-take, take,
}
use cryptobot_v.Prelude.Text.{Text, text_eq}
use cryptobot_v.Number.{Num}
use cryptobot_v.Market.Candle.{Candle}
use cryptobot_v.Backtest.Replay.{
  ReplayMarketData, set_index, get_closed_candles, get_order_book, index_of,
}

module _ {F D : Type 0} ⦃d : Num D⦄ (decimal_of : F → D) where
  -- Two histories that agree up to the current index, and go on in any way behind it, are not told
  -- apart: each request for candles, with any limit, and each order book is the same.
  pub replay_past_only :
      (m : ReplayMarketData F D) (future : List (Candle F)) (index : ℕ) (symbol : Text) (limit : ℕ)
      → take (index + 1) m.series ≡ take (index + 1) future
      → (get_closed_candles (set_index index m) symbol limit
          ≡ get_closed_candles (set_index index (record m { series = future })) symbol limit)
        × (get_order_book decimal_of (set_index index m) symbol
            ≡ get_order_book decimal_of (set_index index (record m { series = future })) symbol)
  unfolding get_closed_candles get_order_book set_index
  replay_past_only m future index symbol limit e =
      let same_candle : get_elem? m.series index ≡ get_elem? future index =
        sym (get_elem?-take (index + 1) index m.series (omega arith))
        ∙ ap (λ x. get_elem? x index) e
        ∙ get_elem?-take (index + 1) index future (omega arith) in
      elim (Bool-cases (text_eq m.symbol symbol)) [
        | inl known ↦ (
          rw (get_closed_candles, index_of, known, e),
          rw (get_order_book, index_of, known, same_candle),
        )
        | inr unknown ↦
            (rw (get_closed_candles, index_of, unknown), rw (get_order_book, index_of, unknown))
      ]
