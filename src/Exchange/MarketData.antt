-- ===== src/Exchange/MarketData.antt =====
-- src/cryptobot/exchange/market_data.py
pub mod Closed
use cryptobot_v.Prelude.{
  ℕ, Bool, true, false, not, ◌&&◌, Option, none, some, List, [], ◌∷◌, ◌++◌, ltb, get_elem?,
}
use cryptobot_v.Prelude.Text.{Text, codes}
use cryptobot_v.Prelude.Result.{Result, ok, raised, value_error, index_error, ◌>>=◌}
use cryptobot_v.Number.{Num}
use cryptobot_v.Market.Candle.{Candle, make_candle}
use cryptobot_v.Execution.Orderbook.{OrderBook, Levels, from_levels}
use cryptobot_v.Exchange.Json.{Json, no_items, arr, Decoder, get_or, elements, each}

-- `row[i]`
abbrev pub cell : ℕ → List Json → Result Json
cell i row = elim (get_elem? row i) [ none ↦ raised index_error | some x ↦ ok x ]

module _ {F D : Type 0} ⦃f : Num F⦄ (dec : Decoder F D) where
  -- The candle of one row, which is closed as given.
  unfoldable pub candle_of_row : Text → Bool → List Json → Result (Candle F)
  candle_of_row symbol is_closed row = do
    open_time ← cell 0 row >>= dec.int_of
    open_price ← cell 1 row >>= dec.float_of
    high ← cell 2 row >>= dec.float_of
    low ← cell 3 row >>= dec.float_of
    close ← cell 4 row >>= dec.float_of
    volume ← cell 5 row >>= dec.float_of
    make_candle (record {
      symbol = symbol;
      open_time = open_time;
      open_price = open_price;
      high = high;
      low = low;
      close = close;
      volume = volume;
      is_closed = is_closed;
    })

  -- `True if now_ms is None else now_ms > close_time`
  abbrev pub closed_by : Option ℕ → ℕ → Bool
  closed_by none close_time = true
  closed_by (some now_ms) close_time = ltb close_time now_ms

  -- One round of the loop: no candle if the row is skipped.
  unfoldable pub parse_row : Text → Option ℕ → Bool → Json → Result (List (Candle F))
  unfolding candle_of_row
  parse_row symbol now_ms drop_unclosed x = do
    row ← elements x
    close_time ← cell 6 row >>= dec.int_of
    let is_closed = closed_by now_ms close_time
    elim (not is_closed && drop_unclosed) [
      | true ↦ ok []
      | false ↦ (do candle ← candle_of_row symbol is_closed row; ok (candle ∷ []))
    ]

  unfoldable pub parse_rows : Text → Option ℕ → Bool → List Json → Result (List (Candle F))
  unfolding parse_row
  parse_rows symbol now_ms drop_unclosed [] = ok []
  parse_rows symbol now_ms drop_unclosed (row ∷ rows) = do
    candles ← parse_row symbol now_ms drop_unclosed row
    more ← parse_rows symbol now_ms drop_unclosed rows
    ok (candles ++ more)

  unfoldable pub parse_klines : Json → Text → Option ℕ → Bool → Result (List (Candle F))
  unfolding parse_rows
  parse_klines raw symbol now_ms drop_unclosed = do
    rows ← elements raw
    parse_rows symbol now_ms drop_unclosed rows

module _ {F D : Type 0} ⦃d : Num D⦄ (dec : Decoder F D) where
  -- `for p, q in …`: a level that is not a pair raises
  unfoldable pub level_of : Json → Result (D × D)
  level_of x = do
    cells ← elements x
    elim cells [
      | price ∷ qty ∷ [] ↦ (do p ← dec.decimal_of price; q ← dec.decimal_of qty; ok (p, q))
      | _ ↦ raised value_error
    ]

  -- `[(Decimal(str(p)), Decimal(str(q))) for p, q in raw.get(name, [])]`
  unfoldable pub levels_of : Text → Json → Result (Levels D)
  unfolding level_of
  levels_of name raw = do
    found ← get_or name raw (arr no_items)
    levels ← elements found
    each level_of levels

  unfoldable pub parse_depth : Json → Result (OrderBook D)
  unfolding levels_of
  parse_depth raw = do
    bids ← levels_of (codes "bids") raw
    asks ← levels_of (codes "asks") raw
    ok (from_levels bids asks)
