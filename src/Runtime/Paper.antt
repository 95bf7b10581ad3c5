-- ===== src/Runtime/Paper.antt =====
-- src/cryptobot/runtime/paper.py. `LedgerAccount` is a record; `PaperExecution` asks a market, which is
-- the state of a `MarketDataPort` whose methods are given.
use cryptobot_v.Prelude.{ℕ, ◌+◌, ◌-◌, none, some, List, [], ◌∷◌, if◌then◌else◌, get_last?}
use cryptobot_v.Prelude.Text.{Text}
use cryptobot_v.Prelude.Dict
use cryptobot_v.Prelude.Result.{Result, ok, raised, lookup_error, zero_division, ◌>>=◌}
use cryptobot_v.Number.{Num, ◌⊕◌, ◌⊖◌, ◌⊗◌, ◌⊘◌, ◌≺◌, ◌≈◌, nought}
use cryptobot_v.Market.Candle.{Candle}
use cryptobot_v.Execution.Orderbook.{OrderBook, Levels}
use cryptobot_v.Exchange.Fills.{Fill}
use cryptobot_v.Strategy.Position.{StrategyPosition, invested_quote_cost}
use cryptobot_v.Runtime.Service.{Exit, TickReport}

pub record LedgerAccount (D : Type 0) : Type 0 where
  pub quote : D
  pub used : List (Text × D)
  pub slots : List (Text × ℕ)

module _ {D : Type 0} ⦃d : Num D⦄ where
  unfoldable pub init_ledger : D → LedgerAccount D
  init_ledger quote_balance = record { quote = quote_balance; used = []; slots = [] }

  unfoldable pub used_capital : LedgerAccount D → Text → D
  used_capital a symbol = Dict.get_or symbol a.used nought

  unfoldable pub open_and_reserved_slots : LedgerAccount D → Text → ℕ
  open_and_reserved_slots a symbol = Dict.get_or symbol a.slots 0

  unfoldable pub record_open : Text → D → LedgerAccount D → LedgerAccount D
  unfolding used_capital open_and_reserved_slots
  record_open symbol invested a = record {
    quote = a.quote ⊖ invested;
    used = Dict.put symbol (used_capital a symbol ⊕ invested) a.used;
    slots = Dict.put symbol (open_and_reserved_slots a symbol + 1) a.slots;
  }

  -- `max(0, slots - 1)` is the difference of naturals.
  unfoldable pub record_close : Text → D → D → LedgerAccount D → LedgerAccount D
  unfolding used_capital open_and_reserved_slots
  record_close symbol invested net_proceeds a = record {
    quote = a.quote ⊕ net_proceeds;
    used = Dict.put symbol (used_capital a symbol ⊖ invested) a.used;
    slots = Dict.put symbol (open_and_reserved_slots a symbol - 1) a.slots;
  }

module _ {F D : Type 0} ⦃d : Num D⦄ where
  -- The two loops of `apply_report`.
  unfoldable pub open_all : List (StrategyPosition F D) → LedgerAccount D → LedgerAccount D
  unfolding record_open
  open_all [] a = a
  open_all (p ∷ ps) a = open_all ps (record_open p.symbol (invested_quote_cost p.entry) a)

  unfoldable pub close_all : List (Exit F D) → LedgerAccount D → LedgerAccount D
  unfolding record_close
  close_all [] a = a
  close_all ((p, pnl) ∷ exits) a = close_all exits (
      record_close p.symbol (invested_quote_cost p.entry) (pnl.gross_proceeds ⊖ pnl.exit_fees_quote)
        a)

  unfoldable pub apply_report : TickReport F D → LedgerAccount D → LedgerAccount D
  unfolding open_all close_all
  apply_report report a = close_all report.exits (open_all report.entries a)

module _ {D : Type 0} ⦃d : Num D⦄ where
  -- `min(price for price, _ in levels)` and `max(…)`, of levels that are not empty
  abbrev pub lowest : D → Levels D → D
  lowest best [] = best
  lowest best ((price, _) ∷ ls) = lowest (if price ≺ best then price else best) ls

  abbrev pub highest : D → Levels D → D
  highest best [] = best
  highest best ((price, _) ∷ ls) = highest (if best ≺ price then price else best) ls

pub data Side : Type 0 where
  buy sell : Side

-- `decimal_of` is `Decimal(str(x))` of a float; the book and the candles are what the market-data port
-- returns to `_reference_price`.
module _ {F D : Type 0} ⦃d : Num D⦄ (decimal_of : F → D) where
  unfoldable pub last_close : List (Candle F) → Result D
  last_close candles = elim (get_last? candles) [
    | none ↦ raised lookup_error
    | some c ↦ ok (decimal_of c.close)
  ]

  unfoldable pub reference_price : Side → OrderBook D → List (Candle F) → Result D
  unfolding last_close
  reference_price buy book candles = elim book.asks [
    | [] ↦ last_close candles
    | level ∷ levels ↦ ok (lowest level.0 levels)
  ]
  reference_price sell book candles = elim book.bids [
    | [] ↦ last_close candles
    | level ∷ levels ↦ ok (highest level.0 levels)
  ]

  -- Dividing by a price of 0 raises.
  unfoldable pub market_buy : Text → D → OrderBook D → List (Candle F) → D → Result (List (Fill D))
  unfolding reference_price
  market_buy quote_asset fee_rate book candles quote_amount = do
    price ← reference_price buy book candles
    if price ≈ nought
        then raised zero_division
        else ok (
            record {
              price = price;
              qty = quote_amount ⊘ price;
              commission = quote_amount ⊗ fee_rate;
              commission_asset = quote_asset;
            }
            ∷ [])

  unfoldable pub market_sell : Text → D → OrderBook D → List (Candle F) → D → Result (List (Fill D))
  unfolding reference_price
  market_sell quote_asset fee_rate book candles base_qty = do
    price ← reference_price sell book candles
    ok (
        record {
          price = price;
          qty = base_qty;
          commission = price ⊗ base_qty ⊗ fee_rate;
          commission_asset = quote_asset;
        }
        ∷ [])
