-- ===== src/Lib.antt =====
-- cryptobot: a trading bot for one-minute candles. This library models the strategy core, the execution
-- helpers, the exchange adapters, the runtime that joins them, and the paper, backtest and live drivers,
-- all under src/cryptobot.
--
-- The parts and how they interact. Each minute `TradingService.tick` walks over the coins. For each it
-- fetches closed candles, sizes an order, builds the operational gates and calls
-- `TradingRuntime.try_enter`, which asks `evaluate_buy`, sends a market buy and turns the fills into a
-- position. A second loop lets `try_exit` arm and sell the open positions. `run_backtest` drives the same
-- service over a recorded series, with a simulated exchange and a ledger.
--
-- The files:
--   Market          src/cryptobot/market: `Candle`, and `validate_series`
--   Indicators      src/cryptobot/indicators: RSI, RSI-VWMA, ADX and ADR
--   Strategy        src/cryptobot/strategy: parameters, the bundle of indicators, positions, the entry
--                   rule, the exit rules and the engine
--   Execution       src/cryptobot/execution: the order book, the estimate of the profit, the gates
--   Exchange        src/cryptobot/exchange: fills, filters, market data, the REST client (Rest) and the
--                   stream of binance_ws.py (Message and Stream)
--   Runtime         src/cryptobot/runtime: the ports, the orchestrator, the service, the paper account,
--                   the live account and loop (Live), and the metrics. Rules, Once, Halted and Unmarked
--                   are proofs on the steps of a tick: what each step keeps, and three invariants by
--                   the same rules
--   Backtest        src/cryptobot/backtest: the replayed market and the runner
--   Fetch           src/cryptobot/fetch.py
--   Dotenv          src/cryptobot/dotenv.py
--   Cli             src/cryptobot/cli.py: the configuration, the backtests and the paper runner
--   Number          what is assumed of `float` and `Decimal`
--   Prelude         lists, texts, exceptions and actions on a state
--   Examples        concrete data on which the theorems are applied
--
-- How the program is modelled. A function or a method has the name that it has in the source; a
-- constructor with a `__post_init__` is `make_…`, and `init_…` is an `__init__`. An exception is a value
-- of `Result`, and the messages of exceptions are left out. A method that changes its object is an
-- `Exec` action on the object's state, whose changes stay when a later step raises. Conditions, reasons
-- and problems that the source writes as strings are constructors.
--
-- Numbers. `float` and `Decimal` are two type parameters with the operations of `Num` (Number.antt):
-- nothing is assumed of them in most theorems, so these hold of rounded arithmetic and of NaN. Where an
-- order is needed, `IsSigned` (Number/Laws.antt) names the laws, and Number/Fixed.antt shows that signed
-- decimals with eight digits meet them. Times, indices, periods and slots are natural numbers.
-- The coercions `_as_decimal` are left out, since the arguments are decimals already.
--
-- The world. Market data, account, execution and clock are the record `Ports` of operations on an
-- arbitrary world, which may raise and may change it; the theorems on the service hold for all ports. The
-- state of a runtime also lists the orders that were sent, which no operation reads.
-- The service and its runtime each have a guard: the runtime replaces the empty one that it is given, so
-- the gates read one that is never marked, and `evaluate_buy` reads the other.
--
-- Messages and files are decoded JSON, the type `Json` of Exchange/Json.antt. How Python turns a decoded
-- value into a number or a text is the record `Decoder`, and how it writes numbers is `Writer`; both are
-- parameters. So are the HTTP transport, HMAC, `urlencode`, `str.upper`, `str.isspace` and
-- `Decimal.quantize`.
--
-- Loops are structural recursion over the candles, fills, coins or ticks, so they need no fuel. The one
-- exception is the loop of `paginate`, which runs on as much fuel as candles are asked for: a request
-- that goes on adds a candle at least, so the fuel is never used up. `run` of
-- the service takes the list of the statuses in place of an endless loop, and its pauses are left out.
--
-- The loop of `run_live` is modelled for a number of ticks; its callback, which prints, is left out.
--
-- Not modelled: argument parsing, printing and the monitoring callback of the command line, since they
-- are input and output; `urllib_transport` and the status server for the same reason.
pub mod Prelude
pub mod Number
pub mod Market
pub mod Indicators
pub mod Execution
pub mod Strategy
pub mod Exchange
pub mod Runtime
pub mod Backtest
pub mod Dotenv
pub mod Cli
pub mod Fetch
pub mod Examples
