-- ===== src/Exchange/Rest.antt =====
-- src/cryptobot/exchange/binance_rest.py. The transport, the clock, HMAC-SHA256 under the secret, and
-- `urlencode` are the environment's; a world `W` lies behind them.
pub mod Feed
use cryptobot_v.Prelude.{
  ℕ, ◌+◌, Bool, true, false, Option, none, some, List, [], ◌∷◌, ◌++◌, ◌==◌, if◌then◌else◌, is_empty,
  take_last,
}
use cryptobot_v.Prelude.Integers.{ℤ}
use cryptobot_v.Prelude.Text.{Text, codes}
use cryptobot_v.Prelude.Dict
use cryptobot_v.Prelude.Result.{Result, ok, raised}
use cryptobot_v.Prelude.Exec.{Exec, pure, lift, ◌>>=◌}
use cryptobot_v.Number.{Num}
use cryptobot_v.Market.Candle.{Candle}
use cryptobot_v.Execution.Orderbook.{OrderBook}
use cryptobot_v.Exchange.Json.{Json, arr, no_items, Decoder, get_or, elements, each}
use cryptobot_v.Exchange.Fills.{Fill}
use cryptobot_v.Exchange.Fills.Raw.{from_binance}
use cryptobot_v.Exchange.MarketData.{parse_klines, parse_depth}

-- A query parameter.
pub data Param : Type 0 where
  text : Text → Param
  number : ℕ → Param
  integer : ℤ → Param

abbrev pub Params : Type 0
Params = List (Text × Param)

-- `BinanceRestClient`; the secret is behind `sign`
pub record RestClient (W : Type 0) : Type 0 where
  pub transport : Text → Text → List (Text × Text) → Exec W Json
  pub api_key : Text
  pub sign : Text → Text
  pub base_url : Text
  pub recv_window : ℕ
  pub now_ms : Exec W ℕ
  pub urlencode : Params → Text

-- `base_url.rstrip("/")`
unfoldable pub strip_slashes : Text → Text
strip_slashes [] = []
strip_slashes (c ∷ s) =
    let rest = strip_slashes s in
    if is_empty rest then (if c == 47 then [] else c ∷ []) else c ∷ rest

-- `f"{url}?{query}" if query else url`
abbrev pub with_query : Text → Text → Text
with_query url query = if is_empty query then url else url ++ codes "?" ++ query

-- The body of a market order: its side and its amount.
abbrev pub order_params : Text → Text → Text → Text → Params
order_params symbol side key amount =
    (codes "symbol", text symbol)
    ∷ (codes "side", text side)
    ∷ (codes "type", text (codes "MARKET"))
    ∷ (key, text amount)
    ∷ (codes "newOrderRespType", text (codes "FULL"))
    ∷ []

module _ {W : Type 0} where
  unfoldable pub init_client : RestClient W → RestClient W
  unfolding strip_slashes
  init_client c = record c { base_url = strip_slashes c.base_url }

  -- The query of a signed request with the time and the window, and its signature.
  unfoldable pub signed_query : RestClient W → Params → ℕ → Text
  signed_query c params now =
      let items =
        Dict.put (codes "recvWindow") (number c.recv_window)
          (Dict.put (codes "timestamp") (number now) params) in
      let query = c.urlencode items in query ++ codes "&signature=" ++ c.sign query

  unfoldable pub build_url : RestClient W → Text → Params → Bool → Exec W Text
  unfolding signed_query
  build_url c path params false = pure (with_query (c.base_url ++ path) (c.urlencode params))
  build_url c path params true = do
    now ← c.now_ms
    pure (with_query (c.base_url ++ path) (signed_query c params now))

  unfoldable pub request : RestClient W → Text → Text → Params → Bool → Exec W Json
  unfolding build_url
  request c method path params signed = do
    url ← build_url c path params signed
    c.transport method url
        (if is_empty c.api_key then [] else (codes "X-MBX-APIKEY", c.api_key) ∷ [])

  unfoldable pub get_klines : RestClient W → Text → Text → ℕ → Exec W Json
  unfolding request
  get_klines c symbol interval limit =
      request c (codes "GET") (codes "/api/v3/klines")
        ((codes "symbol", text symbol)
          ∷ (codes "interval", text interval)
          ∷ (codes "limit", number limit)
          ∷ [])
        false

  unfoldable pub get_depth : RestClient W → Text → ℕ → Exec W Json
  unfolding request
  get_depth c symbol limit =
      request c (codes "GET") (codes "/api/v3/depth")
        ((codes "symbol", text symbol) ∷ (codes "limit", number limit) ∷ []) false

  unfoldable pub get_exchange_info : RestClient W → Text → Exec W Json
  unfolding request
  get_exchange_info c symbol =
      request c (codes "GET") (codes "/api/v3/exchangeInfo") ((codes "symbol", text symbol) ∷ [])
        false

  unfoldable pub account : RestClient W → Exec W Json
  unfolding request
  account c = request c (codes "GET") (codes "/api/v3/account") [] true

module _ {D W : Type 0} (str_of : D → Text) (c : RestClient W) where
  unfoldable pub market_buy_quote : Text → D → Exec W Json
  unfolding request
  market_buy_quote symbol quote_amount =
      request c (codes "POST") (codes "/api/v3/order")
        (order_params symbol (codes "BUY") (codes "quoteOrderQty") (str_of quote_amount)) true

  unfoldable pub market_sell_qty : Text → D → Exec W Json
  unfolding request
  market_sell_qty symbol base_qty =
      request c (codes "POST") (codes "/api/v3/order")
        (order_params symbol (codes "SELL") (codes "quantity") (str_of base_qty)) true

module _ {F D W : Type 0} ⦃f : Num F⦄ ⦃d : Num D⦄ (dec : Decoder F D) (str_of : D → Text)
    (c : RestClient W) where
  -- `BinanceMarketData`, with its clock and interval
  unfoldable pub rest_candles : Exec W ℕ → Text → Text → ℕ → Exec W (List (Candle F))
  unfolding get_klines
  rest_candles clock interval symbol limit = do
    raw ← get_klines c symbol interval (limit + 1)
    now ← clock
    candles ← lift (parse_klines dec raw symbol (some now) true)
    pure (if limit == 0 then candles else take_last limit candles)

  unfoldable pub rest_order_book : Text → Exec W (OrderBook D)
  unfolding get_depth
  rest_order_book symbol = do raw ← get_depth c symbol 100; lift (parse_depth dec raw)

  -- `[Fill.from_binance(f) for f in resp.get("fills", [])]`
  unfoldable pub fills_of : Json → Result (List (Fill D))
  fills_of resp = elim (get_or (codes "fills") resp (arr no_items)) [
    | raised e ↦ raised e
    | ok x ↦ elim (elements x) [ raised e ↦ raised e | ok fills ↦ each (from_binance dec) fills ]
  ]

  -- `BinanceExecution`
  unfoldable pub rest_buy : Text → D → Exec W (List (Fill D))
  unfolding market_buy_quote fills_of
  rest_buy symbol quote_amount = do
    resp ← market_buy_quote str_of c symbol quote_amount
    lift (fills_of resp)

  unfoldable pub rest_sell : Text → D → Exec W (List (Fill D))
  unfolding market_sell_qty fills_of
  rest_sell symbol base_qty = do
    resp ← market_sell_qty str_of c symbol base_qty
    lift (fills_of resp)
