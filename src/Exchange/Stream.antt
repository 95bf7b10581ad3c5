-- ===== src/Exchange/Stream.antt =====
-- src/cryptobot/exchange/binance_ws.py. `upper` is the interpreter's `str.upper`.
pub mod Buffer
pub mod Reach
pub mod Gaps
use cryptobot_v.Prelude.{
  ℕ, Bool, true, false, ◌&&◌, ◌||◌, Option, none, some, List, [], ◌∷◌, ◌++◌, ltb, ◌==◌, is_some,
  if◌then◌else◌, get_last?, take_last,
}
use cryptobot_v.Prelude.Text.{Text, codes, text_eq}
use cryptobot_v.Prelude.Dict
use cryptobot_v.Prelude.Result.{Result, ok, raised, value_error, type_error}
use cryptobot_v.Prelude.Exec.{Exec, pure, lift, modify, ◌>>=◌}
use cryptobot_v.Number.{Num}
use cryptobot_v.Market.Candle.{Candle, make_candle}
use cryptobot_v.Execution.Orderbook.{OrderBook, empty_book, from_levels}
use cryptobot_v.Exchange.Json.{
  Json, Fields, bool, str, arr, obj, Decoder, find, get, get_or, get_key, elements, truthy,
}
use cryptobot_v.Exchange.MarketData.{levels_of}
use cryptobot_v.Exchange.Message.{is_in, kline_to_candle, message_symbol}

-- `StreamingMarketData`
pub record Stream (F D : Type 0) : Type 0 where
  pub max_candles : ℕ
  pub candles : List (Text × List (Candle F))
  pub books : List (Text × OrderBook D)

module _ {F : Type 0} where
  -- `append` on a `deque(maxlen=limit)`
  abbrev pub push : ℕ → List (Candle F) → Candle F → List (Candle F)
  push limit buf c = take_last limit (buf ++ c ∷ [])

  -- `buf[-1] = candle`
  abbrev pub set_last : List (Candle F) → Candle F → List (Candle F)
  set_last [] c = []
  set_last (b ∷ []) c = c ∷ []
  set_last (b ∷ b' ∷ bs) c = b ∷ set_last (b' ∷ bs) c

  -- The loop of `seed_candles`.
  unfoldable pub fill_buffer : ℕ → List (Candle F) → List (Candle F) → List (Candle F)
  fill_buffer limit buf [] = buf
  fill_buffer limit buf (c ∷ cs) =
      fill_buffer limit (if c.is_closed then push limit buf c else buf) cs

  -- What `apply_kline` makes of the buffer: `none` if the candle is stale.
  unfoldable pub fold_candle : ℕ → List (Candle F) → Candle F → Option (List (Candle F))
  fold_candle limit buf c = elim (get_last? buf) [
    | none ↦ some (push limit buf c)
    | some l ↦
        if c.open_time == l.open_time
        then some (set_last buf c)
        else if ltb c.open_time l.open_time
        then none
        else some (push limit buf c)
  ]

module _ {F D : Type 0} where
  unfoldable pub init_stream : ℕ → Stream F D
  init_stream max_candles = record { max_candles = max_candles; candles = []; books = [] }

module _ {F D : Type 0} (upper : Text → Text) where
  unfoldable pub buffer_of : Text → Stream F D → List (Candle F)
  buffer_of symbol s = Dict.get_or (upper symbol) s.candles []

  abbrev pub set_buffer : Text → List (Candle F) → Stream F D → Stream F D
  set_buffer symbol buf s = record s { candles = Dict.put (upper symbol) buf s.candles }

  unfoldable pub seed_candles : Text → List (Candle F) → Stream F D → Stream F D
  unfolding fill_buffer
  seed_candles symbol candles s = set_buffer symbol (fill_buffer s.max_candles [] candles) s

  unfoldable pub get_closed_candles : Stream F D → Text → ℕ → List (Candle F)
  unfolding buffer_of
  get_closed_candles s symbol limit =
      let items = buffer_of symbol s in if limit == 0 then items else take_last limit items

  unfoldable pub get_order_book : Stream F D → Text → OrderBook D
  get_order_book s symbol = Dict.get_or (upper symbol) s.books empty_book

  unfoldable pub has_order_book : Stream F D → Text → Bool
  has_order_book s symbol = is_some (Dict.get (upper symbol) s.books)

module _ {F D : Type 0} ⦃f : Num F⦄ ⦃d : Num D⦄ (dec : Decoder F D) (upper : Text → Text) where
  -- The end of `apply_kline`: whether the candle was stored.
  unfoldable pub store : Text → Candle F → Exec (Stream F D) Bool
  unfolding fold_candle
  store symbol candle s = elim (fold_candle s.max_candles (buffer_of upper symbol s) candle) [
    | none ↦ (ok false, s)
    | some buf ↦ (ok true, set_buffer upper symbol buf s)
  ]

  unfoldable pub apply_kline : Text → Json → Exec (Stream F D) Bool
  unfolding store
  apply_kline symbol k = do
    x ← lift (get_or (codes "x") k (bool false))
    elim (truthy dec x) [
      | false ↦ pure false
      | true ↦ (do candle ← lift (kline_to_candle dec (upper symbol) k); store symbol candle)
    ]

  unfoldable pub apply_depth : Text → Json → Exec (Stream F D) (Unit {0})
  apply_depth symbol payload = do
    bids ← lift (levels_of dec (codes "bids") payload)
    asks ← lift (levels_of dec (codes "asks") payload)
    modify (λ (s : Stream F D). record s {
      books = Dict.put (upper symbol) (from_levels bids asks) s.books;
    })

  -- `if sym is None: raise`, and the handler
  unfoldable pub handle :
      Option Text → (Text → Exec (Stream F D) (Unit {0})) → Exec (Stream F D) (Unit {0})
  handle none handler = lift (raised value_error)
  handle (some symbol) handler = handler symbol

  unfoldable pub on_kline : Json → Text → Exec (Stream F D) (Unit {0})
  unfolding apply_kline
  on_kline payload symbol = do
    k ← lift (get_key (codes "k") payload)
    stored ← apply_kline symbol k
    pure tt

  -- The part of `process_message` behind the envelope; the test on "bids" and "asks" is one.
  unfoldable pub process_data : Option Text → Json → Option Json → Exec (Stream F D) (Unit {0})
  unfolding handle on_kline apply_depth
  process_data symbol payload stream = do
    kline ← lift (is_in (codes "k") payload)
    bids ← lift (is_in (codes "bids") payload)
    asks ← lift (is_in (codes "asks") payload)
    elim (kline || (bids || asks)) [
      | false ↦ pure tt
      | true ↦ (do
        name ← lift (message_symbol dec upper symbol payload stream)
        handle name (if kline then on_kline payload else λ sym. apply_depth sym payload))
    ]

  unfoldable pub process_message : Json → Option Text → Exec (Stream F D) (Unit {0})
  unfolding process_data
  process_message message symbol = do
    payload ← lift (get_or (codes "data") message message)
    stream ← lift (get (codes "stream") message)
    process_data symbol payload stream
