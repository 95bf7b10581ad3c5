-- ===== src/Exchange/Message.antt =====
-- src/cryptobot/exchange/binance_ws.py: what is read from a message. `upper` is the interpreter's
-- `str.upper`.
use cryptobot_v.Prelude.{
  Bool, true, false, ◌||◌, Option, none, some, List, [], ◌∷◌, ◌==◌, is_some, if◌then◌else◌,
}
use cryptobot_v.Prelude.Text.{starts_with, Text, codes, text_eq}
use cryptobot_v.Prelude.Result.{Result, ok, raised, type_error, ◌>>=◌}
use cryptobot_v.Number.{Num}
use cryptobot_v.Market.Candle.{Candle, make_candle}
use cryptobot_v.Exchange.Json.{
  Json, bool, str, arr, obj, Decoder, find, get, get_or, get_key, elements, truthy,
}

-- `stream.split("@", 1)[0]`
unfoldable pub before_at : Text → Text
before_at [] = []
before_at (c ∷ s) = let rest = before_at s in if c == 64 then [] else c ∷ rest

-- `k in s`, of texts
unfoldable pub occurs_in : Text → Text → Bool
unfolding starts_with
occurs_in k [] = starts_with k []
occurs_in k (x ∷ s) = starts_with k (x ∷ s) || occurs_in k s

unfoldable pub is_element : Text → List Json → Bool
is_element k [] = false
is_element k (str t ∷ xs) = text_eq t k || is_element k xs
is_element k (x ∷ xs) = is_element k xs

-- `k in data`
unfoldable pub is_in : Text → Json → Result Bool
unfolding is_element occurs_in
is_in k (obj fields) = ok (is_some (find k fields))
is_in k (str s) = ok (occurs_in k s)
is_in k (arr xs) = elements (arr xs) >>= λ ys. ok (is_element k ys)
is_in k _ = raised type_error

module _ {F D : Type 0} ⦃f : Num F⦄ (dec : Decoder F D) where
  unfoldable pub kline_to_candle : Text → Json → Result (Candle F)
  kline_to_candle symbol k = do
    open_time ← get_key (codes "t") k >>= dec.int_of
    open_price ← get_key (codes "o") k >>= dec.float_of
    high ← get_key (codes "h") k >>= dec.float_of
    low ← get_key (codes "l") k >>= dec.float_of
    close ← get_key (codes "c") k >>= dec.float_of
    volume ← get_key (codes "v") k >>= dec.float_of
    x ← get_or (codes "x") k (bool false)
    make_candle (record {
      symbol = symbol;
      open_time = open_time;
      open_price = open_price;
      high = high;
      low = low;
      close = close;
      volume = volume;
      is_closed = truthy dec x;
    })

module _ {F D : Type 0} (dec : Decoder F D) (upper : Text → Text) where
  -- `_stream_symbol(stream) if stream else None`
  unfoldable pub symbol_of_stream : Option Json → Result (Option Text)
  unfolding before_at
  symbol_of_stream none = ok none
  symbol_of_stream (some stream) = elim (truthy dec stream) [
    | false ↦ ok none
    | true ↦ elim stream [ str t ↦ ok (some (upper (before_at t))) | _ ↦ raised type_error ]
  ]

  -- `symbol or data.get("s") or (…)`; the name is upper-cased next, which wants a text
  unfoldable pub message_symbol : Option Text → Json → Option Json → Result (Option Text)
  unfolding symbol_of_stream
  message_symbol (some (c ∷ s)) payload stream = ok (some (c ∷ s))
  message_symbol _ payload stream = do
    found ← get (codes "s") payload
    elim found [
      | none ↦ symbol_of_stream stream
      | some x ↦ elim (truthy dec x) [
        | false ↦ symbol_of_stream stream
        | true ↦ elim x [ str t ↦ ok (some t) | _ ↦ raised type_error ]
      ]
    ]
