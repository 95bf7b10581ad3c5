-- ===== src/Exchange/Rest/Feed.antt =====
-- src/cryptobot/exchange/binance_rest.py, BinanceMarketData.get_closed_candles: the REST client as a feed.
use cryptobot_v.Prelude.{
  ◌≢◌, some, ◌+◌, ℕ, zero, suc, ◌-◌, ◌≡◌, inl, inr, true, List, [], ◌∷◌, arith, Bool-cases, All,
  length, take_last, drop, length-drop, ◌==◌, if◌then◌else◌,
}
use cryptobot_v.Prelude.Text.{Text}
use cryptobot_v.Prelude.Result.{ok, Result-cases}
use cryptobot_v.Prelude.Exec.{Exec, pure, lift, ◌>>=◌}
use cryptobot_v.Prelude.Gives.{Gives, Gives-bind, Gives-any, value-Gives}
use cryptobot_v.Number.{Num}
use cryptobot_v.Market.Candle.{Candle}
use cryptobot_v.Exchange.Json.{Json, Decoder, elements}
use cryptobot_v.Exchange.MarketData.{parse_rows, parse_klines}
use cryptobot_v.Exchange.MarketData.Closed.{IsFeed, parse_rows-IsFeed}
use cryptobot_v.Exchange.Rest.{RestClient, get_klines, rest_candles}

module _ {A : Type 0} where
  drop-All : (P : A → Type 0) (n : ℕ) (xs : List A) → All P xs → All P (drop n xs)
  drop-All P zero xs h = h
  drop-All P (suc n) [] h = tt
  drop-All P (suc n) (x ∷ xs) h = drop-All P n xs h.1

module _ {F D W : Type 0} ⦃f : Num F⦄ ⦃d : Num D⦄ (dec : Decoder F D) (str_of : D → Text)
    (c : RestClient W) where
  latest-IsFeed :
      (symbol : Text) (n limit : ℕ) (cs : List (Candle F))
      → limit ≢ 0
      → IsFeed symbol n cs
      → IsFeed symbol limit (if limit == 0 then cs else take_last limit cs)
  latest-IsFeed symbol n limit cs pos fed = elim (Bool-cases (limit == 0)) [
    | inl none_asked ↦ ground arith
    | inr asked ↦ rw asked (record {
      all_closed = drop-All _ (length cs - limit) cs fed.all_closed;
      all_named = drop-All _ (length cs - limit) cs fed.all_named;
      bounded = omega (arith, length-drop (length cs - limit) cs);
    })
  ]

  parsed-Gives :
      (raw : Json) (symbol : Text) (now limit : ℕ)
      → limit ≢ 0
      → Gives (IsFeed symbol limit) (
          lift {S = W} (parse_klines dec raw symbol (some now) true) >>= λ candles.
          pure (if limit == 0 then candles else take_last limit candles))
  unfolding parse_klines
  parsed-Gives raw symbol now limit pos w = elim (Result-cases (elements raw)) [
    | inr (x, bad) ↦ rw bad tt
    | inl (rows, read) ↦ elim (Result-cases (parse_rows dec symbol (some now) true rows)) [
      | inr (x, bad) ↦ rw (read, bad) tt
      | inl (cs, made) ↦
          rw (read, made)
            (latest-IsFeed symbol (length rows) limit cs pos
              (parse_rows-IsFeed dec symbol (some now) rows cs made))
    ]
  ]

  -- The candles that the REST client answers with are closed, of the symbol that is asked for, and no
  -- more than the limit, which is not 0; whatever the transport and the clock do.
  pub rest_candles-IsFeed :
      (clock : Exec W ℕ) (interval symbol : Text) (limit : ℕ) (w : W) (cs : List (Candle F))
      → limit ≢ 0
      → (rest_candles dec str_of c clock interval symbol limit w).0 ≡ ok cs
      → IsFeed symbol limit cs
  unfolding rest_candles
  rest_candles-IsFeed clock interval symbol limit w cs pos e =
      value-Gives (IsFeed symbol limit) (rest_candles dec str_of c clock interval symbol limit w) cs
        (Gives-bind _ (IsFeed symbol limit) (get_klines c symbol interval (limit + 1)) _
          (Gives-any (get_klines c symbol interval (limit + 1)))
          (λ raw _.
            Gives-bind _ (IsFeed symbol limit) clock _ (Gives-any clock)
              (λ now _. parsed-Gives raw symbol now limit pos))
          w)
        e
