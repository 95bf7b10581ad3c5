-- ===== src/Examples/Feed.antt =====
-- Candles from the exchange: by REST and by a stream.
use cryptobot_v.Prelude.{ℕ, ◌≤◌, ◌≡◌, refl, All, true, false, some, List, [], ◌∷◌, length, arith}
use cryptobot_v.Prelude.Text.{Text, codes}
use cryptobot_v.Prelude.Result.{ok}
use cryptobot_v.Prelude.Exec.{pure}
use cryptobot_v.Number.Fixed.{ℤ, fixed}
use cryptobot_v.Market.Candle.{Candle, make_candle}
use cryptobot_v.Market.Validation.{validate_series}
use cryptobot_v.Exchange.Json.{elements}
use cryptobot_v.Exchange.MarketData.{parse_klines, parse_rows, parse_row, candle_of_row}
use cryptobot_v.Exchange.MarketData.Closed.{only_closed, parse_klines-drop, IsFeed}
use cryptobot_v.Exchange.Rest.{rest_candles, get_klines, request, build_url}
use cryptobot_v.Exchange.Rest.Feed.{rest_candles-IsFeed}
use cryptobot_v.Exchange.Stream.{Stream, init_stream, seed_candles, get_closed_candles}
use cryptobot_v.Exchange.Stream.Buffer.{Rises}
use cryptobot_v.Exchange.Stream.Reach.{start, step, seeded, reached-get_closed_candles}
use cryptobot_v.Exchange.Stream.Gaps.{OnlyMissing, Rises-OnlyMissing}
use cryptobot_v.Examples.{num, btc_usdt, minutes}
use cryptobot_v.Examples.Decoding.{decoder, klines, answering}

-- The candle of a kline of the examples.
abbrev flat : ℕ → ℕ → Candle ℤ
flat open_time price = record {
  symbol = btc_usdt;
  open_time = open_time;
  open_price = num price;
  high = num price;
  low = num price;
  close = num price;
  volume = num 1;
  is_closed = true;
}

abbrev both : List (Candle ℤ)
both = flat 0 5 ∷ record (flat 100 6) { is_closed = false } ∷ []

parsed : parse_klines decoder klines btc_usdt (some 150) false ≡ ok both
unfolding parse_klines parse_rows parse_row candle_of_row elements make_candle
parsed = refl

text : ℤ → Text
text x = []

answered :
    (rest_candles decoder text (answering klines) (pure 150) (codes "1m") btc_usdt 3 tt).0
    ≡ ok (flat 0 5 ∷ [])
unfolding rest_candles get_klines request build_url parse_klines parse_rows parse_row candle_of_row
    elements make_candle
answered = refl

parse_klines-drop_example :
    parse_klines decoder klines btc_usdt (some 150) true ≡ ok (only_closed both)
parse_klines-drop_example = parse_klines-drop decoder klines btc_usdt (some 150) both parsed

rest_candles-IsFeed_example : IsFeed btc_usdt 3 (flat 0 5 ∷ [])
rest_candles-IsFeed_example =
    rest_candles-IsFeed decoder text (answering klines) (pure 150) (codes "1m") btc_usdt 3 tt
      (flat 0 5 ∷ []) (ground arith) answered

upper : Text → Text
upper s = s

abbrev filled : Stream ℤ ℤ
filled = seed_candles upper btc_usdt minutes (init_stream 3)

minutes-Rises : Rises minutes
minutes-Rises =
    (refl, (omega arith, refl, (omega arith, refl, (omega arith, refl, (omega arith, refl, tt)))))

minutes-named : All (λ (c : Candle ℤ). c.symbol ≡ btc_usdt) minutes
minutes-named = (refl, (refl, (refl, (refl, (refl, tt)))))

reached-get_closed_candles_example :
    Rises (get_closed_candles upper filled btc_usdt 2)
    × (1 ≤ 2 → length (get_closed_candles upper filled btc_usdt 2) ≤ 2)
reached-get_closed_candles_example =
    reached-get_closed_candles decoder upper 3 filled btc_usdt 2
      (step start (seeded btc_usdt minutes minutes-Rises))

Rises-OnlyMissing_example : OnlyMissing (validate_series minutes)
Rises-OnlyMissing_example = Rises-OnlyMissing btc_usdt minutes minutes-Rises minutes-named
