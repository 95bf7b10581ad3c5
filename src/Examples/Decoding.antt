-- ===== src/Examples/Decoding.antt =====
-- A decoder of whole numbers, and a client whose transport answers with given JSON.
use Prim.Native.Nat.{◌+◌, ◌-◌, ◌*◌}
use cryptobot_v.Prelude.{ℕ, ◌&&◌, Option, none, some, [], ◌∷◌, leb, if◌then◌else◌}
use cryptobot_v.Prelude.Text.{Text, codes, text_eq}
use cryptobot_v.Prelude.Result.{Result, ok, raised, value_error, type_error}
use cryptobot_v.Prelude.Exec.{pure}
use cryptobot_v.Number.Fixed.{ℤ, pos, unit}
use cryptobot_v.Exchange.Json.{Json, num, str, arr, obj, Decoder, items_of, fields_of}
use cryptobot_v.Exchange.Rest.{RestClient}

-- The number that digits write, behind the value so far.
abbrev digits : ℕ → Text → Option ℕ
digits n [] = some n
digits n (c ∷ s) = if leb 48 c && leb c 57 then digits (n * 10 + (c - 48)) s else none

abbrev whole : Json → Result ℕ
whole (num t) = elim (digits 0 t) [ none ↦ raised value_error | some n ↦ ok n ]
whole (str t) = elim (digits 0 t) [ none ↦ raised value_error | some n ↦ ok n ]
whole _ = raised type_error

abbrev scaled : Json → Result ℤ
scaled x = elim (whole x) [ raised e ↦ raised e | ok n ↦ ok (pos (n * unit)) ]

abbrev text_of : Json → Text
text_of (str t) = t
text_of (num t) = t
text_of _ = []

abbrev pub decoder : Decoder ℤ ℤ
decoder = record {
  int_of = whole;
  float_of = scaled;
  decimal_of = scaled;
  text_of = text_of;
  is_zero = λ t. text_eq t (codes "0");
}

-- The kline that opens at `open_time` and closes at `close_time`, at one price.
abbrev pub kline : Text → Text → Text → Json
kline open_time close_time price = arr (
    items_of (
      num open_time
      ∷ str price
      ∷ str price
      ∷ str price
      ∷ str price
      ∷ str (codes "1")
      ∷ num close_time
      ∷ []))

-- Two klines; at the time 200 the second one is not closed.
abbrev pub klines : Json
klines = arr (
    items_of (
      kline (codes "0") (codes "99") (codes "5")
      ∷ kline (codes "100") (codes "199") (codes "6")
      ∷ []))

-- An account with two of the base asset.
abbrev pub account_json : Json
account_json = obj (
    fields_of (
      (
        codes "balances",
        arr (
            items_of (
              obj (
                fields_of
                  ((codes "asset", str (codes "BTC")) ∷ (codes "free", str (codes "2")) ∷ []))
              ∷ obj (
                  fields_of
                    ((codes "asset", str (codes "USDT")) ∷ (codes "free", str (codes "500")) ∷ []))
              ∷ [])),
      )
      ∷ []))

-- A client that always gets the same answer.
abbrev pub answering : Json → RestClient (Unit {0})
answering answer = record {
  transport = λ method url headers. pure answer;
  api_key = codes "key";
  sign = λ query. codes "signature";
  base_url = codes "https://api.binance.com";
  recv_window = 5000;
  now_ms = pure 150;
  urlencode = λ items. codes "query";
}
