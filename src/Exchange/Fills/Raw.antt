-- ===== src/Exchange/Fills/Raw.antt =====
-- `Fill.from_binance` of src/cryptobot/exchange/fills.py
use cryptobot_v.Prelude.{[]}
use cryptobot_v.Prelude.Text.{codes}
use cryptobot_v.Prelude.Result.{Result, ok, ◌>>=◌}
use cryptobot_v.Exchange.Fills.{Fill}
use cryptobot_v.Exchange.Json.{Json, str, Decoder, get_or, get_key}

module _ {F D : Type 0} (dec : Decoder F D) where
  unfoldable pub from_binance : Json → Result (Fill D)
  from_binance raw = do
    price ← get_key (codes "price") raw >>= dec.decimal_of
    qty ← get_key (codes "qty") raw >>= dec.decimal_of
    commission ← get_or (codes "commission") raw (str (codes "0")) >>= dec.decimal_of
    asset ← get_or (codes "commissionAsset") raw (str [])
    ok (record {
      price = price;
      qty = qty;
      commission = commission;
      commission_asset = dec.text_of asset;
    })
