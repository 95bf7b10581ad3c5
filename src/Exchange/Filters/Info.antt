-- ===== src/Exchange/Filters/Info.antt =====
-- `SymbolFilters.from_exchange_info_symbol` of src/cryptobot/exchange/filters.py
use cryptobot_v.Prelude.{true, false, Option, none, some, List, if◌then◌else◌}
use cryptobot_v.Prelude.Text.{Text, codes}
use cryptobot_v.Prelude.Result.{Result, ok, raised, value_error, ◌>>=◌}
use cryptobot_v.Exchange.Filters.{SymbolFilters}
use cryptobot_v.Exchange.Json.{
  Json, null, str, arr, obj, no_items, no_fields, Decoder, get_or, get_key, elements, each, truthy,
  text_key, last_of,
}

module _ {F D : Type 0} (dec : Decoder F D) where
  -- `by_type.get(first) or by_type.get(second)`: an empty object counts as missing
  unfoldable pub first_or : Text → Text → List (Option Text × Json) → Option Json
  unfolding last_of
  first_or first second filters = elim (last_of first filters) [
    | none ↦ last_of second filters
    | some f ↦ elim (truthy dec f) [ true ↦ some f | false ↦ last_of second filters ]
  ]

  -- `_as_decimal(f.get(key, "0"))`
  unfoldable pub decimal_or_0 : Text → Json → Result D
  decimal_or_0 key f = get_or key f (str (codes "0")) >>= dec.decimal_of

  unfoldable pub read_filters : Text → Json → Json → Json → Result (SymbolFilters D)
  unfolding decimal_or_0
  read_filters symbol lot price notional = do
    step_size ← get_key (codes "stepSize") lot >>= dec.decimal_of
    min_qty ← get_key (codes "minQty") lot >>= dec.decimal_of
    max_qty ← get_key (codes "maxQty") lot >>= dec.decimal_of
    tick_size ← decimal_or_0 (codes "tickSize") price
    min_price ← decimal_or_0 (codes "minPrice") price
    max_price ← decimal_or_0 (codes "maxPrice") price
    min_notional ← decimal_or_0 (codes "minNotional") notional
    ok (record {
      symbol = symbol;
      step_size = step_size;
      min_qty = min_qty;
      max_qty = max_qty;
      tick_size = tick_size;
      min_price = min_price;
      max_price = max_price;
      min_notional = min_notional;
    })

  abbrev pub or_empty : Option Json → Json
  or_empty none = obj no_fields
  or_empty (some f) = f

  -- `… or {}`
  abbrev pub or_empty_object : Option Json → Json
  or_empty_object none = obj no_fields
  or_empty_object (some f) = if truthy dec f then f else obj no_fields

  unfoldable pub from_exchange_info_symbol : Json → Result (SymbolFilters D)
  unfolding text_key first_or read_filters
  from_exchange_info_symbol info = do
    filters ← get_or (codes "filters") info (arr no_items) >>= elements
    by_type ← each (λ f. text_key (codes "filterType") f >>= λ t. ok (t, f)) filters
    symbol ← get_or (codes "symbol") info null
    elim (first_or (codes "MARKET_LOT_SIZE") (codes "LOT_SIZE") by_type) [
      | none ↦ raised value_error
      | some lot ↦
          read_filters (dec.text_of symbol) lot (or_empty (last_of (codes "PRICE_FILTER") by_type))
            (or_empty_object (first_or (codes "NOTIONAL") (codes "MIN_NOTIONAL") by_type))
    ]
