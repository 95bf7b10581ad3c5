-- ===== src/Runtime/Live.antt =====
-- src/cryptobot/runtime/live.py: the account that follows the exchange, and the reconciliation.
pub mod Loop
pub mod Covered
pub mod Guarded
pub mod Ledger
use cryptobot_v.Prelude.{
  ℕ, ◌+◌, ◌-◌, Bool, true, false, not, Option, none, some, List, [], ◌∷◌, ◌++◌, map, is_empty,
  if◌then◌else◌,
}
use cryptobot_v.Prelude.Text.{Text, codes, text_eq}
use cryptobot_v.Prelude.Dict
use cryptobot_v.Prelude.Result.{Result, ok, raised, ◌>>=◌}
use cryptobot_v.Number.{Num, ◌⊕◌, ◌⊖◌, ◌⊗◌, ◌≺◌, ◌≼◌, nought}
use cryptobot_v.Exchange.Json.{
  Json, arr, str, no_items, Decoder, get_or, elements, each, text_key, last_of,
}
use cryptobot_v.Strategy.Position.{StrategyPosition, invested_quote_cost}
use cryptobot_v.Runtime.Orchestrator.{split_symbol, default_quotes}
use cryptobot_v.Runtime.Service.{Exit, TickReport}

-- `BinanceAccount`, without its client
pub record BinanceAccount (D : Type 0) : Type 0 where
  pub quote_asset : Text
  pub balance : Option D
  pub used : List (Text × D)
  pub slots : List (Text × ℕ)

module _ {D : Type 0} where
  unfoldable pub init_account : Text → BinanceAccount D
  init_account quote_asset = record {
    quote_asset = quote_asset;
    balance = none;
    used = [];
    slots = [];
  }

module _ {D : Type 0} ⦃d : Num D⦄ where
  unfoldable pub used_capital : BinanceAccount D → Text → D
  used_capital a symbol = Dict.get_or symbol a.used nought

  unfoldable pub open_and_reserved_slots : BinanceAccount D → Text → ℕ
  open_and_reserved_slots a symbol = Dict.get_or symbol a.slots 0

module _ {F D : Type 0} ⦃d : Num D⦄ where
  -- The two loops of `apply_report`; `max(0, slots - 1)` is the difference of naturals.
  unfoldable pub follow_entries : List (StrategyPosition F D) → BinanceAccount D → BinanceAccount D
  unfolding used_capital open_and_reserved_slots
  follow_entries [] a = a
  follow_entries (p ∷ ps) a = follow_entries ps (record a {
    used = Dict.put p.symbol (used_capital a p.symbol ⊕ invested_quote_cost p.entry) a.used;
    slots = Dict.put p.symbol (open_and_reserved_slots a p.symbol + 1) a.slots;
  })

  unfoldable pub follow_exits : List (Exit F D) → BinanceAccount D → BinanceAccount D
  unfolding used_capital open_and_reserved_slots
  follow_exits [] a = a
  follow_exits ((p, pnl) ∷ exits) a = follow_exits exits (record a {
    used = Dict.put p.symbol (used_capital a p.symbol ⊖ invested_quote_cost p.entry) a.used;
    slots = Dict.put p.symbol (open_and_reserved_slots a p.symbol - 1) a.slots;
  })

  unfoldable pub apply_report : TickReport F D → BinanceAccount D → BinanceAccount D
  unfolding follow_entries follow_exits
  apply_report report a = follow_exits report.exits (follow_entries report.entries a)

module _ {F D : Type 0} ⦃d : Num D⦄ (dec : Decoder F D) where
  -- `_as_decimal(entry.get(key, "0"))`
  abbrev pub amount_of : Text → Json → Result D
  amount_of key entry = get_or key entry (str (codes "0")) >>= dec.decimal_of

  -- The loop over the balances, up to the first one of the asset.
  unfoldable pub first_balance : Text → (Json → Result D) → List Json → Result D
  first_balance asset amount [] = ok nought
  first_balance asset amount (entry ∷ entries) = do
    key ← text_key (codes "asset") entry
    let rest = first_balance asset amount entries
    elim key [
      | none ↦ rest
      | some t ↦ elim (text_eq t asset) [ true ↦ amount entry | false ↦ rest ]
    ]

  abbrev pub balances : Json → Result (List Json)
  balances account = get_or (codes "balances") account (arr no_items) >>= elements

  -- `refresh_balance` of an account that is given
  unfoldable pub refresh_balance : Json → BinanceAccount D → Result (BinanceAccount D)
  unfolding first_balance
  refresh_balance account a = do
    entries ← balances account
    balance ← first_balance a.quote_asset (amount_of (codes "free")) entries
    ok (record a { balance = some balance })

  -- `fetch_total_quote` of the account that the client returns
  unfoldable pub total_quote : Text → Json → Result D
  unfolding first_balance
  total_quote quote_asset account = do
    entries ← balances account
    first_balance quote_asset
        (λ entry. do
          free ← amount_of (codes "free") entry
          locked ← amount_of (codes "locked") entry
          ok (free ⊕ locked))
        entries

  -- `{b.get("asset"): _as_decimal(b.get("free", "0")) for b in …}`
  unfoldable pub free_balances : Json → Result (List (Option Text × D))
  free_balances account = do
    entries ← balances account
    each
        (λ entry. do
          key ← text_key (codes "asset") entry
          free ← amount_of (codes "free") entry
          ok (key, free))
        entries

-- `{symbol}: exchange {base} balance {actual} < expected {expected}`
pub record Shortfall (D : Type 0) : Type 0 where
  pub symbol : Text
  pub base_asset : Text
  pub actual : D
  pub expected : D

pub record ReconcileResult (D : Type 0) : Type 0 where
  pub clean : Bool
  pub problems : List (Shortfall D)

module _ {D : Type 0} ⦃d : Num D⦄ where
  -- `free.get(base_asset, Decimal("0"))`
  abbrev pub actual_qty : List (Option Text × D) → Text → D
  actual_qty free asset = elim (last_of asset free) [ none ↦ nought | some q ↦ q ]

module _ {F D : Type 0} ⦃d : Num D⦄ where
  -- `sum(p.entry.sellable_base_qty for p in positions)`
  abbrev pub expected_qty : List (StrategyPosition F D) → D
  expected_qty positions =
      d.sum (map (λ (p : StrategyPosition F D). p.entry.sellable_base_qty) positions)

  -- One round of the loop.
  unfoldable pub shortfall_of :
      List (Option Text × D) → D → Text → List (StrategyPosition F D) → Result (List (Shortfall D))
  shortfall_of free tolerance symbol positions =
      let expected = expected_qty positions in
      elim (expected ≼ nought) [
        | true ↦ ok []
        | false ↦ (do
          (base_asset, quote) ← split_symbol symbol default_quotes
          let actual = actual_qty free base_asset
          ok (
              if actual ≺ expected ⊗ (d.of_ℕ 1 ⊖ tolerance)
              then record {
                symbol = symbol;
                base_asset = base_asset;
                actual = actual;
                expected = expected;
              }
                ∷ []
              else []))
      ]

  unfoldable pub shortfalls :
      List (Option Text × D)
      → D
      → List (Text × List (StrategyPosition F D))
      → Result (List (Shortfall D))
  unfolding shortfall_of
  shortfalls free tolerance [] = ok []
  shortfalls free tolerance ((symbol, positions) ∷ rest) = do
    problems ← shortfall_of free tolerance symbol positions
    more ← shortfalls free tolerance rest
    ok (problems ++ more)

module _ {F D : Type 0} ⦃d : Num D⦄ (dec : Decoder F D) where
  -- `reconcile_positions` with the account given
  unfoldable pub reconcile_positions :
      Json → List (Text × List (StrategyPosition F D)) → D → Result (ReconcileResult D)
  unfolding free_balances shortfalls
  reconcile_positions account positions tolerance = do
    free ← free_balances dec account
    problems ← shortfalls free tolerance positions
    ok (record { clean = is_empty problems; problems = problems })
