-- ===== src/Exchange/Fills.antt =====
-- src/cryptobot/exchange/fills.py
pub mod Fees
pub mod Entry
pub mod Raw
use cryptobot_v.Prelude.{Option, none, some, List, [], ◌∷◌, map, if◌then◌else◌}
use cryptobot_v.Prelude.Text.{Text, text_eq}
use cryptobot_v.Prelude.Dict
use cryptobot_v.Prelude.Result.{Result, ok, raised, value_error, raise_if, ◌>>=◌, ◌>>◌}
use cryptobot_v.Number.{Num, ◌⊕◌, ◌⊖◌, ◌⊗◌, ◌⊘◌, ◌≺◌, ◌≼◌, ◌≈◌, nought}
use cryptobot_v.Strategy.Position.{RealizedEntry, make_entry, invested_quote_cost}

pub record Fill (D : Type 0) : Type 0 where
  pub price : D
  pub qty : D
  pub commission : D
  pub commission_asset : Text

abbrev pub Rates : Type 0 → Type 0
Rates D = Option (List (Text × D))

-- `commission_rates[asset]`, if there is a map with that key
abbrev pub rate_for : {D : Type 0} → Text → Rates D → Option D
rate_for asset none = none
rate_for asset (some rates) = Dict.get asset rates

module _ {D : Type 0} ⦃d : Num D⦄ where
  unfoldable pub commission_in_quote : Fill D → Text → Text → D → Rates D → Result D
  commission_in_quote fill base_asset quote_asset avg_price commission_rates =
      let asset = fill.commission_asset in
      let converted : Result D = elim (rate_for asset commission_rates) [
        | none ↦ raised value_error
        | some rate ↦ ok (fill.commission ⊗ rate)
      ] in
      if fill.commission ≈ nought
      then ok nought
      else if text_eq asset quote_asset
      then ok fill.commission
      else if text_eq asset base_asset
      then ok (fill.commission ⊗ avg_price)
      else converted

  -- The loop over the fills: the fees in quote, from `fees` on.
  unfoldable pub total_fees : Text → Text → D → Rates D → D → List (Fill D) → Result D
  unfolding commission_in_quote
  total_fees base_asset quote_asset avg_price rates fees [] = ok fees
  total_fees base_asset quote_asset avg_price rates fees (fill ∷ fills) = do
    fee ← commission_in_quote fill base_asset quote_asset avg_price rates
    total_fees base_asset quote_asset avg_price rates (fees ⊕ fee) fills

  -- The same loop's commissions in the base asset.
  unfoldable pub base_commissions : Text → D → List (Fill D) → D
  base_commissions base_asset total [] = total
  base_commissions base_asset total (fill ∷ fills) =
      base_commissions base_asset
        (if text_eq fill.commission_asset base_asset then total ⊕ fill.commission else total) fills

  -- `sum(f.price * f.qty for f in fills)` and `sum(f.qty for f in fills)`
  abbrev pub notional : List (Fill D) → D
  notional fills = d.sum (map (λ (f : Fill D). f.price ⊗ f.qty) fills)

  abbrev pub quantity : List (Fill D) → D
  quantity fills = d.sum (map (λ (f : Fill D). f.qty) fills)

  unfoldable pub aggregate_entry : List (Fill D) → Text → Text → Rates D → Result (RealizedEntry D)
  unfolding total_fees base_commissions make_entry
  aggregate_entry [] base_asset quote_asset rates = raised value_error
  aggregate_entry (fill ∷ rest) base_asset quote_asset rates = do
    let fills = fill ∷ rest
    let filled_base = quantity fills
    let true_cost = notional fills
    raise_if (filled_base ≼ nought) value_error
    let avg_price = true_cost ⊘ filled_base
    fees_quote ← total_fees base_asset quote_asset avg_price rates nought fills
    make_entry (record {
      filled_base_qty = filled_base;
      avg_entry_price = avg_price;
      true_entry_cost = true_cost;
      entry_fees_quote = fees_quote;
      sellable_base_qty = filled_base ⊖ base_commissions base_asset nought fills;
    })

pub record RealizedPnL (D : Type 0) : Type 0 where
  pub gross_proceeds : D
  pub exit_fees_quote : D
  pub exit_qty : D
  pub invested_quote_cost : D
  pub net_pnl : D

module _ {D : Type 0} ⦃d : Num D⦄ where
  unfoldable pub slippage_vs_estimate : RealizedPnL D → D → D
  slippage_vs_estimate pnl estimated_net_pnl = pnl.net_pnl ⊖ estimated_net_pnl

  unfoldable pub realized_pnl :
      RealizedEntry D → List (Fill D) → Text → Text → Rates D → Result (RealizedPnL D)
  unfolding total_fees
  realized_pnl entry [] base_asset quote_asset rates = raised value_error
  realized_pnl entry (fill ∷ rest) base_asset quote_asset rates = do
    let sell_fills = fill ∷ rest
    let gross = notional sell_fills
    let exit_qty = quantity sell_fills
    let avg_exit = if nought ≺ exit_qty then gross ⊘ exit_qty else nought
    exit_fees ← total_fees base_asset quote_asset avg_exit rates nought sell_fills
    let invested = invested_quote_cost entry
    ok (record {
      gross_proceeds = gross;
      exit_fees_quote = exit_fees;
      exit_qty = exit_qty;
      invested_quote_cost = invested;
      net_pnl = gross ⊖ exit_fees ⊖ invested;
    })
