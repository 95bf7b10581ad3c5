-- ===== src/Exchange/Filters.antt =====
-- src/cryptobot/exchange/filters.py. `quantize` at the end of the rounding changes how many zeros a
-- decimal shows and not its value, which is a multiple of the increment already.
pub mod Info
use cryptobot_v.Prelude.{Bool, true, false, not, ◌&&◌, ◌||◌, if◌then◌else◌}
use cryptobot_v.Prelude.Text.{Text}
use cryptobot_v.Number.{Num, ◌⊗◌, ◌⊘◌, ◌≺◌, ◌≼◌, ◌≈◌, nought}

pub record SymbolFilters (D : Type 0) : Type 0 where
  pub symbol : Text
  pub step_size : D
  pub min_qty : D
  pub max_qty : D
  pub tick_size : D
  pub min_price : D
  pub max_price : D
  pub min_notional : D

module _ {D : Type 0} ⦃d : Num D⦄ where
  unfoldable pub floor_to_increment : D → D → D
  floor_to_increment value increment =
      if increment ≼ nought then value else d.trunc (value ⊘ increment) ⊗ increment

  unfoldable pub round_quantity : SymbolFilters D → D → D
  unfolding floor_to_increment
  round_quantity f qty = floor_to_increment qty f.step_size

  unfoldable pub round_price : SymbolFilters D → D → D
  unfolding floor_to_increment
  round_price f price = floor_to_increment price f.tick_size

  unfoldable pub quantity_ok : SymbolFilters D → D → Bool
  unfolding floor_to_increment
  quantity_ok f q =
      if (q ≺ f.min_qty) || (f.max_qty ≺ q)
      then false
      else if (nought ≺ f.step_size) && not (floor_to_increment q f.step_size ≈ q)
      then false
      else true

  unfoldable pub notional_ok : SymbolFilters D → D → D → Bool
  notional_ok f price qty = f.min_notional ≼ price ⊗ qty

  unfoldable pub accepts_order : SymbolFilters D → D → D → Bool
  unfolding quantity_ok notional_ok
  accepts_order f price qty = quantity_ok f qty && notional_ok f price qty
