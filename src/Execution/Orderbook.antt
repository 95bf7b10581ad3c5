-- ===== src/Execution/Orderbook.antt =====
-- src/cryptobot/execution/orderbook.py. A level is a price and a quantity.
use cryptobot_v.Prelude.{Bool, List, [], ◌∷◌, if◌then◌else◌}
use cryptobot_v.Prelude.Result.{Result, ok, raised, value_error}
use cryptobot_v.Number.{Num, ◌⊕◌, ◌⊖◌, ◌⊗◌, ◌≺◌, ◌≼◌, nought}

pub record SellEstimate (D : Type 0) : Type 0 where
  pub gross_proceeds : D
  pub filled_qty : D
  pub fully_filled : Bool

abbrev pub Levels : Type 0 → Type 0
Levels D = List (D × D)

pub record OrderBook (D : Type 0) : Type 0 where
  pub bids : Levels D
  pub asks : Levels D

abbrev pub empty_book : {D : Type 0} → OrderBook D
empty_book = record { bids = []; asks = [] }

module _ {D : Type 0} ⦃num : Num D⦄ where
  -- `sorted(…, key=price, reverse=True)`: highest price first, and levels of one price in their order
  unfoldable pub insert_level : D × D → Levels D → Levels D
  insert_level l [] = l ∷ []
  insert_level l (m ∷ ms) = if l.0 ≺ m.0 then m ∷ insert_level l ms else l ∷ m ∷ ms

  unfoldable pub sort_levels : Levels D → Levels D
  unfolding insert_level
  sort_levels [] = []
  sort_levels (l ∷ ls) = insert_level l (sort_levels ls)

  unfoldable pub from_levels : Levels D → Levels D → OrderBook D
  unfolding sort_levels
  from_levels bids asks = record { bids = sort_levels bids; asks = asks }

  -- The loop over the bids: what remains to be sold, and the proceeds so far.
  unfoldable pub walk_bids : Levels D → D → D → D × D
  walk_bids [] remaining proceeds = (remaining, proceeds)
  walk_bids ((price, available) ∷ bids) remaining proceeds =
      let taken = if remaining ≺ available then remaining else available in
      if remaining ≼ nought
      then (remaining, proceeds)
      else walk_bids bids (remaining ⊖ taken) (proceeds ⊕ taken ⊗ price)

  unfoldable pub estimate_sell_proceeds : OrderBook D → D → Result (SellEstimate D)
  unfolding walk_bids
  estimate_sell_proceeds book base_qty =
      let (remaining, proceeds) = walk_bids book.bids base_qty nought in
      if base_qty ≺ nought
      then raised value_error
      else ok (record {
        gross_proceeds = proceeds;
        filled_qty = base_qty ⊖ remaining;
        fully_filled = remaining ≼ nought;
      })
