-- ===== src/Runtime/Metrics/Serialized.antt =====
-- src/cryptobot/runtime/metrics.py, the `as_dict` methods: what the status server sends.
use cryptobot_v.Prelude.{ℕ, none, some, [], ◌∷◌, map}
use cryptobot_v.Prelude.Text.{Text, codes}
use cryptobot_v.Exchange.Json.{Json, null, num, str, arr, obj, items_of, fields_of}
use cryptobot_v.Strategy.Position.{PositionState, opened, exit_armed, closed}
use cryptobot_v.Runtime.Metrics.{TradeRecord, OpenPositionView, StatusSnapshot}

-- `position.state.value`
unfoldable pub state_value : PositionState → Text
state_value opened = codes "OPEN"
state_value exit_armed = codes "EXIT_ARMED"
state_value closed = codes "CLOSED"

-- How the interpreter writes numbers: `str` of a Decimal, and integers and floats in JSON.
pub record Writer (F D : Type 0) : Type 0 where
  pub decimal_text : D → Text
  pub int_text : ℕ → Text
  pub float_text : F → Text

module _ {F D : Type 0} (w : Writer F D) where
  unfoldable pub trade_as_dict : TradeRecord D → Json
  trade_as_dict t = obj (
      fields_of (
        (codes "symbol", str t.symbol)
        ∷ (codes "entry_open_time", num (w.int_text t.entry_open_time))
        ∷ (codes "entry_price", str (w.decimal_text t.entry_price))
        ∷ (codes "qty", str (w.decimal_text t.qty))
        ∷ (codes "invested_quote", str (w.decimal_text t.invested_quote))
        ∷ (codes "net_pnl", str (w.decimal_text t.net_pnl))
        ∷ (codes "closed_at_ms", num (w.int_text t.closed_at_ms))
        ∷ []))

  unfoldable pub view_as_dict : OpenPositionView D → Json
  unfolding state_value
  view_as_dict v = obj (
      fields_of (
        (codes "symbol", str v.symbol)
        ∷ (codes "state", str (state_value v.state))
        ∷ (codes "entry_price", str (w.decimal_text v.entry_price))
        ∷ (codes "qty", str (w.decimal_text v.qty))
        ∷ (codes "invested_quote", str (w.decimal_text v.invested_quote))
        ∷ (
          codes "estimated_net_pnl",
          (elim v.estimated_net_pnl [ none ↦ null | some e ↦ str (w.decimal_text e) ]),
        )
        ∷ []))

  unfoldable pub snapshot_as_dict : StatusSnapshot F D → Json
  unfolding view_as_dict
  snapshot_as_dict s = obj (
      fields_of (
        (codes "generated_at_ms", num (w.int_text s.generated_at_ms))
        ∷ (codes "available_quote", str (w.decimal_text s.available_quote))
        ∷ (codes "open_positions", arr (items_of (map view_as_dict s.open_positions)))
        ∷ (codes "open_invested_quote", str (w.decimal_text s.open_invested_quote))
        ∷ (
          codes "estimated_unrealized_net_pnl",
          str (w.decimal_text s.estimated_unrealized_net_pnl),
        )
        ∷ (codes "realized_trades", num (w.int_text s.realized_trades))
        ∷ (codes "realized_net_pnl", str (w.decimal_text s.realized_net_pnl))
        ∷ (codes "wins", num (w.int_text s.wins))
        ∷ (codes "losses", num (w.int_text s.losses))
        ∷ (codes "win_rate", num (w.float_text s.win_rate))
        ∷ []))
