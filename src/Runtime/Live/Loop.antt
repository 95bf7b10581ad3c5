-- ===== src/Runtime/Live/Loop.antt =====
-- src/cryptobot/runtime/live.py, build_live_service and run_live. Behind the ports of the live service lie
-- the exchange, a state of any type `R`, and the account that follows it. The
-- clock is the environment's.
use cryptobot_v.Prelude.{ℕ, zero, suc, none, some, List, [], ◌∷◌}
use cryptobot_v.Prelude.Text.{Text}
use cryptobot_v.Prelude.Dict
use cryptobot_v.Prelude.Result.{ok, raised}
use cryptobot_v.Prelude.Exec.{Exec, pure, lift, get_state, modify, ◌>>=◌, ◌>>◌}
use cryptobot_v.Number.{Num, nought}
use cryptobot_v.Exchange.Json.{Json, Decoder}
use cryptobot_v.Exchange.Rest
use cryptobot_v.Exchange.Rest.{RestClient, rest_candles, rest_order_book, rest_buy, rest_sell}
use cryptobot_v.Strategy.Position.{StrategyPosition}
use cryptobot_v.Runtime.Ports.{Ports}
use cryptobot_v.Runtime.Orchestrator.{call}
use cryptobot_v.Runtime.Service.{
  Service, ServiceConfig, SizingPolicy, OperationalStatus, TickReport, init_service, open_positions,
  on_runtime, tick,
}
use cryptobot_v.Runtime.Live.{
  BinanceAccount, ReconcileResult, init_account, used_capital, open_and_reserved_slots,
  apply_report, refresh_balance, reconcile_positions,
}

pub record LiveWorld (D R : Type 0) : Type 0 where
  pub remote : R
  pub account : BinanceAccount D

module _ {D R : Type 0} where
  -- An action of the exchange.
  abbrev pub on_remote : {A : Type 0} → Exec R A → Exec (LiveWorld D R) A
  on_remote m w = let (a, r) = m w.remote in (a, record w { remote = r })

module _ {F D R : Type 0} ⦃d : Num D⦄ (dec : Decoder F D) where
  -- `account.refresh_balance(raw_account)`
  unfoldable pub refresh : Json → Exec (LiveWorld D R) (Unit {0})
  unfolding refresh_balance
  refresh raw w = elim (refresh_balance dec raw w.account) [
    | ok a ↦ (ok tt, record w { account = a })
    | raised e ↦ (raised e, w)
  ]

  unfoldable pub available_quote_balance : RestClient R → Exec (LiveWorld D R) D
  unfolding refresh
  available_quote_balance client w = elim w.account.balance [
    | some balance ↦ (ok balance, w)
    | none ↦
        (do
          raw ← on_remote (Rest.account client)
          refresh raw
          refreshed ← get_state
          elim refreshed.account.balance [ some balance ↦ pure balance | none ↦ pure nought ])
          w
  ]

module _ {F D R : Type 0} ⦃f : Num F⦄ ⦃d : Num D⦄ (dec : Decoder F D) (str_of : D → Text) where
  -- The ports of `build_live_service`
  abbrev pub live_ports : RestClient R → Exec R ℕ → Text → Ports F D (LiveWorld D R)
  live_ports client clock interval = record {
    get_closed_candles =
        λ symbol limit. on_remote (rest_candles dec str_of client clock interval symbol limit);
    get_order_book = λ symbol. on_remote (rest_order_book dec str_of client symbol);
    available_quote_balance = available_quote_balance dec client;
    used_capital = λ symbol w. (ok (used_capital w.account symbol), w);
    open_and_reserved_slots = λ symbol w. (ok (open_and_reserved_slots w.account symbol), w);
    market_buy = λ symbol amount. on_remote (rest_buy dec str_of client symbol amount);
    market_sell = λ symbol qty. on_remote (rest_sell dec str_of client symbol qty);
    now_ms = on_remote clock;
  }

module _ {F D R : Type 0} where
  unfoldable pub build_live_service : ServiceConfig F D → Text → R → Service F D (LiveWorld D R)
  unfolding init_service init_account
  build_live_service config quote_asset remote =
      init_service config (record { remote = remote; account = init_account quote_asset })

  -- `{s: service.open_positions(s) for s in symbols}`, into a dictionary
  unfoldable pub tracked :
      Service F D (LiveWorld D R)
      → List Text
      → List (Text × List (StrategyPosition F D))
      → List (Text × List (StrategyPosition F D))
  unfolding open_positions
  tracked s [] found = found
  tracked s (symbol ∷ symbols) found =
      tracked s symbols (Dict.put symbol (open_positions s symbol) found)

module _ {F D R : Type 0} ⦃d : Num D⦄ where
  -- `account.apply_report(report)`
  unfoldable pub settle : TickReport F D → Service F D (LiveWorld D R) → Service F D (LiveWorld D R)
  unfolding apply_report
  settle report s = record s {
    runtime = record s.runtime {
      world = record s.runtime.world { account = apply_report report s.runtime.world.account };
    };
  }

module _ {F D R : Type 0} ⦃d : Num D⦄ (dec : Decoder F D) (client : RestClient R)
    (symbols : List Text) (tolerance : D) where
  -- The body of the loop up to the tick: what the exchange says, and whether it agrees.
  unfoldable pub reconcile : Exec (Service F D (LiveWorld D R)) (ReconcileResult D)
  unfolding refresh tracked reconcile_positions
  reconcile = do
    raw ← on_runtime (call (on_remote (Rest.account client)))
    on_runtime (call (refresh dec raw))
    s ← get_state
    lift (reconcile_positions dec raw (tracked s symbols []) tolerance)

module _ {F D R : Type 0} ⦃f : Num F⦄ ⦃d : Num D⦄ (dec : Decoder F D) (str_of : D → Text)
    (client : RestClient R) (clock : Exec R ℕ) (interval : Text) (config : ServiceConfig F D)
    (sizing : SizingPolicy F D) (symbols : List Text) (base : OperationalStatus)
    (tolerance : D) where
  -- The body of the loop of `run_live`.
  unfoldable pub live_tick : Exec (Service F D (LiveWorld D R)) (TickReport F D × ReconcileResult D)
  unfolding reconcile tick settle
  live_tick = do
    recon ← reconcile dec client symbols tolerance
    report ←
        tick (live_ports dec str_of client clock interval) config sizing
          (record base { reconciliation_clean = recon.clean })
    modify (settle report)
    pure (report, recon)

  -- `run_live` for a number of ticks, without the pauses: what `on_report` is called with.
  unfoldable pub run_live :
      ℕ → Exec (Service F D (LiveWorld D R)) (List (TickReport F D × ReconcileResult D))
  unfolding live_tick
  run_live zero = pure []
  run_live (suc ticks) = do result ← live_tick; more ← run_live ticks; pure (result ∷ more)
