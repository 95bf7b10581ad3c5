-- ===== src/Cli/Paper.antt =====
-- src/cryptobot/cli.py, build_paper_service and run_paper: real prices of the REST client, a simulated
-- account and executor.
use cryptobot_v.Prelude.{ℕ, List, [], ◌∷◌}
use cryptobot_v.Prelude.Text.{Text, codes}
use cryptobot_v.Prelude.Result.{ok}
use cryptobot_v.Prelude.Exec.{Exec, pure, lift, modify, ◌>>=◌, ◌>>◌}
use cryptobot_v.Number.{Num, nought}
use cryptobot_v.Market.Candle.{Candle}
use cryptobot_v.Execution.Orderbook.{OrderBook}
use cryptobot_v.Exchange.Json.{Decoder}
use cryptobot_v.Exchange.Rest.{RestClient, rest_candles, rest_order_book}
use cryptobot_v.Runtime.Ports.{Ports}
use cryptobot_v.Runtime.Service.{
  Service, ServiceConfig, SizingPolicy, OperationalStatus, TickReport, init_service, tick,
}
use cryptobot_v.Runtime.Paper
use cryptobot_v.Runtime.Paper.{Side, buy, sell, LedgerAccount, init_ledger, apply_report}

pub record PaperWorld (D R : Type 0) : Type 0 where
  pub remote : R
  pub account : LedgerAccount D

module _ {D R : Type 0} where
  abbrev pub on_remote : {A : Type 0} → Exec R A → Exec (PaperWorld D R) A
  on_remote m w = let (a, r) = m w.remote in (a, record w { remote = r })

module _ {F D R : Type 0} ⦃f : Num F⦄ ⦃d : Num D⦄ (dec : Decoder F D) (str_of : D → Text)
    (decimal_of : F → D) (client : RestClient R) (clock : Exec R ℕ) (interval : Text) where
  -- The candles that `_reference_price` asks for: only when its side of the book is empty.
  abbrev pub fallback : Side → Text → OrderBook D → Exec R (List (Candle F))
  fallback buy symbol book = elim book.asks [
    | [] ↦ rest_candles dec str_of client clock interval symbol 1
    | level ∷ levels ↦ pure []
  ]
  fallback sell symbol book = elim book.bids [
    | [] ↦ rest_candles dec str_of client clock interval symbol 1
    | level ∷ levels ↦ pure []
  ]

  -- The ports of `build_paper_service`; the executor's fee rate is its default, 0.
  abbrev pub paper_ports : Ports F D (PaperWorld D R)
  paper_ports = record {
    get_closed_candles =
        λ symbol limit. on_remote (rest_candles dec str_of client clock interval symbol limit);
    get_order_book = λ symbol. on_remote (rest_order_book dec str_of client symbol);
    available_quote_balance = λ w. lift (ok w.account.quote) w;
    used_capital = λ symbol w. lift (ok (Paper.used_capital w.account symbol)) w;
    open_and_reserved_slots =
        λ symbol w. lift (ok (Paper.open_and_reserved_slots w.account symbol)) w;
    market_buy = λ symbol amount. on_remote (do
      book ← rest_order_book dec str_of client symbol
      candles ← fallback buy symbol book
      lift (Paper.market_buy decimal_of (codes "USDT") nought book candles amount));
    market_sell = λ symbol qty. on_remote (do
      book ← rest_order_book dec str_of client symbol
      candles ← fallback sell symbol book
      lift (Paper.market_sell decimal_of (codes "USDT") nought book candles qty));
    now_ms = on_remote clock;
  }

module _ {F D R : Type 0} ⦃d : Num D⦄ where
  unfoldable pub build_paper_service : ServiceConfig F D → D → R → Service F D (PaperWorld D R)
  unfolding init_service init_ledger
  build_paper_service config quote_balance remote =
      init_service config (record { remote = remote; account = init_ledger quote_balance })

module _ {F D R : Type 0} ⦃f : Num F⦄ ⦃d : Num D⦄ (ports : Ports F D (PaperWorld D R))
    (config : ServiceConfig F D) (sizing : SizingPolicy F D) where
  unfoldable pub paper_tick :
      OperationalStatus → Exec (Service F D (PaperWorld D R)) (TickReport F D)
  unfolding tick apply_report
  paper_tick status = do
    report ← tick ports config sizing status
    modify (λ (s : Service F D (PaperWorld D R)). record s {
      runtime = record s.runtime {
        world = record s.runtime.world { account = apply_report report s.runtime.world.account };
      };
    })
    pure report

  -- `run_paper` without the pauses, with what the status provider gives before each tick
  unfoldable pub run_paper :
      List OperationalStatus → Exec (Service F D (PaperWorld D R)) (List (TickReport F D))
  unfolding paper_tick
  run_paper [] = pure []
  run_paper (status ∷ rest) = do
    report ← paper_tick status
    reports ← run_paper rest
    pure (report ∷ reports)
