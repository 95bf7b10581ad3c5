-- ===== src/Runtime/Live/Ledger.antt =====
-- The account of the live runner and that of the paper runner, src/cryptobot/runtime/live.py and
-- paper.py: two implementations of `AccountPort` that follow the same reports.
use cryptobot_v.Prelude.{◌≡◌, refl, List, [], ◌∷◌}
use cryptobot_v.Prelude.Text.{Text}
use cryptobot_v.Number.{Num}
use cryptobot_v.Strategy.Position.{StrategyPosition}
use cryptobot_v.Runtime.Service.{Exit, TickReport}
use cryptobot_v.Runtime.Paper
use cryptobot_v.Runtime.Paper.{LedgerAccount}
use cryptobot_v.Runtime.Live
use cryptobot_v.Runtime.Live.{BinanceAccount, follow_entries, follow_exits}

-- Two accounts that answer alike: the same capital in use and the same slots.
abbrev pub Agree : {D : Type 0} → BinanceAccount D → LedgerAccount D → Type 0
Agree a b = (a.used ≡ b.used) × (a.slots ≡ b.slots)

module _ {F D : Type 0} ⦃d : Num D⦄ where
  entries-Agree :
      (ps : List (StrategyPosition F D)) (a : BinanceAccount D) (b : LedgerAccount D)
      → Agree a b
      → Agree (follow_entries ps a) (Paper.open_all ps b)
  unfolding follow_entries Paper.open_all Paper.record_open Live.used_capital Paper.used_capital
      Live.open_and_reserved_slots Paper.open_and_reserved_slots
  entries-Agree [] a b agree = agree
  entries-Agree (p ∷ ps) a b (used, slots) = entries-Agree ps _ _ (rw used refl, rw slots refl)

  exits-Agree :
      (exits : List (Exit F D)) (a : BinanceAccount D) (b : LedgerAccount D)
      → Agree a b
      → Agree (follow_exits exits a) (Paper.close_all exits b)
  unfolding follow_exits Paper.close_all Paper.record_close Live.used_capital Paper.used_capital
      Live.open_and_reserved_slots Paper.open_and_reserved_slots
  exits-Agree [] a b agree = agree
  exits-Agree (x ∷ exits) a b (used, slots) = exits-Agree exits _ _ (rw used refl, rw slots refl)

  -- The account after a list of reports.
  abbrev pub all_live : List (TickReport F D) → BinanceAccount D → BinanceAccount D
  all_live [] a = a
  all_live (report ∷ reports) a = all_live reports (Live.apply_report report a)

  abbrev pub all_paper : List (TickReport F D) → LedgerAccount D → LedgerAccount D
  all_paper [] b = b
  all_paper (report ∷ reports) b = all_paper reports (Paper.apply_report report b)

  reports-Agree :
      (reports : List (TickReport F D)) (a : BinanceAccount D) (b : LedgerAccount D)
      → Agree a b
      → Agree (all_live reports a) (all_paper reports b)
  unfolding Live.apply_report Paper.apply_report
  reports-Agree [] a b agree = agree
  reports-Agree (report ∷ reports) a b agree =
      reports-Agree reports _ _
        (exits-Agree report.exits _ _ (entries-Agree report.entries a b agree))

  -- Whatever reports are applied, the live account and the paper account answer alike on the capital in
  -- use and on the slots of every symbol, if they did before: only the balance has another source.
  pub apply_reports-Agree :
      (reports : List (TickReport F D)) (a : BinanceAccount D) (b : LedgerAccount D) (symbol : Text)
      → Agree a b
      → (Live.used_capital (all_live reports a) symbol
          ≡ Paper.used_capital (all_paper reports b) symbol)
        × (Live.open_and_reserved_slots (all_live reports a) symbol
            ≡ Paper.open_and_reserved_slots (all_paper reports b) symbol)
  unfolding Live.used_capital Paper.used_capital Live.open_and_reserved_slots
      Paper.open_and_reserved_slots
  apply_reports-Agree reports a b symbol agree =
      let (used, slots) = reports-Agree reports a b agree in (rw used refl, rw slots refl)
