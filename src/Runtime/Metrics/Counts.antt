-- ===== src/Runtime/Metrics/Counts.antt =====
-- src/cryptobot/runtime/metrics.py: the figures of the tracker.
use mathlib.Core.List.{map-append, append_assoc, append-nil}
use cryptobot_v.Prelude.{
  ℕ, ◌+◌, ◌≡◌, refl, sym, ap, ◌∙◌, subst, Bool, List, [], ◌∷◌, ◌++◌, map, if◌then◌else◌, is_empty,
  length, length-map,
}
use cryptobot_v.Number.{Num, ◌⊘◌, ◌≺◌, nought}
use cryptobot_v.Runtime.Service.{TickReport, Exit}
use cryptobot_v.Runtime.Metrics.{
  TradeRecord, MetricsTracker, trade_of, init_tracker, record_report, num_trades, realized_net_pnl,
  wins, losses, won, lost, win_rate,
}

module _ {D : Type 0} where
  -- How many values pass the test.
  abbrev pub count : (D → Bool) → List D → ℕ
  count test [] = 0
  count test (x ∷ xs) = (if test x then 1 else 0) + count test xs

  abbrev pub net_of : TradeRecord D → D
  net_of t = t.net_pnl

module _ {F D : Type 0} where
  -- The profits of the exits in the reports, in order.
  abbrev pub profits_of : List (Exit F D) → List D
  profits_of [] = []
  profits_of ((position, pnl) ∷ exits) = pnl.net_pnl ∷ profits_of exits

  abbrev pub profits : List (TickReport F D × ℕ) → List D
  profits [] = []
  profits ((report, now_ms) ∷ reports) = profits_of report.exits ++ profits reports

-- The figures of a tracker that has seen these profits.
pub record IsAccount (F : Type 0) {D : Type 0} ⦃f : Num F⦄ ⦃d : Num D⦄ (m : MetricsTracker D)
    (ps : List D) : Type 0 where
  pub counted : num_trades m ≡ length ps
  pub total : realized_net_pnl m ≡ d.sum ps
  pub winning : wins m ≡ count (λ x. nought ≺ x) ps
  pub losing : losses m ≡ count (λ x. x ≺ nought) ps
  pub rate :
      win_rate {F = F} m
      ≡ (if is_empty ps then f.of_ℕ 0 else f.of_ℕ (count (λ x. nought ≺ x) ps) ⊘ f.of_ℕ (length ps))

module _ {D : Type 0} ⦃d : Num D⦄ where
  won-count : (ts : List (TradeRecord D)) → won ts ≡ count (λ x. nought ≺ x) (map net_of ts)
  won-count [] = refl
  won-count (t ∷ ts) = ap (λ n. (if nought ≺ t.net_pnl then 1 else 0) + n) (won-count ts)

  lost-count : (ts : List (TradeRecord D)) → lost ts ≡ count (λ x. x ≺ nought) (map net_of ts)
  lost-count [] = refl
  lost-count (t ∷ ts) = ap (λ n. (if t.net_pnl ≺ nought then 1 else 0) + n) (lost-count ts)

module _ {F D : Type 0} ⦃d : Num D⦄ where
  -- The tracker after some reports, each at its time.
  abbrev pub all_recorded : List (TickReport F D × ℕ) → MetricsTracker D → MetricsTracker D
  all_recorded [] m = m
  all_recorded ((report, now_ms) ∷ reports) m = all_recorded reports (record_report report now_ms m)

  net-trades :
      (now_ms : ℕ) (exits : List (Exit F D))
      → map net_of (map (trade_of now_ms) exits) ≡ profits_of exits
  unfolding trade_of
  net-trades now_ms [] = refl
  net-trades now_ms ((position, pnl) ∷ exits) =
      ap (λ xs. pnl.net_pnl ∷ xs) (net-trades now_ms exits)

  all_recorded-profits :
      (reports : List (TickReport F D × ℕ)) (m : MetricsTracker D)
      → map net_of (all_recorded reports m).trades ≡ map net_of m.trades ++ profits reports
  unfolding record_report
  all_recorded-profits [] m = sym (append-nil _)
  all_recorded-profits ((report, now_ms) ∷ reports) m =
      all_recorded-profits reports (record_report report now_ms m)
      ∙ ap (λ xs. xs ++ profits reports)
          (map-append net_of m.trades (map (trade_of now_ms) report.exits)
            ∙ ap (λ xs. map net_of m.trades ++ xs) (net-trades now_ms report.exits))
      ∙ append_assoc (map net_of m.trades) (profits_of report.exits) (profits reports)

module _ {F D : Type 0} ⦃f : Num F⦄ ⦃d : Num D⦄ where
  tracker-IsAccount : (m : MetricsTracker D) → IsAccount F m (map net_of m.trades)
  unfolding num_trades realized_net_pnl wins losses win_rate
  tracker-IsAccount m = record {
    counted = sym (length-map m.trades net_of);
    total = refl;
    winning = won-count m.trades;
    losing = lost-count m.trades;
    rate = by_trades m.trades;
  }
    where
      by_trades :
          (ts : List (TradeRecord D))
          → (if is_empty ts then f.of_ℕ 0 else f.of_ℕ (won ts) ⊘ f.of_ℕ (length ts)) ≡ (
              if is_empty (map net_of ts)
              then f.of_ℕ 0
              else f.of_ℕ (count (λ x. nought ≺ x) (map net_of ts))
                ⊘ f.of_ℕ (length (map net_of ts)))
      by_trades [] = refl
      by_trades (t ∷ ts) = rw (won-count (t ∷ ts), length-map (t ∷ ts) net_of) refl

  -- Whatever reports a new tracker records, its figures are those of the profits of the exits that the
  -- reports contain: their number, their sum, how many are above 0 and how many below, and the share of
  -- those above 0, which is 0 without exits.
  pub all_recorded-IsAccount :
      (reports : List (TickReport F D × ℕ))
      → IsAccount F (all_recorded reports init_tracker) (profits reports)
  all_recorded-IsAccount reports =
      subst (IsAccount F (all_recorded reports init_tracker))
        (all_recorded-profits reports init_tracker)
        (tracker-IsAccount (all_recorded reports init_tracker))
