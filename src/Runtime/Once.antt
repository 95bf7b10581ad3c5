-- ===== src/Runtime/Once.antt =====
-- One buy for a coin and a candle, as long as nothing is raised.
use cryptobot_v.Prelude.{
  ℕ, ◌≡◌, refl, sym, subst, inl, inr, Bool, true, false, not, ◌&&◌, ◌||◌, Option, some, List, [],
  ◌∷◌, arith, ◌==◌, Bool-cases,
}
use cryptobot_v.Prelude.Text.{Text, text_eq}
use cryptobot_v.Prelude.Result.{Result, ok, raised}
use cryptobot_v.Prelude.Keeps.{Outcome}
use cryptobot_v.Number.{Num}
use cryptobot_v.Execution.Gates.{
  ProcessedCandleGuard, already_processed, mark_processed, empty_guard,
}
use cryptobot_v.Execution.Gates.Laws.{mark_processed_lem}
use cryptobot_v.Strategy.Position.{StrategyPosition}
use cryptobot_v.Runtime.Ports.{Ports}
use cryptobot_v.Runtime.Rules.{Invariant, on_runtimes, on_services}
use cryptobot_v.Runtime.Rules.Ticks.{run-Keeps}
use cryptobot_v.Runtime.Service.{
  Service, ServiceConfig, SizingPolicy, OperationalStatus, TickReport, run, init_service,
}
use cryptobot_v.Runtime.Orchestrator.{Order, bought, sold, Runtime}
use cryptobot_v.Runtime.Orchestrator.Enter.{
  try_enter-Enters, Enters, idle, failed, failed_after_order, entered,
}

module _ {D : Type 0} where
  -- whether the candle of the symbol was bought
  unfoldable pub bought_in : Text → ℕ → List (Order D) → Bool
  bought_in symbol time [] = false
  bought_in symbol time (bought s t amount ∷ orders) =
      (text_eq s symbol && (t == time)) || bought_in symbol time orders
  bought_in symbol time (sold s qty ∷ orders) = bought_in symbol time orders

  -- No two buys are of the same candle of the same symbol.
  unfoldable pub distinct_buys : List (Order D) → Bool
  unfolding bought_in
  distinct_buys [] = true
  distinct_buys (bought s t amount ∷ orders) = not (bought_in s t orders) && distinct_buys orders
  distinct_buys (sold s qty ∷ orders) = distinct_buys orders

  -- The guard knows every candle that was bought, and none was bought twice.
  pub record Covers (g : ProcessedCandleGuard) (orders : List (Order D)) : Type 0 where
    pub known : (s : Text) (t : ℕ) → bought_in s t orders ≡ true → already_processed g s t ≡ true
    pub distinct : distinct_buys orders ≡ true

  Covers-moved :
      {g g' : ProcessedCandleGuard} {orders orders' : List (Order D)}
      → Covers g orders
      → g' ≡ g
      → orders' ≡ orders
      → Covers g' orders'
  Covers-moved {orders' = orders'} c e o =
      subst (λ x. Covers x orders') (sym e) (subst (Covers _) (sym o) c)

  pub Covers-sold :
      (g : ProcessedCandleGuard) (orders : List (Order D)) (s : Text) (qty : D)
      → Covers g orders
      → Covers g (sold s qty ∷ orders)
  unfolding distinct_buys
  Covers-sold g orders s qty c = record { known = c.known; distinct = c.distinct }

  Covers-bought :
      (g : ProcessedCandleGuard) (orders : List (Order D)) (s : Text) (t : ℕ) (amount : D)
      → already_processed g s t ≡ false
      → Covers g orders
      → Covers (mark_processed g s t) (bought s t amount ∷ orders)
  unfolding distinct_buys
  Covers-bought g orders s t amount new c = record {
    known = λ s' t' b.
        let marks = (mark_processed_lem g s s' t t').0 in
        let before = c.known s' t' in ground arith;
    distinct =
        let unbought : bought_in s t orders ≡ false = elim (Bool-cases (bought_in s t orders)) [
          | inl b ↦ cc (c.known s t b, new)
          | inr n ↦ n
        ] in
        rw (unbought, c.distinct);
  }

module _ {D : Type 0} where
  abbrev once : Invariant D
  once = record {
    Good = Covers;
    Left = λ g orders. Unit {0};
    weaken = λ g orders c. tt;
    selling = Covers-sold;
    Own = λ g. Unit {0};
  }

  Enters-Outcome :
      {F W : Type 0} (symbol : Text) (amount : D) (r : Runtime D W)
      (out : Result (Option (StrategyPosition F D)) × Runtime D W)
      → Enters symbol amount r.guard r.orders out
      → Covers r.guard r.orders
      → Outcome (on_runtimes once) out
  Enters-Outcome symbol amount r (ok p, r') (idle e g o) c = Covers-moved c g o
  Enters-Outcome symbol amount r (ok p, r') (failed e x g o) c = cc
  Enters-Outcome symbol amount r (ok p, r') (failed_after_order e t n x g o) c = cc
  Enters-Outcome symbol amount r (ok p, r') (entered q t new x g o _ _ _) c =
      Covers-moved (Covers-bought r.guard r.orders symbol t amount new c) g o
  Enters-Outcome symbol amount r (raised e, r') h c = tt

module _ {F D W : Type 0} ⦃f : Num F⦄ ⦃d : Num D⦄ (ports : Ports F D W) (config : ServiceConfig F D)
    (sizing : SizingPolicy F D) where
  -- A service that starts afresh and runs any number of ticks without an exception has not bought any
  -- candle of a symbol twice, whatever the ports, the sizing policy and the statuses are.
  pub run-distinct_buys :
      (statuses : List OperationalStatus) (world : W) (reports : List (TickReport F D))
      (s : Service F D W)
      → run ports config sizing statuses (init_service config world) ≡ (ok reports, s)
      → distinct_buys s.runtime.orders ≡ true
  unfolding init_service distinct_buys
  run-distinct_buys statuses world reports s e =
      let fresh : Covers {D = D} empty_guard [] = record {
        known = λ symbol time b. unfold bought_in in cc;
        distinct = refl;
      } in
      let keeps =
        run-Keeps once ports config sizing statuses
          (λ status symbol params gates amount mode cs follows r c.
            Enters-Outcome symbol amount r _
              (try_enter-Enters ports symbol params gates amount mode config.commission_rates
                (some cs) r)
              c) in
      (subst (Outcome (on_services once)) e
        (keeps (init_service config world) (fresh, tt))).0.distinct
