-- ===== src/Runtime/Orchestrator/Enter.antt =====
-- What an attempt to enter does to the guard and to the orders.
use cryptobot_v.Prelude.{
  ℕ, ◌≡◌, refl, sym, subst, inl, inr, true, false, Option, none, some, List, ◌∷◌, arith, Bool-cases,
}
use cryptobot_v.Prelude.Text.{Text}
use cryptobot_v.Prelude.Result.{Result, Error, type_error, ok, raised, Result-cases}
use cryptobot_v.Prelude.Exec.{Exec, ◌>>=◌, resume}
use cryptobot_v.Number.{Num}
use cryptobot_v.Market.Candle.{Candle}
use cryptobot_v.Execution.Gates.{
  OperationalGates, ProcessedCandleGuard, already_processed, mark_processed,
}
use cryptobot_v.Exchange.Fills.{Rates, aggregate_entry}
use cryptobot_v.Strategy.Parameters.{CoinStrategyParameters}
use cryptobot_v.Strategy.Position.{StrategyPosition, opened, open_position}
use cryptobot_v.Strategy.Entry.{evaluate_entry_signal}
use cryptobot_v.Strategy.Engine.{RuntimeMode, BuyDecision, evaluate_buy, processed_by}
use cryptobot_v.Runtime.Ports.{Ports}
use cryptobot_v.Runtime.Orchestrator.{
  Order, bought, Runtime, given_or_fetched, fetch_candles, place_buy, act_on, try_enter,
  split_symbol, default_quotes,
}

module _ {D W : Type 0} where
  -- An action that neither marks a candle nor sends an order.
  abbrev pub IsQuiet : {A : Type 0} → Exec (Runtime D W) A → Type 0
  IsQuiet m = (r : Runtime D W) → ((m r).1.guard ≡ r.guard) × ((m r).1.orders ≡ r.orders)

module _ {F D W : Type 0} where
  -- The four outcomes of an attempt, from a guard and the orders before it. The guard learns a candle
  -- when a position is opened, and not when the step behind the order raises.
  pub data Enters (symbol : Text) (amount : D) (g : ProcessedCandleGuard) (os : List (Order D))
      (out : Result (Option (StrategyPosition F D)) × Runtime D W) : Type 0 where
    idle : out.0 ≡ ok none → out.1.guard ≡ g → out.1.orders ≡ os → Enters symbol amount g os out
    failed :
        (e : Error)
        → out.0 ≡ raised e
        → out.1.guard ≡ g
        → out.1.orders ≡ os
        → Enters symbol amount g os out
    failed_after_order :
        (e : Error) (t : ℕ)
        → already_processed g symbol t ≡ false
        → out.0 ≡ raised e
        → out.1.guard ≡ g
        → out.1.orders ≡ bought symbol t amount ∷ os
        → Enters symbol amount g os out
    entered :
        (p : StrategyPosition F D) (t : ℕ)
        → already_processed g symbol t ≡ false
        → out.0 ≡ ok (some p)
        → out.1.guard ≡ mark_processed g symbol t
        → out.1.orders ≡ bought symbol t amount ∷ os
        → p.symbol ≡ symbol
        → p.entry_candle_open_time ≡ t
        → p.state ≡ opened
        → Enters symbol amount g os out

  -- A quiet action in front changes no outcome.
  pub quiet-Enters :
      {A : Type 0} (symbol : Text) (amount : D) (m : Exec (Runtime D W) A)
      (k : A → Exec (Runtime D W) (Option (StrategyPosition F D)))
      → IsQuiet m
      → ((a : A) (r : Runtime D W) → Enters symbol amount r.guard r.orders (k a r))
      → (r : Runtime D W) → Enters symbol amount r.guard r.orders ((m >>= k) r)
  quiet-Enters {A = A} symbol amount m k q h r = go (m r) (q r)
    where
      go :
          (x : Result A × Runtime D W)
          → (x.1.guard ≡ r.guard) × (x.1.orders ≡ r.orders)
          → Enters symbol amount r.guard r.orders (resume x k)
      go (ok a, r') (g, o) =
          subst (λ y. Enters symbol amount y r.orders (k a r')) g
            (subst (λ y. Enters symbol amount r'.guard y (k a r')) o (h a r'))
      go (raised e, r') (g, o) = failed e refl g o

module _ {F D : Type 0} ⦃f : Num F⦄ where
  buy-unprocessed :
      (symbol : Text) (cs : List (Candle F)) (p : CoinStrategyParameters F D) (g : OperationalGates)
      (guard : Option ProcessedCandleGuard) (mode : RuntimeMode) (b : BuyDecision F)
      → evaluate_buy symbol cs p g guard mode ≡ ok b
      → b.buy ≡ true
      → processed_by guard symbol b.evaluation.candle_open_time ≡ false
  unfolding evaluate_buy
  buy-unprocessed symbol cs p g guard mode b e buys =
      elim (Result-cases (evaluate_entry_signal cs p)) [
        | inl (ev, good) ↦ ground arith
        | inr (x, bad) ↦ ground arith
      ]

module _ {F D W : Type 0} ⦃f : Num F⦄ ⦃d : Num D⦄ (ports : Ports F D W) where
  place_buy-Enters :
      (symbol : Text) (params : CoinStrategyParameters F D) (amount : D) (rates : Rates D)
      (time : Option ℕ) (r : Runtime D W)
      → processed_by (some r.guard) symbol time ≡ false
      → Enters symbol amount r.guard r.orders (place_buy ports symbol params amount rates time r)
  unfolding place_buy processed_by open_position
  place_buy-Enters symbol params amount rates none r new =
      elim (Result-cases (split_symbol symbol default_quotes)) [
        | inr (e, bad) ↦ failed e (rw bad) (rw bad) (rw bad)
        | inl (assets, good) ↦ failed type_error (rw good) (rw good) (rw good)
      ]
  place_buy-Enters symbol params amount rates (some t) r new =
      elim (Result-cases (split_symbol symbol default_quotes)) [
        | inr (e, bad) ↦ failed e (rw bad) (rw bad) (rw bad)
        | inl ((base, quote), good) ↦
            elim (Result-cases (ports.market_buy symbol amount r.world).0) [
              | inr (e, bad) ↦
                  failed_after_order e t new (rw (good, bad)) (rw (good, bad)) (rw (good, bad))
              | inl (fills, filled) ↦ elim (Result-cases (aggregate_entry fills base quote rates)) [
                | inr (e, bad) ↦
                    failed_after_order e t new (rw (good, filled, bad)) (rw (good, filled, bad))
                      (rw (good, filled, bad))
                | inl (entry, made) ↦
                    entered (open_position symbol params entry t) t new (rw (good, filled, made))
                      (rw (good, filled, made)) (rw (good, filled, made)) refl refl refl
              ]
            ]
      ]

  decided-Enters :
      (symbol : Text) (params : CoinStrategyParameters F D) (gates : OperationalGates) (amount : D)
      (mode : RuntimeMode) (rates : Rates D) (cs : List (Candle F)) (r : Runtime D W)
      → Enters symbol amount r.guard r.orders (
          resume
            (evaluate_buy symbol cs params gates (some r.guard) mode, r)
            (act_on ports symbol params amount rates))
  unfolding act_on
  decided-Enters symbol params gates amount mode rates cs r =
      elim (Result-cases (evaluate_buy symbol cs params gates (some r.guard) mode)) [
        | inr (e, bad) ↦ failed e (rw bad) (rw bad) (rw bad)
        | inl (b, good) ↦ elim (Bool-cases b.buy) [
          | inr hold ↦ idle (rw (good, hold)) (rw (good, hold)) (rw (good, hold))
          | inl buys ↦
              let new = buy-unprocessed symbol cs params gates (some r.guard) mode b good buys in
              subst (Enters symbol amount r.guard r.orders) (sym (rw (good, buys)))
                (place_buy-Enters symbol params amount rates b.evaluation.candle_open_time r new)
        ]
      ]

  -- What an attempt to enter does, whatever the ports answer. It sends at most one order, a buy of a
  -- candle that the guard does not know. A position is returned exactly when that candle is marked. When
  -- a step raises, behind the order too, the guard stays as it was.
  pub try_enter-Enters :
      (symbol : Text) (params : CoinStrategyParameters F D) (gates : OperationalGates) (amount : D)
      (mode : RuntimeMode) (rates : Rates D) (candles : Option (List (Candle F))) (r : Runtime D W)
      → Enters symbol amount r.guard r.orders
          (try_enter ports symbol params gates amount mode rates candles r)
  unfolding try_enter given_or_fetched fetch_candles
  try_enter-Enters symbol params gates amount mode rates candles r =
      quiet-Enters symbol amount (given_or_fetched ports candles symbol params) _ (fetched candles)
        (λ cs. decided-Enters symbol params gates amount mode rates cs) r
    where
      fetched :
          (candles : Option (List (Candle F)))
          → IsQuiet (given_or_fetched ports candles symbol params)
      fetched none r = (refl, refl)
      fetched (some cs) r = (refl, refl)
