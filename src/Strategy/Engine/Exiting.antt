-- ===== src/Strategy/Engine/Exiting.antt =====
-- When a sell is decided.
use cryptobot_v.Prelude.{◌≡◌, refl, sym, subst, ap, ◌∙◌, ◌↔◌, inl, inr, true, List, arith}
use cryptobot_v.Prelude.Result.{Result, ok, raised, ok-inj, Result-cases}
use cryptobot_v.Prelude.Exec
use cryptobot_v.Number.{Num, ◌≼◌, nought}
use cryptobot_v.Number.Laws.{IsSigned}
use cryptobot_v.Market.Candle.{Candle}
use cryptobot_v.Execution.Orderbook.{OrderBook}
use cryptobot_v.Execution.Pnl.{ExitCostModel, PnLEstimate, estimate_net_pnl}
use cryptobot_v.Strategy.Position.{
  PositionState, opened, exit_armed, closed, StrategyPosition, invested_quote_cost,
}
use cryptobot_v.Strategy.Exit.{
  ExitDecision, ExitReason, target_reached, below_target, withdrawal_reached, withdrawal_below,
  withdrawal_min_net_profit_pct, target_net_pnl, decide_exit, should_sell_normal,
  should_sell_withdrawal, update_exit_arming,
}
use cryptobot_v.Strategy.Exit.Arming.{Evolves, Evolves-fields, same, update_exit_arming-Evolves}
use cryptobot_v.Strategy.Engine.{RuntimeMode, running, withdrawal_requested, evaluate_exit}

module _ {F D : Type 0} ⦃d : Num D⦄ where
  -- The percentage that a mode asks for.
  abbrev pub pct_of : RuntimeMode → StrategyPosition F D → D
  pct_of running p = p.snapshot.min_net_profit_pct
  pct_of withdrawal_requested p = withdrawal_min_net_profit_pct

  abbrev pub target_of : RuntimeMode → StrategyPosition F D → D
  target_of mode p = target_net_pnl (invested_quote_cost p.entry) (pct_of mode p)

  -- The estimate on the book reaches the target of the mode.
  pub record Pays (mode : RuntimeMode) (p : StrategyPosition F D) (book : OrderBook D)
      (model : ExitCostModel D) : Type 0 where
    pub estimate : PnLEstimate D
    pub computed : estimate_net_pnl p book model ≡ ok estimate
    pub enough : target_of mode p ≼ estimate.net_pnl ≡ true

  -- Only an armed position is sold in running mode; in withdrawal mode the state is not looked at.
  abbrev pub MaySell : RuntimeMode → StrategyPosition F D → Type 0
  MaySell running p = p.state ≡ exit_armed
  MaySell withdrawal_requested p = Unit {0}

  abbrev decide :
      RuntimeMode → StrategyPosition F D → OrderBook D → ExitCostModel D → Result (ExitDecision D)
  decide running = should_sell_normal
  decide withdrawal_requested = should_sell_withdrawal

  decide_exit_iff :
      (p : StrategyPosition F D) (book : OrderBook D) (model : ExitCostModel D) (mode : RuntimeMode)
      (reached below : ExitReason) (decision : ExitDecision D)
      → decide_exit p book model (pct_of mode p) reached below ≡ ok decision
      → (decision.sell ≡ true) ↔ Pays mode p book model
  unfolding decide_exit
  decide_exit_iff p book model mode reached below decision run =
      elim (Result-cases (estimate_net_pnl p book model)) [
        | inr (e, bad) ↦ ground arith
        | inl (e, good) ↦ (
          λ sells. record { estimate = e; computed = good; enough = ground arith },
          λ (w : Pays mode p book model).
              let same : e ≡ w.estimate = ok-inj (sym good ∙ w.computed) in
              let enough : target_of mode p ≼ e.net_pnl ≡ true =
                ap (λ x. target_of mode p ≼ x.net_pnl) same ∙ w.enough in
              ground arith,
        )
      ]

  should_sell_normal_iff :
      (p : StrategyPosition F D) (book : OrderBook D) (model : ExitCostModel D)
      (decision : ExitDecision D)
      → should_sell_normal p book model ≡ ok decision
      → (decision.sell ≡ true) ↔ (MaySell running p × Pays running p book model)
  unfolding should_sell_normal
  should_sell_normal_iff p book model decision run = by_state p.state refl
    where
      by_state :
          (s : PositionState)
          → p.state ≡ s
          → (decision.sell ≡ true) ↔ (MaySell running p × Pays running p book model)
      by_state exit_armed e =
          let yields =
            decide_exit_iff p book model running target_reached below_target decision
              (sym (rw e) ∙ run) in
          (λ sells. (e, yields.0 sells), λ w. yields.1 w.1)
      by_state opened e = (λ sells. ground arith, λ w. cc (e, w.0))
      by_state closed e = (λ sells. ground arith, λ w. cc (e, w.0))

  decision_iff :
      (p : StrategyPosition F D) (book : OrderBook D) (model : ExitCostModel D) (mode : RuntimeMode)
      (decision : ExitDecision D)
      → decide mode p book model ≡ ok decision
      → (decision.sell ≡ true) ↔ (MaySell mode p × Pays mode p book model)
  unfolding should_sell_withdrawal
  decision_iff p book model running decision run = should_sell_normal_iff p book model decision run
  decision_iff p book model withdrawal_requested decision run =
      let yields =
        decide_exit_iff p book model withdrawal_requested withdrawal_reached withdrawal_below
          decision run in
      (λ sells. (tt, yields.0 sells), λ w. yields.1 w.1)

  -- What a sell pays covers the cost of the entry, when the costs and the percentage are not negative.
  Pays-nonneg :
      (mode : RuntimeMode) (p : StrategyPosition F D) (book : OrderBook D) (model : ExitCostModel D)
      → IsSigned D
      → nought ≼ p.entry.true_entry_cost ≡ true
      → nought ≼ p.entry.entry_fees_quote ≡ true
      → nought ≼ p.snapshot.min_net_profit_pct ≡ true
      → (w : Pays mode p book model) → nought ≼ w.estimate.net_pnl ≡ true
  unfolding target_net_pnl invested_quote_cost
  Pays-nonneg mode p book model l cost fees pct w =
      l.le_trans _ _ _
        (l.div_nonneg _ _ (l.mul_nonneg _ _ (l.add_nonneg _ _ cost fees) (pct_nonneg mode))
          (l.of_ℕ_nonneg 100))
        w.enough
    where
      pct_nonneg : (mode : RuntimeMode) → nought ≼ pct_of mode p ≡ true
      pct_nonneg running = pct
      pct_nonneg withdrawal_requested = l.div_nonneg _ _ (l.of_ℕ_nonneg 20) (l.of_ℕ_nonneg 100)

-- A function of the state that is applied after an action.
judged_after :
    {A B S : Type 0} (m : Result A × S) (judge : S → Result B)
    → ((Exec.resume m (λ _ q. (judge q, q))).1 ≡ m.1)
      × ((b : B)
          → (Exec.resume m (λ _ q. (judge q, q))).0 ≡ ok b
          → judge (Exec.resume m (λ _ q. (judge q, q))).1 ≡ ok b)
judged_after (ok a, q) judge = (refl, λ b e. e)
judged_after (raised x, q) judge = (refl, λ b e. cc)

module _ {F D : Type 0} ⦃f : Num F⦄ ⦃d : Num D⦄ where
  evaluate_exit-decide :
      (cs : List (Candle F)) (book : OrderBook D) (model : ExitCostModel D) (mode : RuntimeMode)
      (p : StrategyPosition F D) (decision : ExitDecision D)
      → (evaluate_exit cs book model mode p).0 ≡ ok decision
      → decide mode (evaluate_exit cs book model mode p).1 book model ≡ ok decision
  unfolding evaluate_exit
  evaluate_exit-decide cs book model running p decision run =
      (judged_after (update_exit_arming cs p) (λ q. should_sell_normal q book model)).1 decision run
  evaluate_exit-decide cs book model withdrawal_requested p decision run = run

  -- When an exit is evaluated without an exception, the decision is to sell exactly when the estimate
  -- on the book reaches the target of the mode, and in running mode the position is armed after the
  -- arming step.
  pub evaluate_exit_iff :
      (cs : List (Candle F)) (book : OrderBook D) (model : ExitCostModel D) (mode : RuntimeMode)
      (p : StrategyPosition F D) (decision : ExitDecision D)
      → (evaluate_exit cs book model mode p).0 ≡ ok decision
      → (decision.sell ≡ true) ↔ (
          MaySell mode (evaluate_exit cs book model mode p).1
          × Pays mode (evaluate_exit cs book model mode p).1 book model)
  evaluate_exit_iff cs book model mode p decision run =
      decision_iff _ book model mode decision
        (evaluate_exit-decide cs book model mode p decision run)

  pub evaluate_exit-Evolves :
      (cs : List (Candle F)) (book : OrderBook D) (model : ExitCostModel D) (mode : RuntimeMode)
      (p : StrategyPosition F D)
      → Evolves p cs (evaluate_exit cs book model mode p).1
  unfolding evaluate_exit
  evaluate_exit-Evolves cs book model running p =
      subst (Evolves p cs)
        (sym (judged_after (update_exit_arming cs p) (λ q. should_sell_normal q book model)).0)
        (update_exit_arming-Evolves p cs)
  evaluate_exit-Evolves cs book model withdrawal_requested p = same refl

  -- A sell never loses by the estimate. When the entry costs and the percentage are not negative and
  -- the decision is to sell, the estimate that it was made on is there, and its net profit is not
  -- negative. The position was left as it was or armed at an overbought last candle.
  pub evaluate_exit_safe :
      (cs : List (Candle F)) (book : OrderBook D) (model : ExitCostModel D) (mode : RuntimeMode)
      (p : StrategyPosition F D) (decision : ExitDecision D)
      → IsSigned D
      → nought ≼ p.entry.true_entry_cost ≡ true
      → nought ≼ p.entry.entry_fees_quote ≡ true
      → nought ≼ p.snapshot.min_net_profit_pct ≡ true
      → (evaluate_exit cs book model mode p).0 ≡ ok decision
      → decision.sell ≡ true
      → Evolves p cs (evaluate_exit cs book model mode p).1
        × (e : PnLEstimate D) × (estimate_net_pnl (evaluate_exit cs book model mode p).1 book model
            ≡ ok e)
        × (nought ≼ e.net_pnl ≡ true)
  evaluate_exit_safe cs book model mode p decision l cost fees pct run sells =
      let change = evaluate_exit-Evolves cs book model mode p in
      let (_, w) = (evaluate_exit_iff cs book model mode p decision run).0 sells in
      let q = (evaluate_exit cs book model mode p).1 in
      let (entry_eq, snapshot_eq) = Evolves-fields p cs q change in
      let safe =
        Pays-nonneg mode q book model l (ap (λ x. nought ≼ x.true_entry_cost) entry_eq ∙ cost)
          (ap (λ x. nought ≼ x.entry_fees_quote) entry_eq ∙ fees)
          (ap (λ x. nought ≼ x.min_net_profit_pct) snapshot_eq ∙ pct) w in
      (change, w.estimate, w.computed, safe)
