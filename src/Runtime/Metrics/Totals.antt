-- ===== src/Runtime/Metrics/Totals.antt =====
-- src/cryptobot/runtime/metrics.py: the totals of a status are those of what it lists.
use cryptobot_v.Prelude.{ℕ, ◌≡◌, refl, sym, ap, ◌∙◌, Option, none, some, List, [], ◌∷◌, ◌++◌, map}
use mathlib.Core.List.{map-append, append_assoc, append-nil}
use cryptobot_v.Prelude.Text.{Text}
use cryptobot_v.Prelude.Result.{ok}
use cryptobot_v.Prelude.Exec.{Exec, lift, ◌>>=◌}
use cryptobot_v.Prelude.Gives.{Gives, Gives-weaken, Gives-bind, Gives-any, value-Gives}
use cryptobot_v.Number.{Num, ◌⊕◌, nought}
use cryptobot_v.Execution.Pnl.{ExitCostModel}
use cryptobot_v.Strategy.Position.{PositionState, StrategyPosition, invested_quote_cost}
use cryptobot_v.Runtime.Ports.{Ports}
use cryptobot_v.Runtime.Service.{Service, open_positions}
use cryptobot_v.Runtime.Metrics.{
  OpenPositionView, MetricsTracker, Tally, StatusSnapshot, estimated, view_of, tally_position,
  tally_positions, tally_symbols, build_status,
}

module _ {D : Type 0} ⦃d : Num D⦄ where
  -- The sums over a list of views, from the left.
  abbrev pub invested_total : D → List (OpenPositionView D) → D
  invested_total total [] = total
  invested_total total (v ∷ vs) = invested_total (total ⊕ v.invested_quote) vs

  abbrev pub estimate_total : D → List (OpenPositionView D) → D
  estimate_total total [] = total
  estimate_total total (v ∷ vs) =
      estimate_total (elim v.estimated_net_pnl [ none ↦ total | some e ↦ total ⊕ e ]) vs

  invested_total-append :
      (vs : List (OpenPositionView D)) (total : D) (v : OpenPositionView D)
      → invested_total total (vs ++ v ∷ []) ≡ invested_total total vs ⊕ v.invested_quote
  invested_total-append [] total v = refl
  invested_total-append (u ∷ vs) total v = invested_total-append vs _ v

  estimate_total-append :
      (vs : List (OpenPositionView D)) (total : D) (v : OpenPositionView D)
      → estimate_total total (vs ++ v ∷ []) ≡ (elim v.estimated_net_pnl [
        | none ↦ estimate_total total vs
        | some e ↦ estimate_total total vs ⊕ e
      ])
  estimate_total-append [] total v = refl
  estimate_total-append (u ∷ vs) total v = estimate_total-append vs _ v

  -- The totals are those of the views.
  pub record Adds (t : Tally D) : Type 0 where
    pub invested : t.open_invested ≡ invested_total nought t.views
    pub estimates : t.unrealized ≡ estimate_total nought t.views

module _ {F D W : Type 0} ⦃f : Num F⦄ ⦃d : Num D⦄ (ports : Ports F D W)
    (cost_model : ExitCostModel D) where
  -- What a view shows of a position without the market.
  abbrev pub shown : List (OpenPositionView D) → List (Text × PositionState × D)
  shown vs = map (λ (v : OpenPositionView D). (v.symbol, v.state, v.invested_quote)) vs

  abbrev pub held : Text → List (StrategyPosition F D) → List (Text × PositionState × D)
  held symbol ps =
      map (λ (p : StrategyPosition F D). (symbol, p.state, invested_quote_cost p.entry)) ps

  abbrev pub held_in : Service F D W → List Text → List (Text × PositionState × D)
  held_in service [] = []
  held_in service (symbol ∷ symbols) =
      held symbol (open_positions service symbol) ++ held_in service symbols

  -- After a part of the loops: the totals are those of the views, which show what was there and `more`.
  pub record Tallied (t : Tally D) (more : List (Text × PositionState × D)) (t' : Tally D)
      : Type 0 where
    pub adds : Adds t'
    pub shows : shown t'.views ≡ shown t.views ++ more

  join-Tallied :
      (t t' t'' : Tally D) (more rest : List (Text × PositionState × D))
      → Tallied t more t'
      → Tallied t' rest t''
      → Tallied t (more ++ rest) t''
  join-Tallied t t' t'' more rest first next = record {
    adds = next.adds;
    shows = next.shows ∙ (ap (λ l. l ++ rest) first.shows ∙ append_assoc (shown t.views) more rest);
  }

  -- One part of the loops after another.
  bind-Tallied :
      (t : Tally D) (more rest : List (Text × PositionState × D)) (m : Exec W (Tally D))
      (k : Tally D → Exec W (Tally D))
      → Gives (Tallied t more) m
      → ((t' : Tally D) → Adds t' → Gives (Tallied t' rest) (k t'))
      → Gives (Tallied t (more ++ rest)) (m >>= k)
  bind-Tallied t more rest m k h hs =
      Gives-bind (Tallied t more) (Tallied t (more ++ rest)) m k h (λ t' first.
        Gives-weaken (Tallied t' rest) (Tallied t (more ++ rest)) (k t')
          (λ t'' next. join-Tallied t t' t'' more rest first next) (hs t' first.adds))

  tally_position-Gives :
      (symbol : Text) (p : StrategyPosition F D) (t : Tally D)
      → Adds t
      → Gives (Tallied t (held symbol (p ∷ []))) (tally_position ports cost_model symbol p t)
  unfolding tally_position view_of
  tally_position-Gives symbol p t adds =
      Gives-bind _ (Tallied t (held symbol (p ∷ []))) (ports.get_order_book symbol) _
        (Gives-any (ports.get_order_book symbol))
        (λ book _.
          Gives-bind _ (Tallied t (held symbol (p ∷ []))) (lift (estimated cost_model p book)) _
            (Gives-any (lift (estimated cost_model p book)))
            (λ estimate _ w.
              let v = view_of symbol p estimate in
              record {
                adds = record {
                  invested =
                      ap (λ x. x ⊕ invested_quote_cost p.entry) adds.invested
                      ∙ sym (invested_total-append t.views nought v);
                  estimates = shifted estimate ∙ sym (estimate_total-append t.views nought v);
                };
                shows = map-append _ t.views (v ∷ []);
              }))
    where
      shifted :
          (estimate : Option D)
          → (elim estimate as (λ x. D) [ none ↦ t.unrealized | some e ↦ t.unrealized ⊕ e ])
            ≡ (elim estimate as (λ x. D) [
              | none ↦ estimate_total nought t.views
              | some e ↦ estimate_total nought t.views ⊕ e
            ])
      shifted none = adds.estimates
      shifted (some e) = ap (λ x. x ⊕ e) adds.estimates

  tally_positions-Gives :
      (symbol : Text) (ps : List (StrategyPosition F D)) (t : Tally D)
      → Adds t
      → Gives (Tallied t (held symbol ps)) (tally_positions ports cost_model symbol ps t)
  unfolding tally_positions
  tally_positions-Gives symbol [] t adds =
      λ w. record { adds = adds; shows = sym (append-nil (shown t.views)) }
  tally_positions-Gives symbol (p ∷ ps) t adds =
      bind-Tallied t (held symbol (p ∷ [])) (held symbol ps)
        (tally_position ports cost_model symbol p t) _ (tally_position-Gives symbol p t adds)
        (λ t' adds'. tally_positions-Gives symbol ps t' adds')

  tally_symbols-Gives :
      (service : Service F D W) (symbols : List Text) (t : Tally D)
      → Adds t
      → Gives
          (Tallied t (held_in service symbols))
          (tally_symbols ports cost_model service symbols t)
  unfolding tally_symbols
  tally_symbols-Gives service [] t adds =
      λ w. record { adds = adds; shows = sym (append-nil (shown t.views)) }
  tally_symbols-Gives service (symbol ∷ symbols) t adds =
      bind-Tallied t (held symbol (open_positions service symbol)) (held_in service symbols)
        (tally_positions ports cost_model symbol (open_positions service symbol) t) _
        (tally_positions-Gives symbol (open_positions service symbol) t adds)
        (λ t' adds'. tally_symbols-Gives service symbols t' adds')

  -- What a status shows: the open positions of the symbols, in their order and no others, with their
  -- states and costs; the capital and the profit that it reports are the sums over what it lists.
  abbrev pub IsAccurate : Service F D W → List Text → StatusSnapshot F D → Type 0
  IsAccurate service symbols snapshot =
      (shown snapshot.open_positions ≡ held_in service symbols)
      × (snapshot.open_invested_quote ≡ invested_total nought snapshot.open_positions)
      × (snapshot.estimated_unrealized_net_pnl ≡ estimate_total nought snapshot.open_positions)

  -- Every status that `build_status` returns lists the open positions of the symbols, in their order and
  -- no others, with their states and costs, and its invested capital and unrealized profit are the sums
  -- over the positions that it lists, those without an estimate left out of the second sum.
  pub build_status-IsAccurate :
      (symbols : List Text) (service : Service F D W) (metrics : MetricsTracker D) (now_ms : ℕ)
      (w : W) (snapshot : StatusSnapshot F D)
      → (build_status ports cost_model symbols service metrics now_ms w).0 ≡ ok snapshot
      → IsAccurate service symbols snapshot
  unfolding build_status
  build_status-IsAccurate symbols service metrics now_ms w snapshot e =
      let start : Tally D = record { views = []; open_invested = nought; unrealized = nought } in
      value-Gives (IsAccurate service symbols)
        (build_status ports cost_model symbols service metrics now_ms w) snapshot
        (Gives-bind (Tallied start (held_in service symbols)) (IsAccurate service symbols)
          (tally_symbols ports cost_model service symbols start) _
          (tally_symbols-Gives service symbols start (record { invested = refl; estimates = refl }))
          (λ t done.
            Gives-bind _ (IsAccurate service symbols) ports.available_quote_balance _
              (Gives-any ports.available_quote_balance)
              (λ available _ v. (done.shows, done.adds.invested, done.adds.estimates)))
          w)
        e
