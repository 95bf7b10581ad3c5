-- ===== src/Runtime/Live/Guarded.antt =====
-- src/cryptobot/runtime/live.py, run_live: no buy without a clean reconciliation.
use cryptobot_v.Prelude.{
  ℕ, ◌≡◌, refl, ap, ◌∙◌, ◌⊎◌, inl, inr, true, false, Option, List, [], ◌∷◌, arith, Bool-cases, All,
}
use cryptobot_v.Prelude.Text.{Text}
use cryptobot_v.Prelude.Result.{Result, ok, raised, Result-cases}
use cryptobot_v.Prelude.Exec.{Exec, resume, modify, pure, ◌>>◌}
use cryptobot_v.Number.{Num}
use cryptobot_v.Exchange.Json.{Json, Decoder}
use cryptobot_v.Exchange.Rest
use cryptobot_v.Exchange.Rest.{RestClient}
use cryptobot_v.Strategy.Position.{StrategyPosition}
use cryptobot_v.Strategy.Engine.{RuntimeMode, running, withdrawal_requested}
use cryptobot_v.Runtime.Service.{
  Service, ServiceConfig, SizingPolicy, OperationalStatus, TickReport, open_positions, tick,
}
use cryptobot_v.Runtime.Halted.{buys, may_buy, tick-no_buys}
use cryptobot_v.Runtime.Live.{ReconcileResult, refresh_balance, free_balances, reconcile_positions}
use cryptobot_v.Runtime.Live.Loop.{
  LiveWorld, refresh, tracked, reconcile, settle, live_ports, live_tick,
}
use cryptobot_v.Runtime.Live.Covered.{Covers, reconcile_positions_clean_iff}

module _ {F D R : Type 0} where
  -- The tracked positions are those of the service's dictionary, whatever the runtime is.
  tracked_same :
      (symbols : List Text) (s t : Service F D (LiveWorld D R))
      (found : List (Text × List (StrategyPosition F D)))
      → s.positions ≡ t.positions
      → tracked s symbols found ≡ tracked t symbols found
  unfolding tracked open_positions
  tracked_same [] s t found same = refl
  tracked_same (symbol ∷ symbols) s t found same = rw same (tracked_same symbols s t _ same)

module _ {F D : Type 0} ⦃d : Num D⦄ (dec : Decoder F D) where
  clean-Covers :
      (raw : Json) (held : List (Text × List (StrategyPosition F D))) (tolerance : D)
      (r : ReconcileResult D)
      → reconcile_positions dec raw held tolerance ≡ ok r
      → r.clean ≡ true
      → (free : List (Option Text × D)) × (free_balances dec raw ≡ ok free)
        × All (Covers free tolerance) held
  unfolding reconcile_positions
  clean-Covers raw held tolerance r run clean = elim (Result-cases (free_balances dec raw)) [
    | inr (x, bad) ↦ ground arith
    | inl (free, read) ↦ (
      free,
      read,
      (reconcile_positions_clean_iff dec raw free held tolerance read).0 (r, run, clean),
    )
  ]

module _ {F D R : Type 0} ⦃d : Num D⦄ (dec : Decoder F D) (client : RestClient R)
    (symbols : List Text) (tolerance : D) where
  -- What the live loop has found when a reconciliation is clean: the exchange answered with balances,
  -- and these cover the positions that the service tracks.
  abbrev pub FoundCovered : Service F D (LiveWorld D R) → Type 0
  FoundCovered s =
      (raw : Json) × (free : List (Option Text × D)) × ((Rest.account client
          s.runtime.world.remote).0
        ≡ ok raw)
      × (free_balances dec raw ≡ ok free)
      × All (Covers free tolerance) (tracked s symbols [])

  -- A reconciliation sends no order, and is clean only if the balances cover the positions.
  abbrev Reconciled :
      Service F D (LiveWorld D R)
      → Result (ReconcileResult D) × Service F D (LiveWorld D R)
      → Type 0
  Reconciled s out =
      (out.1.runtime.orders ≡ s.runtime.orders)
      × ((r : ReconcileResult D) → out.0 ≡ ok r → r.clean ≡ true → FoundCovered s)

  reconcile-Reconciled :
      (s : Service F D (LiveWorld D R)) → Reconciled s (reconcile dec client symbols tolerance s)
  unfolding reconcile refresh
  reconcile-Reconciled s = fetched (Rest.account client s.runtime.world.remote) refl
    where
      fetched :
          (out : Result Json × R)
          → Rest.account client s.runtime.world.remote ≡ out
          → Reconciled s (reconcile dec client symbols tolerance s)
      fetched (raised e, r) run = rw run (refl, λ r e clean. cc)
      fetched (ok raw, r) run =
          elim (Result-cases (refresh_balance dec raw s.runtime.world.account)) [
            | inr (x, bad) ↦ rw (run, refresh, bad) (refl, λ r e clean. cc)
            | inl (a, good) ↦
                rw (run, refresh, good)
                  (
                    refl,
                    λ q e clean.
                        let (free, read, covers) =
                          clean-Covers dec raw (tracked s symbols []) tolerance q
                            (ap (λ h. reconcile_positions dec raw h tolerance)
                                (tracked_same symbols s
                                  (record s {
                                    runtime = record s.runtime {
                                      world = record { remote = r; account = a };
                                    };
                                  })
                                  [] refl)
                              ∙ e)
                            clean in
                        (raw, free, refl, read, covers),
                  )
          ]

module _ {F D R : Type 0} ⦃f : Num F⦄ ⦃d : Num D⦄ (dec : Decoder F D) (str_of : D → Text)
    (client : RestClient R) (clock : Exec R ℕ) (interval : Text) (config : ServiceConfig F D)
    (sizing : SizingPolicy F D) (symbols : List Text) (base : OperationalStatus)
    (tolerance : D) where
  -- A round of the live loop buys nothing, unless the exchange answered with balances that cover the
  -- positions that the service tracks: for each symbol of the loop, nothing is expected, or the free
  -- balance of the base asset is not below the expected quantity less the tolerance. This holds also of a
  -- round that ends with an exception.
  pub live_tick-buys :
      (s : Service F D (LiveWorld D R))
      → (buys
            (live_tick dec str_of client clock interval config sizing symbols base tolerance
              s).1.runtime.orders
          ≡ buys s.runtime.orders)
        ⊎ FoundCovered dec client symbols tolerance s
  unfolding live_tick settle may_buy
  live_tick-buys s =
      reconciled (reconcile dec client symbols tolerance s) refl
        (reconcile-Reconciled dec client symbols tolerance s)
    where
      shut :
          (mode : RuntimeMode) (recon : ReconcileResult D)
          → recon.clean ≡ false
          → may_buy mode (record base { reconciliation_clean = recon.clean }) ≡ false
      shut running recon dirty = ground arith
      shut withdrawal_requested recon dirty = refl

      settled :
          (recon : ReconcileResult D) (out : Result (TickReport F D) × Service F D (LiveWorld D R))
          → buys out.1.runtime.orders ≡ buys s.runtime.orders
          → buys
              (resume {B = TickReport F D × ReconcileResult D} out
                (λ report. modify (settle report) >> pure (report, recon))).1.runtime.orders
            ≡ buys s.runtime.orders
      settled recon (ok report, u) e = e
      settled recon (raised x, u) e = e

      reconciled :
          (out : Result (ReconcileResult D) × Service F D (LiveWorld D R))
          → reconcile dec client symbols tolerance s ≡ out
          → Reconciled dec client symbols tolerance s out
          → (buys
                (live_tick dec str_of client clock interval config sizing symbols base tolerance
                  s).1.runtime.orders
              ≡ buys s.runtime.orders)
            ⊎ FoundCovered dec client symbols tolerance s
      reconciled (raised e, t) run (same, clean) = inl (rw run (ap buys same))
      reconciled (ok recon, t) run (same, clean) = elim (Bool-cases recon.clean) [
        | inl yes_clean ↦ inr (clean recon refl yes_clean)
        | inr dirty ↦ inl (
            rw run (
              settled recon
                (tick (live_ports dec str_of client clock interval) config sizing
                  (record base { reconciliation_clean = recon.clean }) t)
                (tick-no_buys (live_ports dec str_of client clock interval) config sizing
                    (record base { reconciliation_clean = recon.clean }) t (shut t.mode recon dirty)
                  ∙ ap buys same)))
      ]
