-- ===== src/Runtime/Live/Covered.antt =====
-- src/cryptobot/runtime/live.py: what a clean reconciliation says, and what the live loop does with one
-- that is not clean.
use cryptobot_v.Prelude.{
  ◌≡◌, refl, ◌⊎◌, inl, inr, ◌↔◌, true, false, Option, List, [], ◌∷◌, ◌++◌, arith, Bool-cases, All,
}
use cryptobot_v.Prelude.Text.{Text}
use cryptobot_v.Prelude.Result.{ok, Result-cases}
use cryptobot_v.Number.{Num, ◌⊖◌, ◌⊗◌, ◌≺◌, ◌≼◌, nought}
use cryptobot_v.Exchange.Json.{Json, Decoder}
use cryptobot_v.Strategy.Position.{StrategyPosition}
use cryptobot_v.Runtime.Orchestrator.{split_symbol, default_quotes}
use cryptobot_v.Runtime.Live.{
  ReconcileResult, actual_qty, expected_qty, shortfall_of, shortfalls, free_balances,
  reconcile_positions,
}

append-nil : {A : Type 0} (xs ys : List A) → (xs ++ ys ≡ []) ↔ ((xs ≡ []) × (ys ≡ []))
append-nil [] ys = ground arith
append-nil (x ∷ xs) ys = ground arith

module _ {F D : Type 0} ⦃d : Num D⦄ where
  -- The free balance of the base asset is enough for the positions of a symbol.
  abbrev pub Covers : List (Option Text × D) → D → Text × List (StrategyPosition F D) → Type 0
  Covers free tolerance (symbol, positions) =
      ((expected_qty positions ≼ nought) ≡ true)
      ⊎ ((base : Text) × (quote : Text) × (split_symbol symbol default_quotes ≡ ok (base, quote))
          × ((actual_qty free base ≺ expected_qty positions ⊗ (d.of_ℕ 1 ⊖ tolerance)) ≡ false))

  shortfall_of_iff :
      (free : List (Option Text × D)) (tolerance : D) (symbol : Text)
      (positions : List (StrategyPosition F D))
      → (shortfall_of free tolerance symbol positions ≡ ok [])
        ↔ Covers free tolerance (symbol, positions)
  unfolding shortfall_of
  shortfall_of_iff free tolerance symbol positions =
      elim (Bool-cases (expected_qty positions ≼ nought)) [
        | inl none_held ↦ (λ e. inl none_held, λ c. rw (shortfall_of, none_held) refl)
        | inr held ↦ elim (Result-cases (split_symbol symbol default_quotes)) [
          | inr (x, bad) ↦ ground arith
          | inl ((base, quote), good) ↦ ground arith
        ]
      ]

  shortfalls_iff :
      (free : List (Option Text × D)) (tolerance : D)
      (held : List (Text × List (StrategyPosition F D)))
      → (shortfalls free tolerance held ≡ ok []) ↔ All (Covers free tolerance) held
  unfolding shortfalls
  shortfalls_iff free tolerance [] = (λ e. tt, λ c. refl)
  shortfalls_iff free tolerance ((symbol, positions) ∷ held) =
      let first = shortfall_of_iff free tolerance symbol positions in
      let rest = shortfalls_iff free tolerance held in
      elim (Result-cases (shortfall_of free tolerance symbol positions)) [
        | inr (x, bad) ↦ ground (arith, first, rest)
        | inl (problems, good) ↦ elim (Result-cases (shortfalls free tolerance held)) [
          | inr (x, bad) ↦ ground (arith, first, rest)
          | inl (more, fine) ↦ ground (arith, first, rest, append-nil problems more)
        ]
      ]

module _ {F D : Type 0} ⦃d : Num D⦄ (dec : Decoder F D) where
  -- A reconciliation is clean exactly if, for each symbol, either no quantity is expected, or the symbol
  -- splits into its assets and the free balance of the base asset is not below the expected quantity
  -- less the tolerance. In particular a clean one raised no exception.
  pub reconcile_positions_clean_iff :
      (account : Json) (free : List (Option Text × D))
      (held : List (Text × List (StrategyPosition F D))) (tolerance : D)
      → free_balances dec account ≡ ok free
      → ((r : ReconcileResult D) × (reconcile_positions dec account held tolerance ≡ ok r)
          × (r.clean ≡ true))
        ↔ All (Covers free tolerance) held
  unfolding reconcile_positions
  reconcile_positions_clean_iff account free held tolerance read =
      elim (Result-cases (shortfalls free tolerance held)) [
        | inr (x, bad) ↦ ground (arith, shortfalls_iff free tolerance held)
        | inl ([], none_short) ↦ (
          λ c. (shortfalls_iff free tolerance held).0 none_short,
          λ c. (record { clean = true; problems = [] }, ground arith, refl),
        )
        | inl (s ∷ short, found) ↦ ground (arith, shortfalls_iff free tolerance held)
      ]
