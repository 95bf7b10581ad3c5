-- ===== src/Exchange/Stream/Gaps.antt =====
-- src/cryptobot/market/validation.py on the candles of a stream.
use cryptobot_v.Prelude.{
  ap, sym, subst, if◌then◌else◌, ℕ, ◌+◌, ◌≡◌, refl, Bool, true, false, List, [], ◌∷◌, ◌++◌, arith,
  All,
}
use cryptobot_v.Prelude.Text.{Text, text_eq_refl}
use cryptobot_v.Market.Candle.{Candle}
use cryptobot_v.Market.Validation.{
  Problem, empty_series, not_closed, data_gap, candle_problems, step_problem, step_problems,
  validate_series,
}
use cryptobot_v.Exchange.Stream.Buffer.{Rises, RisesFrom}

-- Whether a problem is that candles are missing.
abbrev pub is_missing : Problem → Bool
is_missing empty_series = true
is_missing (data_gap index prev curr count) = true
is_missing _ = false

abbrev pub OnlyMissing : List Problem → Type 0
OnlyMissing ps = All (λ p. is_missing p ≡ true) ps

append-OnlyMissing :
    (ps qs : List Problem) → OnlyMissing ps → OnlyMissing qs → OnlyMissing (ps ++ qs)
append-OnlyMissing [] qs h k = k
append-OnlyMissing (p ∷ ps) qs h k = (h.0, append-OnlyMissing ps qs h.1 k)

module _ {F : Type 0} where
  candle_problems_none :
      (symbol : Text) (i t : ℕ) (cs : List (Candle F))
      → RisesFrom t cs
      → All (λ (c : Candle F). c.symbol ≡ symbol) cs
      → candle_problems symbol i cs ≡ []
  unfolding candle_problems
  candle_problems_none symbol i t [] h k = refl
  candle_problems_none symbol i t (c ∷ cs) h k =
      ground (arith, text_eq_refl symbol, candle_problems_none symbol (i + 1) c.open_time cs)

  step_problems-OnlyMissing :
      (i : ℕ) (prev : Candle F) (cs : List (Candle F))
      → RisesFrom prev.open_time cs
      → OnlyMissing (step_problems i prev cs)
  unfolding step_problems step_problem
  step_problems-OnlyMissing i prev [] h = tt
  step_problems-OnlyMissing i prev (c ∷ cs) (lt, closed, h) =
      append-OnlyMissing (step_problem i prev c) _ (step i)
        (step_problems-OnlyMissing (i + 1) c cs h)
    where
      step : (i : ℕ) → OnlyMissing (step_problem i prev c)
      step i = ground arith

  -- For candles as a stream keeps them, and all of one symbol, validation reports nothing but an empty
  -- series or gaps: never an unclosed candle, another symbol, a duplicate or a wrong order.
  pub Rises-OnlyMissing :
      (symbol : Text) (cs : List (Candle F))
      → Rises cs
      → All (λ (c : Candle F). c.symbol ≡ symbol) cs
      → OnlyMissing (validate_series cs)
  unfolding validate_series
  Rises-OnlyMissing symbol [] h k = (refl, tt)
  Rises-OnlyMissing symbol (c ∷ cs) (closed, h) (named, k) =
      let one_name = subst (λ t. All (λ (b : Candle F). b.symbol ≡ t) cs) (sym named) k in
      let none_found = candle_problems_none c.symbol 1 c.open_time cs h one_name in
      rw
        (
          ap (λ b. if b then [] else not_closed 0 c.open_time ∷ []) closed,
          text_eq_refl c.symbol,
          none_found,
        )
        (step_problems-OnlyMissing 1 c cs h)
