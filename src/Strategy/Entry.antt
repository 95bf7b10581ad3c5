-- ===== src/Strategy/Entry.antt =====
-- src/cryptobot/strategy/entry.py. The reason is a constructor with the values that its text prints.
pub mod Signal
use cryptobot_v.Prelude.{
  ℕ, ◌-◌, Bool, true, false, not, ◌&&◌, ◌||◌, Option, none, some, List, [], ◌∷◌, ◌++◌, ltb, is_some,
  if◌then◌else◌, length, get_elem?,
}
use cryptobot_v.Prelude.Result.{Result, ok, raised, type_error, index_error, ◌>>=◌}
use cryptobot_v.Number.{Num, ◌≺◌, ◌≼◌}
use cryptobot_v.Market.Candle.{Candle}
use cryptobot_v.Market.Validation.{Problem, validate_series}
use cryptobot_v.Strategy.Parameters.{CoinStrategyParameters}
use cryptobot_v.Strategy.Indicators.{IndicatorSnapshot, compute_indicators, is_complete, at}

-- `ENTRY_CONDITION_NAMES`
pub data ConditionName : Type 0 where
  rsi_below_oversold prev_rsi_le_vwma rsi_above_vwma adx_in_band adr_rising : ConditionName

pub record Conditions : Type 0 where
  pub rsi_below_oversold : Bool
  pub prev_rsi_le_vwma : Bool
  pub rsi_above_vwma : Bool
  pub adx_in_band : Bool
  pub adr_rising : Bool

pub data Reason : Type 0 where
  invalid_series : Problem → Reason
  need_two_candles not_ready_at_t not_ready_before_t all_met : Reason
  not_met : List ConditionName → Reason

pub record EntryEvaluation (F : Type 0) : Type 0 where
  pub signal : Bool
  pub reason : Reason
  -- `none` is the empty dictionary.
  pub conditions : Option Conditions
  pub candle_open_time : Option ℕ
  pub current : Option (IndicatorSnapshot F)
  pub previous : Option (IndicatorSnapshot F)

-- A comparison with `None` raises a `TypeError`.
abbrev pub value {ℓ} : {A : Type ℓ} → Option A → Result A
value none = raised type_error
value (some a) = ok a

module _ {F D : Type 0} ⦃f : Num F⦄ where
  unfoldable pub evaluate_entry_conditions :
      IndicatorSnapshot F → IndicatorSnapshot F → CoinStrategyParameters F D → Result Conditions
  evaluate_entry_conditions current previous params = do
    rsi ← value current.rsi
    previous_rsi ← value previous.rsi
    previous_vwma ← value previous.rsi_vwma
    vwma ← value current.rsi_vwma
    adx ← value current.adx
    adr ← value current.adr
    previous_adr ← value previous.adr
    ok (record {
      rsi_below_oversold = rsi ≺ params.rsi_oversold;
      prev_rsi_le_vwma = previous_rsi ≼ previous_vwma;
      rsi_above_vwma = vwma ≺ rsi;
      adx_in_band = (params.adx_low ≼ adx) && (adx ≼ params.adx_high);
      adr_rising = previous_adr ≺ adr;
    })

-- `all(conditions.values())`
unfoldable pub all_hold : Conditions → Bool
all_hold c =
    c.rsi_below_oversold
    && (c.prev_rsi_le_vwma && (c.rsi_above_vwma && (c.adx_in_band && c.adr_rising)))

-- `[name for name, ok in conditions.items() if not ok]`
unfoldable pub failed : Conditions → List ConditionName
failed c =
    (if c.rsi_below_oversold then [] else rsi_below_oversold ∷ [])
    ++ ((if c.prev_rsi_le_vwma then [] else prev_rsi_le_vwma ∷ [])
        ++ ((if c.rsi_above_vwma then [] else rsi_above_vwma ∷ [])
            ++ ((if c.adx_in_band then [] else adx_in_band ∷ [])
                ++ (if c.adr_rising then [] else adr_rising ∷ []))))

module _ {F : Type 0} where
  unfoldable pub no_signal : Reason → Option ℕ → EntryEvaluation F
  no_signal reason candle_open_time = record {
    signal = false;
    reason = reason;
    conditions = none;
    candle_open_time = candle_open_time;
    current = none;
    previous = none;
  }

module _ {F D : Type 0} ⦃f : Num F⦄ where
  -- The part behind the computation of the two snapshots.
  unfoldable pub judge :
      IndicatorSnapshot F
      → IndicatorSnapshot F
      → CoinStrategyParameters F D
      → ℕ
      → Result (EntryEvaluation F)
  unfolding no_signal all_hold failed
  judge current previous params last_open_time =
      let rest : Result (EntryEvaluation F) = (do
        conditions ← evaluate_entry_conditions current previous params
        let signal = all_hold conditions
        ok (record {
          signal = signal;
          reason = if signal then all_met else not_met (failed conditions);
          conditions = some conditions;
          candle_open_time = some last_open_time;
          current = some current;
          previous = some previous;
        })) in
      if not (is_complete current)
      then ok (no_signal not_ready_at_t (some last_open_time))
      else if not (is_some previous.rsi && (is_some previous.rsi_vwma && is_some previous.adr))
      then ok (no_signal not_ready_before_t (some last_open_time))
      else rest

  -- The part behind the two checks of the series, for the candle at index t.
  unfoldable pub evaluate_at :
      List (Candle F) → CoinStrategyParameters F D → ℕ → ℕ → Result (EntryEvaluation F)
  unfolding judge
  evaluate_at candles params t last_open_time = do
    series ← compute_indicators candles params
    current ← at series t
    previous ← at series (t - 1)
    judge current previous params last_open_time

  unfoldable pub evaluate_entry_signal :
      List (Candle F) → CoinStrategyParameters F D → Result (EntryEvaluation F)
  unfolding no_signal
  evaluate_entry_signal candles params =
      let t = length candles - 1 in
      let rest : Result (EntryEvaluation F) = elim (get_elem? candles t) [
        | none ↦ raised index_error
        | some c ↦ evaluate_at candles params t c.open_time
      ] in
      elim (validate_series candles) [
        | problem ∷ _ ↦ ok (no_signal (invalid_series problem) none)
        | [] ↦ if ltb (length candles) 2 then ok (no_signal need_two_candles none) else rest
      ]
