-- ===== src/Indicators/Adx.antt =====
-- src/cryptobot/indicators/adx.py
pub mod Defined
pub mod Smoothing
pub mod Textbook
pub mod Wilder
pub mod Reference
use cryptobot_v.Prelude.{
  ℕ, ◌+◌, ◌-◌, ◌*◌, not, ◌&&◌, Option, none, some, List, [], ◌∷◌, ◌++◌, map, ltb, leb, ◌==◌,
  if◌then◌else◌, length, drop, replicate, slice, from_second,
}
use cryptobot_v.Prelude.Result.{Result, ok, raised, value_error}
use cryptobot_v.Number.{Num, ◌⊕◌, ◌⊖◌, ◌⊗◌, ◌⊘◌, ◌≺◌, ◌≈◌, nought, abs, max_of}
use cryptobot_v.Indicators.RsiVwma.{all_defined}
use cryptobot_v.Indicators.Rsi.{wilder}

pub record AdxResult (F : Type 0) : Type 0 where
  pub adx : List (Option F)
  pub plus_di : List (Option F)
  pub minus_di : List (Option F)

-- +DI, -DI and DX of one bar
pub record Di (F : Type 0) : Type 0 where
  pub plus : F
  pub minus : F
  pub dx : F

-- high, low and close at one index
pub record Bar (F : Type 0) : Type 0 where
  pub high : F
  pub low : F
  pub close : F

module _ {F : Type 0} where
  unfoldable pub bars : List F → List F → List F → List (Bar F)
  bars (h ∷ hs) (l ∷ ls) (c ∷ cs) = record { high = h; low = l; close = c } ∷ bars hs ls cs
  bars _ _ _ = []

module _ {F : Type 0} ⦃num : Num F⦄ where
  open num use {of_ℕ, sum}

  -- `None` stands for `(None, None, None)`.
  unfoldable pub di_and_dx : F → F → F → Option (Di F)
  di_and_dx smoothed_tr smoothed_plus_dm smoothed_minus_dm =
      let plus_di = of_ℕ 100 ⊗ smoothed_plus_dm ⊘ smoothed_tr in
      let minus_di = of_ℕ 100 ⊗ smoothed_minus_dm ⊘ smoothed_tr in
      let di_sum = plus_di ⊕ minus_di in
      if smoothed_tr ≈ nought
      then none
      else some (record {
        plus = plus_di;
        minus = minus_di;
        dx = if di_sum ≈ nought then nought else of_ℕ 100 ⊗ abs (plus_di ⊖ minus_di) ⊘ di_sum;
      })

  -- `plus_dm[i]`, `minus_dm[i]` and `tr[i]` from the bars before and at i
  unfoldable pub plus_dm : Bar F → Bar F → F
  plus_dm prev curr =
      let up_move = curr.high ⊖ prev.high in
      let down_move = prev.low ⊖ curr.low in
      if (down_move ≺ up_move) && (nought ≺ up_move) then up_move else nought

  unfoldable pub minus_dm : Bar F → Bar F → F
  minus_dm prev curr =
      let up_move = curr.high ⊖ prev.high in
      let down_move = prev.low ⊖ curr.low in
      if (up_move ≺ down_move) && (nought ≺ down_move) then down_move else nought

  unfoldable pub true_range : Bar F → Bar F → F
  true_range prev curr =
      max_of (max_of (curr.high ⊖ curr.low) (abs (curr.high ⊖ prev.close)))
        (abs (curr.low ⊖ prev.close))

  -- Wilder smoothing of a running sum
  unfoldable pub smooth : ℕ → F → F → F
  smooth period s x = s ⊖ s ⊘ of_ℕ period ⊕ x

  -- The loop over indices `period + 1` and up: the +DI, -DI and DX of each.
  unfoldable pub di_loop : ℕ → F → F → F → List F → List F → List F → List (Option (Di F))
  unfolding di_and_dx smooth
  di_loop period s_tr s_plus s_minus (tr ∷ trs) (p ∷ ps) (m ∷ ms) =
      let s_tr' = smooth period s_tr tr in
      let s_plus' = smooth period s_plus p in
      let s_minus' = smooth period s_minus m in
      di_and_dx s_tr' s_plus' s_minus' ∷ di_loop period s_tr' s_plus' s_minus' trs ps ms
  di_loop period s_tr s_plus s_minus _ _ _ = []

  -- The three series of `+DI`, `-DI` and `DX` as one; the initial values are sums over `[1, period]`.
  unfoldable pub di_series : List (Bar F) → ℕ → List (Option (Di F))
  unfolding di_loop plus_dm minus_dm true_range
  di_series bs period =
      let tr = from_second true_range nought bs in
      let plus = from_second plus_dm nought bs in
      let minus = from_second minus_dm nought bs in
      let s_tr = sum (slice 1 (period + 1) tr) in
      let s_plus = sum (slice 1 (period + 1) plus) in
      let s_minus = sum (slice 1 (period + 1) minus) in
      replicate period none
      ++ (di_and_dx s_tr s_plus s_minus
          ∷ di_loop period s_tr s_plus s_minus (drop (period + 1) tr) (drop (period + 1) plus)
              (drop (period + 1) minus))

  -- The last loop: it stops for good at an undefined DX.
  unfoldable pub adx_loop : ℕ → F → List (Option F) → List (Option F)
  unfolding wilder
  adx_loop period adx_value [] = []
  adx_loop period adx_value (none ∷ dxs) = none ∷ replicate (length dxs) none
  adx_loop period adx_value (some current_dx ∷ dxs) =
      let adx_value' = wilder period adx_value current_dx in
      some adx_value' ∷ adx_loop period adx_value' dxs

  unfoldable pub adx_series : List (Option F) → ℕ → List (Option F)
  unfolding all_defined adx_loop
  adx_series dx period =
      let n = length dx in
      let first_adx_index = 2 * period - 1 in
      if leb n first_adx_index
      then replicate n none
      else elim (all_defined (slice period (2 * period) dx)) [
        | none ↦ replicate n none
        | some initial_dx ↦
            let adx_value = sum initial_dx ⊘ of_ℕ period in
            replicate first_adx_index none
            ++ (some adx_value ∷ adx_loop period adx_value (drop (2 * period) dx))
      ]

  abbrev pub component : (Di F → F) → Option (Di F) → Option F
  component f none = none
  component f (some d) = some (f d)

  unfoldable pub compute_adx : List F → List F → List F → ℕ → Result (AdxResult F)
  unfolding bars di_series adx_series
  compute_adx highs lows closes period =
      let n = length highs in
      let di = di_series (bars highs lows closes) period in
      if ltb period 1
      then raised value_error
      else if not ((length highs == length lows) && (length lows == length closes))
      then raised value_error
      else if ltb n (period + 1)
      then ok (record {
        adx = replicate n none;
        plus_di = replicate n none;
        minus_di = replicate n none;
      })
      else ok (record {
        adx = adx_series (map (component (λ d. d.dx)) di) period;
        plus_di = map (component (λ d. d.plus)) di;
        minus_di = map (component (λ d. d.minus)) di;
      })
