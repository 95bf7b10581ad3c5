-- ===== src/Indicators/Adx/Reference.antt =====
-- What `compute_adx` returns, against the textbook formulas.
use cryptobot_v.Prelude.{
  ℕ, ◌+◌, ◌-◌, ◌*◌, ◌≤◌, ◌<◌, ◌≡◌, ap, ◌∙◌, Bool, true, false, Option, none, some, List, arith, map,
  ltb, ltb-false, ltb→lt, ltb→ge, inl, inr, Bool-cases, is_some, not_is_some, length, get_elem?,
  replicate, slice, length-replicate, length-map, ◌==◌, ◌&&◌, get_elem?-replicate, get_elem?-slice,
  get_elem?-map, ==_iff, &&_iff,
}
use cryptobot_v.Prelude.Result.{ok}
use cryptobot_v.Number.{Num, ◌≈◌, nought}
use cryptobot_v.Indicators.RsiVwma.Window.{all_defined-none}
use cryptobot_v.Indicators.Adx.{
  AdxResult, Di, Bar, bars, di_and_dx, plus_dm, minus_dm, true_range, smooth, di_series, adx_series,
  component, compute_adx,
}
use cryptobot_v.Indicators.Adx.Defined.{adx_series-late, adx_series-early, length-adx_series}
use cryptobot_v.Indicators.Adx.Textbook.{
  IsBars, bars-IsBars, range_of, up_of, down_of, wilder_sum, di_of,
}
use cryptobot_v.Indicators.Adx.Wilder.{wilder_mean, adx_series-value}
use cryptobot_v.Indicators.Adx.Smoothing.{
  length-bars, length-di_series, di_series-early, di_series-late,
}

di_and_dx-di_of :
    {F : Type 0} ⦃num : Num F⦄ (t p m : F)
    → t ≈ nought ≡ false
    → di_and_dx t p m ≡ some (di_of t p m)
unfolding di_and_dx
di_and_dx-di_of t p m e = rw e

module _ {F : Type 0} ⦃num : Num F⦄ (bs : List (Bar F)) (period : ℕ) where
  -- Whether the window that ends at index `period + k` has no true range at all.
  abbrev pub flat_at : ℕ → Bool
  flat_at k = wilder_sum range_of bs period k ≈ nought

  -- +DI, -DI and DX at index `period + k` by the textbook.
  abbrev pub textbook_at : ℕ → Di F
  textbook_at k =
      di_of (wilder_sum range_of bs period k) (wilder_sum up_of bs period k)
        (wilder_sum down_of bs period k)

  -- +DI and -DI are defined from index `period` on where the window is not flat. ADX is defined from
  -- index `2 * period - 1` on as long as no window was flat so far: the first one ends it for good.
  -- Where they are defined they have the textbook's values: ADX is Wilder's average of DX.
  pub record IsAdx (r : AdxResult F) : Type 0 where
    pub adx_aligned : length r.adx ≡ length bs
    pub plus_aligned : length r.plus_di ≡ length bs
    pub minus_aligned : length r.minus_di ≡ length bs
    pub di_early :
        (i : ℕ)
        → i < length bs
        → i < period
        → (get_elem? r.plus_di i ≡ some none) × (get_elem? r.minus_di i ≡ some none)
    pub di_flat :
        (k : ℕ)
        → period + k < length bs
        → flat_at k ≡ true
        → (get_elem? r.plus_di (period + k) ≡ some none)
          × (get_elem? r.minus_di (period + k) ≡ some none)
    pub di_defined :
        (k : ℕ)
        → period + k < length bs
        → flat_at k ≡ false
        → (get_elem? r.plus_di (period + k) ≡ some (some (textbook_at k).plus))
          × (get_elem? r.minus_di (period + k) ≡ some (some (textbook_at k).minus))
    pub adx_early : (i : ℕ) → i < length bs → i < 2 * period - 1 → get_elem? r.adx i ≡ some none
    pub adx_flat :
        (k j : ℕ)
        → 2 * period - 1 + k < length bs
        → j < period + k
        → flat_at j ≡ true
        → get_elem? r.adx (2 * period - 1 + k) ≡ some none
    pub adx_defined :
        (k : ℕ)
        → 2 * period - 1 + k < length bs
        → ((j : ℕ) → j < period + k → flat_at j ≡ false)
        → get_elem? r.adx (2 * period - 1 + k)
          ≡ some (some (wilder_mean period (λ j. (textbook_at j).dx) k))

  abbrev dx_series : List (Option F)
  dx_series = map (component (λ (d : Di F). d.dx)) (di_series bs period)

  module _ (enough : period < length bs) where
    length-dx_series : length dx_series ≡ length bs
    length-dx_series =
        length-map (di_series bs period) (component (λ (d : Di F). d.dx))
        ∙ length-di_series bs period enough

    di_series-entry :
        (k : ℕ)
        → period + k < length bs
        → get_elem? (di_series bs period) (period + k)
          ≡ some (
              di_and_dx
                (wilder_sum range_of bs period k)
                (wilder_sum up_of bs period k)
                (wilder_sum down_of bs period k))
    unfolding true_range plus_dm minus_dm smooth
    di_series-entry k lt = di_series-late bs period k lt

    series-flat :
        (f : Di F → F) (k : ℕ)
        → period + k < length bs
        → flat_at k ≡ true
        → get_elem? (map (component f) (di_series bs period)) (period + k) ≡ some none
    unfolding di_and_dx
    series-flat f k lt e =
        get_elem?-map (component f) (di_series bs period) (period + k) (di_series-entry k lt)
        ∙ ap some (rw e)

    series-defined :
        (f : Di F → F) (k : ℕ)
        → period + k < length bs
        → flat_at k ≡ false
        → get_elem? (map (component f) (di_series bs period)) (period + k)
          ≡ some (some (f (textbook_at k)))
    series-defined f k lt e =
        get_elem?-map (component f) (di_series bs period) (period + k) (di_series-entry k lt)
        ∙ ap (λ o. some (component f o)) (di_and_dx-di_of _ _ _ e)

    adx_long-flat :
        (k j : ℕ)
        → 1 ≤ period
        → 2 * period - 1 + k < length bs
        → j < period + k
        → flat_at j ≡ true
        → get_elem? (adx_series dx_series period) (2 * period - 1 + k) ≡ some none
    adx_long-flat k j h lt jlt e =
        let (x, at, b) = adx_series-late dx_series period k h (omega (arith, length-dx_series)) in
        let gap : get_elem? (slice period (2 * period + k) dx_series) j ≡ some none =
          get_elem?-slice period (2 * period + k) j dx_series (omega arith)
          ∙ series-flat (λ d. d.dx) j (omega arith) e in
        at ∙ ap some (not_is_some x (b ∙ ap is_some (all_defined-none _ j gap)))

    adx_long-defined :
        (k : ℕ)
        → 1 ≤ period
        → 2 * period - 1 + k < length bs
        → ((j : ℕ) → j < period + k → flat_at j ≡ false)
        → get_elem? (adx_series dx_series period) (2 * period - 1 + k)
          ≡ some (some (wilder_mean period (λ j. (textbook_at j).dx) k))
    adx_long-defined k h lt moving =
        adx_series-value dx_series period k (λ j. (textbook_at j).dx) h
          (omega (arith, length-dx_series))
          (λ j below. series-defined (λ d. d.dx) j (omega arith) (moving j below))

    IsAdx-long :
        1 ≤ period
        → IsAdx (record {
          adx = adx_series dx_series period;
          plus_di = map (component (λ d. d.plus)) (di_series bs period);
          minus_di = map (component (λ d. d.minus)) (di_series bs period);
        })
    IsAdx-long h = record {
      adx_aligned = length-adx_series dx_series period h ∙ length-dx_series;
      plus_aligned =
          length-map (di_series bs period) (component (λ (d : Di F). d.plus))
          ∙ length-di_series bs period enough;
      minus_aligned =
          length-map (di_series bs period) (component (λ (d : Di F). d.minus))
          ∙ length-di_series bs period enough;
      di_early = λ i lt early. (
        get_elem?-map (component (λ d. d.plus)) (di_series bs period) i
            (di_series-early bs period i early),
        get_elem?-map (component (λ d. d.minus)) (di_series bs period) i
            (di_series-early bs period i early),
      );
      di_flat = λ k lt e. (series-flat (λ d. d.plus) k lt e, series-flat (λ d. d.minus) k lt e);
      di_defined =
          λ k lt e. (series-defined (λ d. d.plus) k lt e, series-defined (λ d. d.minus) k lt e);
      adx_early =
          λ i lt early. adx_series-early dx_series period i (omega (arith, length-dx_series)) early;
      adx_flat = λ k j lt jlt e. adx_long-flat k j h lt jlt e;
      adx_defined = λ k lt moving. adx_long-defined k h lt moving;
    }

  abbrev nothing : AdxResult F
  nothing = record {
    adx = replicate (length bs) none;
    plus_di = replicate (length bs) none;
    minus_di = replicate (length bs) none;
  }

  IsAdx-short : 1 ≤ period → length bs < period + 1 → IsAdx nothing
  IsAdx-short h short = record {
    adx_aligned = length-replicate (length bs) none;
    plus_aligned = length-replicate (length bs) none;
    minus_aligned = length-replicate (length bs) none;
    di_early = λ i lt early.
        (get_elem?-replicate (length bs) i none lt, get_elem?-replicate (length bs) i none lt);
    di_flat = λ k lt e. absurd (omega arith);
    di_defined = λ k lt e. absurd (omega arith);
    adx_early = λ i lt early. get_elem?-replicate (length bs) i none lt;
    adx_flat = λ k j lt jlt e. absurd (omega arith);
    adx_defined = λ k lt moving. absurd (omega arith);
  }

module _ {F : Type 0} ⦃num : Num F⦄ where
  -- For a period of at least 1 and as many lows and closes as highs there is a result. Its +DI, -DI and
  -- ADX are undefined early on and from flat windows, and elsewhere they have the values of the textbook
  -- formulas over the bars of the three lists, as `IsAdx` says.
  pub compute_adx-IsAdx :
      (highs lows closes : List F) (period : ℕ)
      → 1 ≤ period
      → length highs ≡ length lows
      → length lows ≡ length closes
      → (r : AdxResult F) × (compute_adx highs lows closes period ≡ ok r)
        × IsAdx (bars highs lows closes) period r
        × IsBars highs lows closes (bars highs lows closes)
  unfolding compute_adx
  compute_adx-IsAdx highs lows closes period h p q =
      let bs = bars highs lows closes in
      let size : length bs ≡ length highs = length-bars highs lows closes p q in
      let checks : ((length highs == length lows) && (length lows == length closes)) ≡ true =
        (&&_iff _ _).1 ((==_iff _ _).1 p, (==_iff _ _).1 q) in
      elim (Bool-cases (ltb (length highs) (period + 1))) [
        | inl short ↦ (
          nothing bs period,
          rw (ltb-false period 1 h, checks, short, size),
          IsAdx-short bs period h (omega (arith, ltb→lt _ _ short, size)),
          bars-IsBars highs lows closes p q,
        )
        | inr long ↦ (
          _,
          rw (ltb-false period 1 h, checks, long),
          IsAdx-long bs period (omega (arith, ltb→ge _ _ long, size)) h,
          bars-IsBars highs lows closes p q,
        )
      ]
