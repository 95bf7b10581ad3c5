-- ===== src/Indicators/Adx/Smoothing.antt =====
-- The smoothed true range and directional movements, and the +DI, -DI and DX of each index.
use mathlib.Core.List.{foldl}
use cryptobot_v.Prelude.{
  ℕ, zero, suc, ◌+◌, ◌-◌, ◌<◌, ◌≡◌, refl, sym, ap, ◌∙◌, Option, none, some, List, [], ◌∷◌, arith,
  length, get_elem?, take, drop, replicate, slice, from_second, length-append, length-drop,
  length-replicate, length-from_second, get_elem?-replicate, get_elem?-append_left,
  get_elem?-replicate_append,
}
use cryptobot_v.Number.{Num, nought}
use cryptobot_v.Indicators.Adx.{
  Di, Bar, bars, di_and_dx, plus_dm, minus_dm, true_range, smooth, di_loop, di_series,
}

module _ {F : Type 0} ⦃num : Num F⦄ where
  pub length-bars :
      (hs ls cs : List F)
      → length hs ≡ length ls
      → length ls ≡ length cs
      → length (bars hs ls cs) ≡ length hs
  unfolding bars
  length-bars [] ls cs p q = refl
  length-bars (h ∷ hs) (l ∷ ls) (c ∷ cs) p q =
      ap suc (length-bars hs ls cs (omega arith) (omega arith))
  length-bars (h ∷ hs) [] cs p q = absurd (omega arith)
  length-bars (h ∷ hs) (l ∷ ls) [] p q = absurd (omega arith)

  -- The smoothed value at index `period + k` of a series of movements between bars: the sum of its
  -- first `period` values, and then k Wilder steps.
  abbrev smoothed_at : (Bar F → Bar F → F) → List (Bar F) → ℕ → ℕ → F
  smoothed_at move bs period k =
      let xs = from_second move nought bs in
      foldl (smooth period) (num.sum (slice 1 (period + 1) xs)) (take k (drop (period + 1) xs))

  abbrev pub di_at : List (Bar F) → ℕ → ℕ → Option (Di F)
  di_at bs period k =
      di_and_dx (smoothed_at true_range bs period k) (smoothed_at plus_dm bs period k)
        (smoothed_at minus_dm bs period k)

  length-di_loop :
      (p : ℕ) (t u d : F) (ts us ds : List F)
      → length ts ≡ length us
      → length us ≡ length ds
      → length (di_loop p t u d ts us ds) ≡ length ts
  unfolding di_loop
  length-di_loop p t u d [] us ds e f = refl
  length-di_loop p t u d (x ∷ ts) (y ∷ us) (z ∷ ds) e f = ap suc (
      length-di_loop p (smooth p t x) (smooth p u y) (smooth p d z) ts us ds (omega arith)
        (omega arith))
  length-di_loop p t u d (x ∷ ts) [] ds e f = absurd (omega arith)
  length-di_loop p t u d (x ∷ ts) (y ∷ us) [] e f = absurd (omega arith)

  get_elem?-di_loop :
      (p : ℕ) (t u d : F) (ts us ds : List F) (k : ℕ)
      → length ts ≡ length us
      → length us ≡ length ds
      → k < length ts
      → get_elem? (di_loop p t u d ts us ds) k
        ≡ some (
            di_and_dx
              (foldl (smooth p) t (take (suc k) ts))
              (foldl (smooth p) u (take (suc k) us))
              (foldl (smooth p) d (take (suc k) ds)))
  unfolding di_loop
  get_elem?-di_loop p t u d [] us ds k e f lt = elim lt [ ]
  get_elem?-di_loop p t u d (x ∷ ts) (y ∷ us) (z ∷ ds) zero e f lt = refl
  get_elem?-di_loop p t u d (x ∷ ts) (y ∷ us) (z ∷ ds) (suc k) e f lt =
      get_elem?-di_loop p (smooth p t x) (smooth p u y) (smooth p d z) ts us ds k (omega arith)
        (omega arith) (omega arith)
  get_elem?-di_loop p t u d (x ∷ ts) [] ds k e f lt = absurd (omega arith)
  get_elem?-di_loop p t u d (x ∷ ts) (y ∷ us) [] k e f lt = absurd (omega arith)

  module _ (bs : List (Bar F)) (period : ℕ) where
    length-rest :
        (move : Bar F → Bar F → F)
        → length (drop (period + 1) (from_second move nought bs)) ≡ length bs - (period + 1)
    length-rest move =
        length-drop (period + 1) (from_second move nought bs)
        ∙ ap (λ m. m - (period + 1)) (length-from_second move nought bs)

    same_length :
        (f g : Bar F → Bar F → F)
        → length (drop (period + 1) (from_second f nought bs))
          ≡ length (drop (period + 1) (from_second g nought bs))
    same_length f g = length-rest f ∙ sym (length-rest g)

    pub length-di_series : period < length bs → length (di_series bs period) ≡ length bs
    unfolding di_series
    length-di_series h =
        length-append (replicate period none) _
        ∙ omega (
          arith,
          length-replicate {A = Option (Di F)} period none,
          length-di_loop period (smoothed_at true_range bs period 0)
              (smoothed_at plus_dm bs period 0) (smoothed_at minus_dm bs period 0)
              (drop (period + 1) (from_second true_range nought bs))
              (drop (period + 1) (from_second plus_dm nought bs))
              (drop (period + 1) (from_second minus_dm nought bs)) (same_length true_range plus_dm)
              (same_length plus_dm minus_dm),
          length-rest true_range,
        )

    pub di_series-early : (i : ℕ) → i < period → get_elem? (di_series bs period) i ≡ some none
    unfolding di_series
    di_series-early i h =
        get_elem?-append_left (replicate period none) _ i
          (omega (arith, length-replicate {A = Option (Di F)} period none))
        ∙ get_elem?-replicate period i none h

    pub di_series-late :
        (k : ℕ)
        → period + k < length bs
        → get_elem? (di_series bs period) (period + k) ≡ some (di_at bs period k)
    unfolding di_series
    di_series-late zero h = get_elem?-replicate_append period 0 none _
    di_series-late (suc k) h =
        get_elem?-replicate_append period (suc k) none _
        ∙ get_elem?-di_loop period (smoothed_at true_range bs period 0)
            (smoothed_at plus_dm bs period 0) (smoothed_at minus_dm bs period 0)
            (drop (period + 1) (from_second true_range nought bs))
            (drop (period + 1) (from_second plus_dm nought bs))
            (drop (period + 1) (from_second minus_dm nought bs)) k (same_length true_range plus_dm)
            (same_length plus_dm minus_dm) (omega (arith, length-rest true_range))
