-- ===== src/Indicators/Rsi/Reference.antt =====
-- RSI against Wilder's recurrence and the four cases of the formula, in plain arithmetic.
use mathlib.Core.List.{foldl}
use cryptobot_v.Prelude.{
  ℕ, zero, suc, ◌+◌, ◌-◌, ◌≤◌, ◌<◌, ◌≡◌, refl, sym, ap, ◌∙◌, true, false, Option, none, some, List,
  [], ◌∷◌, ◌++◌, arith, ltb, ltb-false, ltb→lt, ltb→ge, from_second, inl, inr, Bool-cases, length,
  get_elem?, take, drop, replicate, slice, if◌then◌else◌, length-append, length-drop,
  length-replicate, length-from_second, get_elem?-replicate, get_elem?-append_left,
  get_elem?-replicate_append,
}
use cryptobot_v.Prelude.Result.{ok}
use cryptobot_v.Number.{Num, ◌⊕◌, ◌⊖◌, ◌⊗◌, ◌⊘◌, ◌≺◌, ◌≈◌, nought}
use cryptobot_v.Indicators.Rsi.{
  rsi_from_averages, gain, loss, gains, losses, wilder, smooth_rsi, first_average, compute_rsi,
}

module _ {F : Type 0} ⦃num : Num F⦄ where
  -- The average at index `period + k`: the mean of the first `period` changes, and then k Wilder steps.
  abbrev average_at : ℕ → List F → ℕ → F
  average_at period xs k =
      foldl (wilder period) (first_average period xs) (take k (drop (period + 1) xs))

  length-smooth_rsi :
      (p : ℕ) (g l : F) (gs ls : List F)
      → length gs ≡ length ls
      → length (smooth_rsi p g l gs ls) ≡ length gs
  unfolding smooth_rsi
  length-smooth_rsi p g l [] ls h = refl
  length-smooth_rsi p g l (x ∷ gs) [] h = absurd (omega arith)
  length-smooth_rsi p g l (x ∷ gs) (y ∷ ls) h =
      ap suc (length-smooth_rsi p (wilder p g x) (wilder p l y) gs ls (omega arith))

  get_elem?-smooth_rsi :
      (p : ℕ) (g l : F) (gs ls : List F) (k : ℕ)
      → length gs ≡ length ls
      → k < length gs
      → get_elem? (smooth_rsi p g l gs ls) k
        ≡ some (
            some (
              rsi_from_averages
                (foldl (wilder p) g (take (suc k) gs))
                (foldl (wilder p) l (take (suc k) ls))))
  unfolding smooth_rsi
  get_elem?-smooth_rsi p g l [] ls k h lt = elim lt [ ]
  get_elem?-smooth_rsi p g l (x ∷ gs) [] k h lt = absurd (omega arith)
  get_elem?-smooth_rsi p g l (x ∷ gs) (y ∷ ls) zero h lt = refl
  get_elem?-smooth_rsi p g l (x ∷ gs) (y ∷ ls) (suc k) h lt =
      get_elem?-smooth_rsi p (wilder p g x) (wilder p l y) gs ls k (omega arith) (omega arith)

  -- The change from one open to the next where it is a rise, and where it is a fall.
  abbrev pub rise : F → F → F
  rise prev curr = if nought ≺ curr ⊖ prev then curr ⊖ prev else nought

  abbrev pub fall : F → F → F
  fall prev curr =
      if nought ≺ curr ⊖ prev
      then nought
      else if curr ⊖ prev ≺ nought
      then num.neg (curr ⊖ prev)
      else nought

  -- Wilder's average at index `period + k` of a series, by its recurrence: the mean of the first
  -- `period` values, and then k times an average of `period - 1` parts of the last one and one part of
  -- the next value.
  abbrev pub wilder_average : ℕ → List F → ℕ → F
  wilder_average period xs k =
      foldl (λ avg x. (avg ⊗ num.of_ℕ (period - 1) ⊕ x) ⊘ num.of_ℕ period)
        (num.sum (slice 1 (period + 1) xs) ⊘ num.of_ℕ period) (take k (drop (period + 1) xs))

  -- The RSI of an average rise g and an average fall l.
  pub record IsRsiOf (g l x : F) : Type 0 where
    pub still : (g ⊕ l) ≈ nought ≡ true → x ≡ num.of_ℕ 50
    pub only_rises : (g ⊕ l) ≈ nought ≡ false → l ≈ nought ≡ true → x ≡ num.of_ℕ 100
    pub only_falls :
        (g ⊕ l) ≈ nought ≡ false → l ≈ nought ≡ false → g ≈ nought ≡ true → x ≡ num.of_ℕ 0
    pub both :
        (g ⊕ l) ≈ nought ≡ false
        → l ≈ nought ≡ false
        → g ≈ nought ≡ false
        → x ≡ num.of_ℕ 100 ⊗ g ⊘ (g ⊕ l)

  rsi_from_averages-IsRsiOf : (g l : F) → IsRsiOf g l (rsi_from_averages g l)
  unfolding rsi_from_averages
  rsi_from_averages-IsRsiOf g l = record {
    still = λ e. rw e;
    only_rises = λ e n. rw (e, n);
    only_falls = λ e n m. rw (e, n, m);
    both = λ e n m. rw (e, n, m);
  }

  -- What `compute_rsi` returns: as many entries as opens; none at the first `period` indices, and
  -- none at all if there are at most `period` opens; at index `period + k` the RSI of Wilder's averages
  -- of the rises and of the falls at that index.
  pub record IsRsi (opens : List F) (period : ℕ) (out : List (Option F)) : Type 0 where
    pub aligned : length out ≡ length opens
    pub undefined : (i : ℕ) → i < length opens → i < period → get_elem? out i ≡ some none
    pub defined :
        (k : ℕ)
        → period + k < length opens
        → (x : F) × (get_elem? out (period + k) ≡ some (some x))
          × IsRsiOf
              (wilder_average period (from_second rise nought opens) k)
              (wilder_average period (from_second fall nought opens) k)
              x

  rsi_tail : List F → ℕ → List (Option F)
  rsi_tail opens period =
      let avg_gain = first_average period (gains opens) in
      let avg_loss = first_average period (losses opens) in
      some (rsi_from_averages avg_gain avg_loss)
      ∷ smooth_rsi period avg_gain avg_loss (drop (period + 1) (gains opens))
          (drop (period + 1) (losses opens))

  length-rest :
      (f : F → F → F) (opens : List F) (n : ℕ)
      → length (drop n (from_second f nought opens)) ≡ length opens - n
  length-rest f opens n =
      length-drop n (from_second f nought opens)
      ∙ ap (λ m. m - n) (length-from_second f nought opens)

  IsRsi-short :
      (opens : List F) (period : ℕ)
      → length opens < period + 1
      → IsRsi opens period (replicate (length opens) none)
  IsRsi-short opens period h = record {
    aligned = length-replicate (length opens) none;
    undefined = λ i lt _. get_elem?-replicate (length opens) i none lt;
    defined = λ k lt. absurd (omega arith);
  }

  IsRsi-long :
      (opens : List F) (period : ℕ)
      → period < length opens
      → IsRsi opens period (replicate period none ++ rsi_tail opens period)
  unfolding rsi_tail wilder first_average gain loss
  IsRsi-long opens period h = record {
    aligned = omega (
      arith,
      length-append (replicate period none) (rsi_tail opens period),
      length-replicate {A = Option F} period none,
      length-smooth_rsi period (first_average period (gains opens))
          (first_average period (losses opens)) (drop (period + 1) (gains opens))
          (drop (period + 1) (losses opens)) same,
      length-rest gain opens (period + 1),
    );
    undefined = λ i lt below.
        get_elem?-append_left (replicate period none) (rsi_tail opens period) i
          (omega (arith, length-replicate {A = Option F} period none))
        ∙ get_elem?-replicate period i none below;
    defined = λ k lt. (
      _,
      get_elem?-replicate_append period k none (rsi_tail opens period) ∙ entry k lt,
      rsi_from_averages-IsRsiOf (average_at period (gains opens) k)
          (average_at period (losses opens) k),
    );
  }
    where
      same : length (drop (period + 1) (gains opens)) ≡ length (drop (period + 1) (losses opens))
      same = length-rest gain opens (period + 1) ∙ sym (length-rest loss opens (period + 1))

      entry :
          (k : ℕ)
          → period + k < length opens
          → get_elem? (rsi_tail opens period) k
            ≡ some (
                some (
                  rsi_from_averages
                    (average_at period (gains opens) k)
                    (average_at period (losses opens) k)))
      entry zero lt = refl
      entry (suc k) lt =
          get_elem?-smooth_rsi period (first_average period (gains opens))
            (first_average period (losses opens)) (drop (period + 1) (gains opens))
            (drop (period + 1) (losses opens)) k same
            (omega (arith, length-rest gain opens (period + 1)))

  -- For a period of at least 1 there is a result, and its entries are the RSI of Wilder's averages as `IsRsi` says.
  pub compute_rsi-IsRsi :
      (opens : List F) (period : ℕ)
      → 1 ≤ period
      → (out : List (Option F)) × (compute_rsi opens period ≡ ok out) × IsRsi opens period out
  unfolding compute_rsi rsi_tail
  compute_rsi-IsRsi opens period h = elim (Bool-cases (ltb (length opens) (period + 1))) [
    | inl short ↦ (
      replicate (length opens) none,
      rw (ltb-false period 1 h, short),
      IsRsi-short opens period (ltb→lt _ _ short),
    )
    | inr long ↦ (
      replicate period none ++ rsi_tail opens period,
      rw (ltb-false period 1 h, long),
      IsRsi-long opens period (omega (arith, ltb→ge _ _ long)),
    )
  ]
