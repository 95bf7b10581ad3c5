-- ===== src/Indicators/Adx/Wilder.antt =====
-- The value of ADX: Wilder's recurrence over the DX values.
use cryptobot_v.Prelude.{
  ℕ, zero, suc, ◌+◌, ◌-◌, ◌*◌, ◌≤◌, ◌<◌, ◌≡◌, refl, ap, ◌∙◌, Option, none, some, List, [], ◌∷◌,
  arith, length, get_elem?, drop, slice, tabulate_from, length-slice, some-inj, length-drop,
  get_elem?-slice, get_elem?-drop, get_elem?-replicate_append,
}
use cryptobot_v.Number.{Num, ◌⊕◌, ◌⊗◌, ◌⊘◌}
use cryptobot_v.Indicators.RsiVwma.{all_defined}
use cryptobot_v.Indicators.Rsi.{wilder}
use cryptobot_v.Indicators.Adx.{adx_loop, adx_series}
use cryptobot_v.Indicators.Adx.Defined.{ltb→leb_false}

module _ {F : Type 0} ⦃num : Num F⦄ where
  -- k steps of Wilder's average from v over the values of d.
  abbrev pub wilder_steps : ℕ → F → (ℕ → F) → ℕ → F
  wilder_steps period v d zero = v
  wilder_steps period v d (suc k) =
      (wilder_steps period v d k ⊗ num.of_ℕ (period - 1) ⊕ d k) ⊘ num.of_ℕ period

  -- The average at the k-th place: the mean of the first `period` values, and then k steps over the
  -- next ones.
  abbrev pub wilder_mean : ℕ → (ℕ → F) → ℕ → F
  wilder_mean period d k =
      wilder_steps period (num.sum (tabulate_from d 0 period) ⊘ num.of_ℕ period)
        (λ j. d (period + j)) k

  wilder_steps-first :
      (p : ℕ) (v : F) (d : ℕ → F) (k : ℕ)
      → wilder_steps p (wilder p v (d 0)) (λ j. d (suc j)) k ≡ wilder_steps p v d (suc k)
  unfolding wilder
  wilder_steps-first p v d zero = refl
  wilder_steps-first p v d (suc k) =
      ap (λ a. (a ⊗ num.of_ℕ (p - 1) ⊕ d (suc k)) ⊘ num.of_ℕ p) (wilder_steps-first p v d k)

  -- The entries of a list from the s-th value of d on.
  abbrev Values : List (Option F) → (ℕ → F) → ℕ → Type 0
  Values xs d s = (i : ℕ) → i < length xs → get_elem? xs i ≡ some (some (d (s + i)))

  all_defined-tabulate :
      (xs : List (Option F)) (d : ℕ → F) (s : ℕ)
      → Values xs d s
      → all_defined xs ≡ some (tabulate_from d s (length xs))
  unfolding all_defined
  all_defined-tabulate [] d s h = refl
  all_defined-tabulate (none ∷ xs) d s h = absurd (cc (h 0 (omega arith)))
  all_defined-tabulate (some x ∷ xs) d s h =
      let first : x ≡ d s = some-inj (some-inj (h 0 (omega arith))) ∙ ap d (omega arith) in
      let rest =
        all_defined-tabulate xs d (suc s)
          (λ i lt. h (suc i) (omega arith) ∙ ap (λ j. some (some (d j))) (omega arith)) in
      rw (rest, first)

  adx_loop-steps :
      (p : ℕ) (v : F) (dxs : List (Option F)) (d : ℕ → F) (k : ℕ)
      → k < length dxs
      → ((j : ℕ) → j ≤ k → get_elem? dxs j ≡ some (some (d j)))
      → get_elem? (adx_loop p v dxs) k ≡ some (some (wilder_steps p v d (suc k)))
  unfolding adx_loop wilder
  adx_loop-steps p v [] d k lt h = elim lt [ ]
  adx_loop-steps p v (none ∷ dxs) d k lt h = absurd (cc (h 0 (omega arith)))
  adx_loop-steps p v (some x ∷ dxs) d zero lt h =
      let first : x ≡ d 0 = some-inj (some-inj (h 0 (omega arith))) in unfold wilder in rw first
  adx_loop-steps p v (some x ∷ dxs) d (suc k) lt h =
      let first : x ≡ d 0 = some-inj (some-inj (h 0 (omega arith))) in
      rw first (
        adx_loop-steps p (wilder p v (d 0)) dxs (λ j. d (suc j)) k (omega arith)
          (λ j le. h (suc j) (omega arith))
        ∙ ap (λ a. some (some a)) (wilder_steps-first p v d (suc k)))

  -- Where the DX values from index p on are those of d, ADX is their Wilder average.
  pub adx_series-value :
      (dx : List (Option F)) (p k : ℕ) (d : ℕ → F)
      → 1 ≤ p
      → 2 * p - 1 + k < length dx
      → ((j : ℕ) → j < p + k → get_elem? dx (p + j) ≡ some (some (d j)))
      → get_elem? (adx_series dx p) (2 * p - 1 + k) ≡ some (some (wilder_mean p d k))
  unfolding adx_series
  adx_series-value dx p k d h lt at =
      let count : length (slice p (2 * p) dx) ≡ p = omega (arith, length-slice p (2 * p) dx) in
      let initial : all_defined (slice p (2 * p) dx) ≡ some (tabulate_from d 0 p) =
        all_defined-tabulate (slice p (2 * p) dx) d 0 (λ i lt.
          get_elem?-slice p (2 * p) i dx (omega (arith, count))
          ∙ at i (omega (arith, count))
          ∙ ap (λ j. some (some (d j))) (omega arith))
        ∙ ap (λ n. some (tabulate_from d 0 n)) count in
      rw (ltb→leb_false (length dx) (2 * p - 1) (omega arith), initial)
        (get_elem?-replicate_append (2 * p - 1) k none _ ∙ tail k lt at)
    where
      mean : F
      mean = num.sum (tabulate_from d 0 p) ⊘ num.of_ℕ p

      tail :
          (k : ℕ)
          → 2 * p - 1 + k < length dx
          → ((j : ℕ) → j < p + k → get_elem? dx (p + j) ≡ some (some (d j)))
          → get_elem? (some mean ∷ adx_loop p mean (drop (2 * p) dx)) k
            ≡ some (some (wilder_steps p mean (λ j. d (p + j)) k))
      tail zero lt at = refl
      tail (suc k) lt at =
          adx_loop-steps p mean (drop (2 * p) dx) (λ j. d (p + j)) k
            (omega (arith, length-drop (2 * p) dx))
            (λ j le.
              get_elem?-drop (2 * p) j dx
              ∙ ap (get_elem? dx) (omega arith)
              ∙ at (p + j) (omega arith))
