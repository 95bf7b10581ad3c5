-- ===== src/Indicators/RsiVwma/Window.antt =====
-- When RSI-VWMA is defined, and its value.
use cryptobot_v.Prelude.{
  ℕ, zero, suc, ◌+◌, ◌-◌, ◌≤◌, ◌<◌, ◌≡◌, refl, ap, ◌∙◌, true, false, Option, none, some, List, [],
  ◌∷◌, ◌++◌, arith, ltb, ltb-false, lt→ltb, ltb→ge, tabulate_from, inl, inr, Bool-cases, is_some,
  length, get_elem?, slice, get_elem?-slice, length-tabulate_from, get_elem?-tabulate_from, ==_iff,
}
use cryptobot_v.Prelude.Result.{ok}
use cryptobot_v.Number.{Num, ◌≈◌, ◌⊘◌, nought}
use cryptobot_v.Indicators.RsiVwma.{
  all_defined, products, weighted_average, vwma_at, compute_rsi_vwma,
}

module _ {F : Type 0} where
  pub all_defined-some :
      (xs : List (Option F))
      → ((i : ℕ) → i < length xs → (x : F) × (get_elem? xs i ≡ some (some x)))
      → (ys : List F) × (all_defined xs ≡ some ys)
  unfolding all_defined
  all_defined-some [] h = ([], refl)
  all_defined-some (none ∷ xs) h = absurd (cc (h 0 (omega arith)).1)
  all_defined-some (some x ∷ xs) h =
      let (ys, e) = all_defined-some xs (λ i lt. h (suc i) (omega arith)) in (x ∷ ys, rw e)

  pub all_defined-none :
      (xs : List (Option F)) (i : ℕ) → get_elem? xs i ≡ some none → all_defined xs ≡ none
  unfolding all_defined
  all_defined-none [] i e = cc
  all_defined-none (none ∷ xs) i e = refl
  all_defined-none (some x ∷ xs) zero e = cc
  all_defined-none (some x ∷ xs) (suc i) e = rw (all_defined-none xs i e)

  -- A list is defined just when both of its parts are.
  pub is_some-all_defined-append :
      (xs ys : List (Option F))
      → is_some (all_defined (xs ++ ys))
        ≡ elim (all_defined xs) [ none ↦ false | some _ ↦ is_some (all_defined ys) ]
  unfolding all_defined
  is_some-all_defined-append [] ys = refl
  is_some-all_defined-append (none ∷ xs) ys = refl
  is_some-all_defined-append (some x ∷ xs) ys = ground (arith, is_some-all_defined-append xs ys)

module _ {F : Type 0} ⦃num : Num F⦄ (rsi : List (Option F)) (volumes : List F) (period : ℕ) where
  -- What `compute_rsi_vwma` returns. It fails closed in each of three cases: the window starts before
  -- the series, an RSI in the window is missing, the window has no volume.
  pub record IsVwma (out : List (Option F)) : Type 0 where
    pub aligned : length out ≡ length rsi
    pub too_early : (t : ℕ) → t < length rsi → t + 1 < period → get_elem? out t ≡ some none
    pub missing_rsi :
        (t i : ℕ)
        → t < length rsi
        → t < i + period
        → i ≤ t
        → get_elem? rsi i ≡ some none
        → get_elem? out t ≡ some none
    pub no_volume :
        (t : ℕ)
        → t < length rsi
        → num.sum (slice (t + 1 - period) (t + 1) volumes) ≈ nought ≡ true
        → get_elem? out t ≡ some none
    pub average :
        (t : ℕ) (rs : List F)
        → t < length rsi
        → period ≤ t + 1
        → all_defined (slice (t + 1 - period) (t + 1) rsi) ≡ some rs
        → let volume = num.sum (slice (t + 1 - period) (t + 1) volumes) in
          volume ≈ nought ≡ false
          → get_elem? out t
            ≡ some (some (num.sum (products rs (slice (t + 1 - period) (t + 1) volumes)) ⊘ volume))

  vwma_at-missing :
      (t i : ℕ)
      → t < length rsi
      → t < i + period
      → i ≤ t
      → get_elem? rsi i ≡ some none
      → vwma_at rsi volumes period t ≡ none
  unfolding vwma_at
  vwma_at-missing t i lt near le e = elim (Bool-cases (ltb (t + 1) period)) [
    | inl early ↦ rw early
    | inr late ↦
        let start = t + 1 - period in
        let entry : get_elem? (slice start (t + 1) rsi) (i - start) ≡ some none =
          get_elem?-slice start (t + 1) (i - start) rsi (omega arith)
          ∙ ap (get_elem? rsi) (omega (arith, ltb→ge _ _ late))
          ∙ e in
        rw (late, all_defined-none (slice start (t + 1) rsi) (i - start) entry)
  ]

  vwma_at-no_volume :
      (t : ℕ)
      → num.sum (slice (t + 1 - period) (t + 1) volumes) ≈ nought ≡ true
      → vwma_at rsi volumes period t ≡ none
  unfolding vwma_at
  vwma_at-no_volume t e = ground arith

  pub compute_rsi_vwma-IsVwma :
      1 ≤ period
      → length rsi ≡ length volumes
      → (out : List (Option F)) × (compute_rsi_vwma rsi volumes period ≡ ok out) × IsVwma out
  unfolding compute_rsi_vwma vwma_at
  compute_rsi_vwma-IsVwma h same = (
    tabulate_from (vwma_at rsi volumes period) 0 (length rsi),
    rw (ltb-false period 1 h, (==_iff _ _).1 same),
    record {
      aligned = length-tabulate_from (vwma_at rsi volumes period) 0 (length rsi);
      too_early = λ t lt early. entry t lt none (rw (lt→ltb _ _ early));
      missing_rsi = λ t i lt near le e. entry t lt none (vwma_at-missing t i lt near le e);
      no_volume = λ t lt e. entry t lt none (vwma_at-no_volume t e);
      average = λ t rs lt room e v.
          entry t lt _ (rw (ltb-false (t + 1) period room, e, v, weighted_average));
    },
  )
    where
      entry :
          (t : ℕ)
          → t < length rsi
          → (r : Option F) → vwma_at rsi volumes period t ≡ r
          → get_elem? (tabulate_from (vwma_at rsi volumes period) 0 (length rsi)) t ≡ some r
      entry t lt r e =
          get_elem?-tabulate_from (vwma_at rsi volumes period) 0 (length rsi) t lt
          ∙ ap some (ap (vwma_at rsi volumes period) (omega arith) ∙ e)
