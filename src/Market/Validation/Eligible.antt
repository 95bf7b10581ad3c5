-- ===== src/Market/Validation/Eligible.antt =====
-- What a series without problems looks like.
use cryptobot_v.Prelude.{
  ℕ, zero, suc, ◌+◌, ◌*◌, ◌≡◌, refl, ◌↔◌, true, some, List, [], ◌∷◌, ◌++◌, arith, All, get_elem?,
}
use cryptobot_v.Prelude.Text.{Text, text_eq_iff}
use cryptobot_v.Market.Candle.{Candle, interval_ms}
use cryptobot_v.Market.Validation.{candle_problems, step_problem, step_problems, validate_series}

append-nil_left {ℓ} : {A : Type ℓ} (xs ys : List A) → xs ++ ys ≡ [] → (xs ≡ []) × (ys ≡ [])
append-nil_left [] ys h = (refl, h)
append-nil_left (x ∷ xs) ys h = cc

module _ {F : Type 0} where
  -- Each candle is closed, of the given symbol, and one minute behind the one before it.
  abbrev pub IsMember : Text → Candle F → Type 0
  IsMember symbol c = (c.is_closed ≡ true) × (c.symbol ≡ symbol)

  abbrev pub IsNext : Candle F → List (Candle F) → Type 0
  IsNext prev [] = Unit {0}
  IsNext prev (c ∷ cs) = (c.open_time ≡ prev.open_time + interval_ms) × IsNext c cs

  abbrev pub IsEligible : List (Candle F) → Type 0
  IsEligible [] = ⊥
  IsEligible (c ∷ cs) = All (IsMember c.symbol) (c ∷ cs) × IsNext c cs

  candle_problems-IsMember :
      (s : Text) (i : ℕ) (cs : List (Candle F)) → candle_problems s i cs ≡ [] → All (IsMember s) cs
  unfolding candle_problems
  candle_problems-IsMember s i [] h = tt
  candle_problems-IsMember s i (c ∷ cs) h =
      ground (arith, text_eq_iff c.symbol s, candle_problems-IsMember s (i + 1) cs)

  IsMember-candle_problems :
      (s : Text) (i : ℕ) (cs : List (Candle F)) → All (IsMember s) cs → candle_problems s i cs ≡ []
  unfolding candle_problems
  IsMember-candle_problems s i [] h = refl
  IsMember-candle_problems s i (c ∷ cs) h =
      ground (arith, text_eq_iff c.symbol s, IsMember-candle_problems s (i + 1) cs h.1)

  step_problem_iff :
      (i : ℕ) (p c : Candle F)
      → (step_problem i p c ≡ []) ↔ (c.open_time ≡ p.open_time + interval_ms)
  unfolding step_problem
  step_problem_iff i p c = ground arith

  step_problems-IsNext :
      (i : ℕ) (p : Candle F) (cs : List (Candle F)) → step_problems i p cs ≡ [] → IsNext p cs
  unfolding step_problems
  step_problems-IsNext i p [] h = tt
  step_problems-IsNext i p (c ∷ cs) h =
      let (a, b) = append-nil_left (step_problem i p c) _ h in
      ((step_problem_iff i p c).0 a, step_problems-IsNext (i + 1) c cs b)

  IsNext-step_problems :
      (i : ℕ) (p : Candle F) (cs : List (Candle F)) → IsNext p cs → step_problems i p cs ≡ []
  unfolding step_problems
  IsNext-step_problems i p [] h = refl
  IsNext-step_problems i p (c ∷ cs) h =
      rw ((step_problem_iff i p c).1 h.0) (IsNext-step_problems (i + 1) c cs h.1)

  -- The series has no problems exactly when it is not empty, every candle is closed and of the first
  -- one's symbol, and each opens exactly one minute behind the one before it.
  pub validate_series_iff : (cs : List (Candle F)) → (validate_series cs ≡ []) ↔ IsEligible cs
  unfolding validate_series
  validate_series_iff [] = (λ h. cc, λ h. absurd h)
  validate_series_iff (c ∷ cs) = (
    λ h.
        let (a, b) = append-nil_left (candle_problems c.symbol 0 (c ∷ cs)) _ h in
        (candle_problems-IsMember c.symbol 0 (c ∷ cs) a, step_problems-IsNext 1 c cs b),
    λ h. rw (IsMember-candle_problems c.symbol 0 (c ∷ cs) h.0) (IsNext-step_problems 1 c cs h.1),
  )

  IsNext-open_time :
      (p : Candle F) (cs : List (Candle F)) (i : ℕ) (c : Candle F)
      → IsNext p cs
      → get_elem? (p ∷ cs) i ≡ some c
      → c.open_time ≡ p.open_time + i * interval_ms
  IsNext-open_time p cs zero c n e = ground arith
  IsNext-open_time p [] (suc i) c n e = cc
  IsNext-open_time p (d ∷ cs) (suc i) c n e = omega (arith, IsNext-open_time d cs i c n.1 e, n.0)

  -- In a series without problems the candle at index i opens i minutes behind the first.
  pub valid_open_time :
      (p : Candle F) (cs : List (Candle F)) (i : ℕ) (c : Candle F)
      → validate_series (p ∷ cs) ≡ []
      → get_elem? (p ∷ cs) i ≡ some c
      → c.open_time ≡ p.open_time + i * interval_ms
  valid_open_time p cs i c v e = IsNext-open_time p cs i c ((validate_series_iff (p ∷ cs)).0 v).1 e
