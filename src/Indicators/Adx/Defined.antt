-- ===== src/Indicators/Adx/Defined.antt =====
-- When ADX is defined.
use cryptobot_v.Prelude.{
  ℕ, zero, suc, ◌+◌, ◌-◌, ◌*◌, ◌≤◌, ◌<◌, ◌≡◌, refl, ap, ◌∙◌, Bool, false, Option, none, some, List,
  [], ◌∷◌, ◌++◌, arith, leb, inl, inr, Bool-cases, Option-cases, is_some, length, get_elem?, take,
  drop, replicate, slice, take-add, drop-drop, length-append, length-drop, length-replicate,
  get_elem?-replicate, get_elem?-append_left, get_elem?-replicate_append,
}
use cryptobot_v.Number.{Num}
use cryptobot_v.Indicators.RsiVwma.{all_defined}
use cryptobot_v.Indicators.RsiVwma.Window.{is_some-all_defined-append}
use cryptobot_v.Indicators.Rsi.{wilder}
use cryptobot_v.Indicators.Adx.{adx_loop, adx_series}

-- An entry that is there, and is defined just when `b` says so.
abbrev pub Has {ℓ} : {A : Type ℓ} → List (Option A) → ℕ → Bool → Type ℓ
Has {A = A} xs i b = (x : Option A) × (get_elem? xs i ≡ some x) × (is_some x ≡ b)

pub ltb→leb_false : (a b : ℕ) → b < a → leb a b ≡ false
ltb→leb_false a b h = ground arith

pub leb_false→lt : (a b : ℕ) → leb a b ≡ false → b < a
leb_false→lt a b h = ground arith

module _ {F : Type 0} ⦃num : Num F⦄ where
  length-adx_loop : (p : ℕ) (v : F) (dxs : List (Option F)) → length (adx_loop p v dxs) ≡ length dxs
  unfolding adx_loop
  length-adx_loop p v [] = refl
  length-adx_loop p v (none ∷ dxs) = ap suc (length-replicate (length dxs) none)
  length-adx_loop p v (some d ∷ dxs) = ap suc (length-adx_loop p (wilder p v d) dxs)

  adx_loop-Has :
      (p : ℕ) (v : F) (dxs : List (Option F)) (k : ℕ)
      → k < length dxs
      → Has (adx_loop p v dxs) k (is_some (all_defined (take (suc k) dxs)))
  unfolding adx_loop all_defined
  adx_loop-Has p v [] k h = elim h [ ]
  adx_loop-Has p v (none ∷ dxs) zero h = (none, refl, refl)
  adx_loop-Has p v (none ∷ dxs) (suc k) h =
      (none, get_elem?-replicate (length dxs) k none (omega arith), refl)
  adx_loop-Has p v (some d ∷ dxs) zero h = (_, refl, refl)
  adx_loop-Has p v (some d ∷ dxs) (suc k) h =
      let (x, e, b) = adx_loop-Has p (wilder p v d) dxs k (omega arith) in (x, e, ground (arith, b))

  all_defined-slice :
      (dx : List (Option F)) (p k : ℕ)
      → is_some (all_defined (slice p (2 * p + k) dx)) ≡ elim (all_defined (slice p (2 * p) dx)) [
        | none ↦ false
        | some _ ↦ is_some (all_defined (take k (drop (2 * p) dx)))
      ]
  all_defined-slice dx p k =
      let split : slice p (2 * p + k) dx ≡ slice p (2 * p) dx ++ take k (drop (2 * p) dx) =
        ap (λ m. take m (drop p dx)) {y = 2 * p - p + k} (omega arith)
        ∙ take-add (2 * p - p) k (drop p dx)
        ∙ ap (λ m. slice p (2 * p) dx ++ take k m)
            (drop-drop p (2 * p - p) dx ∙ ap (λ m. drop m dx) (omega arith)) in
      rw split (is_some-all_defined-append (slice p (2 * p) dx) (take k (drop (2 * p) dx)))

  -- From index `2 * p - 1` on ADX is defined just as long as every DX from index p on is.
  pub adx_series-late :
      (dx : List (Option F)) (p k : ℕ)
      → 1 ≤ p
      → 2 * p - 1 + k < length dx
      → Has (adx_series dx p) (2 * p - 1 + k) (is_some (all_defined (slice p (2 * p + k) dx)))
  unfolding adx_series
  adx_series-late dx p k h lt =
      rw (ltb→leb_false (length dx) (2 * p - 1) (omega arith), all_defined-slice dx p k)
        (elim (Option-cases (all_defined (slice p (2 * p) dx))) [
          | inl e ↦ rw e (none, get_elem?-replicate (length dx) (2 * p - 1 + k) none lt, refl)
          | inr (initial, e) ↦ rw e (tail k lt (num.div (num.sum initial) (num.of_ℕ p)))
        ])
    where
      tail :
          (k : ℕ)
          → 2 * p - 1 + k < length dx
          → (v : F)
          → Has
              (replicate (2 * p - 1) none ++ (some v ∷ adx_loop p v (drop (2 * p) dx)))
              (2 * p - 1 + k)
              (is_some (all_defined (take k (drop (2 * p) dx))))
      tail zero lt v = (some v, get_elem?-replicate_append (2 * p - 1) 0 none _, refl)
      tail (suc j) lt v =
          let (x, e, b) =
            adx_loop-Has p v (drop (2 * p) dx) j (omega (arith, length-drop (2 * p) dx)) in
          (x, get_elem?-replicate_append (2 * p - 1) (suc j) none _ ∙ e, b)

  pub length-adx_series :
      (dx : List (Option F)) (p : ℕ) → 1 ≤ p → length (adx_series dx p) ≡ length dx
  unfolding adx_series
  length-adx_series dx p h = elim (Bool-cases (leb (length dx) (2 * p - 1))) [
    | inl short ↦ rw short (length-replicate (length dx) none)
    | inr long ↦ rw long (elim (Option-cases (all_defined (slice p (2 * p) dx))) [
      | inl e ↦ rw e (length-replicate (length dx) none)
      | inr (initial, e) ↦ rw e (tail (num.div (num.sum initial) (num.of_ℕ p)) long)
    ])
  ]
    where
      tail :
          (v : F)
          → leb (length dx) (2 * p - 1) ≡ false
          → length (replicate (2 * p - 1) none ++ (some v ∷ adx_loop p v (drop (2 * p) dx)))
            ≡ length dx
      tail v long = omega (
        arith,
        length-append (replicate (2 * p - 1) none) (some v ∷ adx_loop p v (drop (2 * p) dx)),
        length-replicate {A = Option F} (2 * p - 1) none,
        length-adx_loop p v (drop (2 * p) dx),
        length-drop (2 * p) dx,
        leb_false→lt (length dx) (2 * p - 1) long,
      )

  pub adx_series-early :
      (dx : List (Option F)) (p i : ℕ)
      → i < length dx
      → i < 2 * p - 1
      → get_elem? (adx_series dx p) i ≡ some none
  unfolding adx_series
  adx_series-early dx p i lt early = elim (Bool-cases (leb (length dx) (2 * p - 1))) [
    | inl short ↦ rw short (get_elem?-replicate (length dx) i none lt)
    | inr long ↦ rw long (elim (Option-cases (all_defined (slice p (2 * p) dx))) [
      | inl e ↦ rw e (get_elem?-replicate (length dx) i none lt)
      | inr (initial, e) ↦ rw e (
          get_elem?-append_left (replicate (2 * p - 1) none) _ i
            (omega (arith, length-replicate {A = Option F} (2 * p - 1) none))
          ∙ get_elem?-replicate (2 * p - 1) i none early)
    ])
  ]
