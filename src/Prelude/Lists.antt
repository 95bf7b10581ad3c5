-- ===== src/Prelude/Lists.antt =====
-- Lists measured and indexed by native numbers, under the library's names, and Python's slices.
use Prim.Native.Nat.{ℕ, zero, suc, ◌+◌, ◌-◌, ◌≤◌, ◌<◌, min}
use mathlib.Core.Path.{◌≡◌, refl, sym, ap, ◌∙◌}
use mathlib.Core.Logic.{◌⊎◌, inl, inr}
use mathlib.Core.Bool.{Bool, true, false}
use mathlib.Core.List.{List, [], ◌∷◌, ◌++◌, map}
use mathlib.Core.Option.{Option, none, some}
use native.Mathlib.Omega.{arith}
use cryptobot_v.Prelude.Tests.{if◌then◌else◌}

module _ {ℓ} {A : Type ℓ} where
  abbrev pub length : List A → ℕ
  length [] = 0
  length (x ∷ xs) = suc (length xs)

  abbrev pub get_elem? : List A → ℕ → Option A
  get_elem? [] i = none
  get_elem? (x ∷ xs) zero = some x
  get_elem? (x ∷ xs) (suc i) = get_elem? xs i

  abbrev pub take : ℕ → List A → List A
  take zero xs = []
  take (suc n) [] = []
  take (suc n) (x ∷ xs) = x ∷ take n xs

  abbrev pub drop : ℕ → List A → List A
  drop zero xs = xs
  drop (suc n) [] = []
  drop (suc n) (x ∷ xs) = drop n xs

  abbrev pub replicate : ℕ → A → List A
  replicate zero a = []
  replicate (suc n) a = a ∷ replicate n a

  -- `xs[-1]`
  abbrev pub get_last? : List A → Option A
  get_last? [] = none
  get_last? (x ∷ []) = some x
  get_last? (x ∷ y ∷ xs) = get_last? (y ∷ xs)

module _ {ℓ} {A : Type ℓ} where
  -- `xs[i:j]` for i and j that are not negative
  abbrev pub slice : ℕ → ℕ → List A → List A
  slice i j xs = take (j - i) (drop i xs)

  -- `xs[-k:]` for a positive k
  abbrev pub take_last : ℕ → List A → List A
  take_last k xs = drop (length xs - k) xs

  abbrev pub is_empty : List A → Bool
  is_empty [] = true
  is_empty (x ∷ xs) = false

  abbrev pub any_of : (A → Bool) → List A → Bool
  any_of p [] = false
  any_of p (x ∷ xs) = if p x then true else any_of p xs

  pub length-append : (xs ys : List A) → length (xs ++ ys) ≡ length xs + length ys
  length-append [] ys = omega arith
  length-append (x ∷ xs) ys = omega (arith, length-append xs ys)

  pub length-take : (n : ℕ) (xs : List A) → length (take n xs) ≡ min n (length xs)
  length-take zero xs = omega arith
  length-take (suc n) [] = omega arith
  length-take (suc n) (x ∷ xs) = omega (arith, length-take n xs)

  pub length-drop : (n : ℕ) (xs : List A) → length (drop n xs) ≡ length xs - n
  length-drop zero xs = omega arith
  length-drop (suc n) [] = omega arith
  length-drop (suc n) (x ∷ xs) = omega (arith, length-drop n xs)

  pub length-replicate : (n : ℕ) (a : A) → length (replicate n a) ≡ n
  length-replicate zero a = refl
  length-replicate (suc n) a = ap suc (length-replicate n a)

  pub length-map {κ} : {B : Type κ} (xs : List A) (f : A → B) → length (map f xs) ≡ length xs
  length-map [] f = refl
  length-map (x ∷ xs) f = ap suc (length-map xs f)

  pub get_elem?-map {κ} :
      {B : Type κ} (f : A → B) (xs : List A) (i : ℕ) {a : A}
      → get_elem? xs i ≡ some a
      → get_elem? (map f xs) i ≡ some (f a)
  get_elem?-map f [] i e = cc
  get_elem?-map f (x ∷ xs) zero e = cc
  get_elem?-map f (x ∷ xs) (suc i) e = get_elem?-map f xs i e

  pub take-length : (xs : List A) → take (length xs) xs ≡ xs
  take-length [] = refl
  take-length (x ∷ xs) = ap (◌∷◌ x) (take-length xs)

  pub get_elem?-some : (xs : List A) (i : ℕ) → i < length xs → (a : A) × (get_elem? xs i ≡ some a)
  get_elem?-some [] i h = elim h [ ]
  get_elem?-some (x ∷ xs) zero h = (x, refl)
  get_elem?-some (x ∷ xs) (suc i) h = get_elem?-some xs i (omega arith)

  pub get_elem?-replicate : (n i : ℕ) (a : A) → i < n → get_elem? (replicate n a) i ≡ some a
  get_elem?-replicate zero i a h = elim h [ ]
  get_elem?-replicate (suc n) zero a h = refl
  get_elem?-replicate (suc n) (suc i) a h = get_elem?-replicate n i a (omega arith)

  pub get_elem?-append_left :
      (xs ys : List A) (i : ℕ) → i < length xs → get_elem? (xs ++ ys) i ≡ get_elem? xs i
  get_elem?-append_left [] ys i h = elim h [ ]
  get_elem?-append_left (x ∷ xs) ys zero h = refl
  get_elem?-append_left (x ∷ xs) ys (suc i) h = get_elem?-append_left xs ys i (omega arith)

  -- What stands behind `n` copies of a value.
  pub get_elem?-replicate_append :
      (n i : ℕ) (a : A) (ys : List A) → get_elem? (replicate n a ++ ys) (n + i) ≡ get_elem? ys i
  get_elem?-replicate_append zero i a ys = ap (get_elem? ys) (omega arith)
  get_elem?-replicate_append (suc n) i a ys =
      ap (get_elem? (replicate (suc n) a ++ ys)) (shift n i) ∙ get_elem?-replicate_append n i a ys
    where
      shift : (n i : ℕ) → suc n + i ≡ suc (n + i)
      shift n i = omega arith

  pub get_elem?-drop : (n i : ℕ) (xs : List A) → get_elem? (drop n xs) i ≡ get_elem? xs (n + i)
  get_elem?-drop zero i xs = ap (get_elem? xs) (omega arith)
  get_elem?-drop (suc n) i [] = refl
  get_elem?-drop (suc n) i (x ∷ xs) = get_elem?-drop n i xs ∙ ap (get_elem? (x ∷ xs)) (shift n i)
    where
      shift : (n i : ℕ) → suc (n + i) ≡ suc n + i
      shift n i = omega arith

  pub get_elem?-take : (n i : ℕ) (xs : List A) → i < n → get_elem? (take n xs) i ≡ get_elem? xs i
  get_elem?-take zero i xs h = elim h [ ]
  get_elem?-take (suc n) i [] h = refl
  get_elem?-take (suc n) zero (x ∷ xs) h = refl
  get_elem?-take (suc n) (suc i) (x ∷ xs) h = get_elem?-take n i xs (omega arith)

  pub get_elem?-slice :
      (i j k : ℕ) (xs : List A) → k < j - i → get_elem? (slice i j xs) k ≡ get_elem? xs (i + k)
  get_elem?-slice i j k xs h = get_elem?-take (j - i) k (drop i xs) h ∙ get_elem?-drop i k xs

  pub length-slice : (i j : ℕ) (xs : List A) → length (slice i j xs) ≡ min (j - i) (length xs - i)
  length-slice i j xs = length-take (j - i) (drop i xs) ∙ ap (min (j - i)) (length-drop i xs)

  -- Two slices that meet.
  pub take-add : (m n : ℕ) (xs : List A) → take (m + n) xs ≡ take m xs ++ take n (drop m xs)
  take-add zero n xs = ap (λ k. take k xs) (omega arith)
  take-add (suc m) n [] = nothing (suc m + n) ∙ sym (nothing n)
    where
      nothing : (k : ℕ) → take {A = A} k [] ≡ []
      nothing zero = refl
      nothing (suc k) = refl
  take-add (suc m) n (x ∷ xs) = rw (shift m n) (ap (◌∷◌ x) (take-add m n xs))
    where
      shift : (m n : ℕ) → suc m + n ≡ suc (m + n)
      shift m n = omega arith

  pub drop-drop : (m n : ℕ) (xs : List A) → drop n (drop m xs) ≡ drop (m + n) xs
  drop-drop zero n xs = ap (λ k. drop k xs) (omega arith)
  drop-drop (suc m) n [] = nothing n ∙ sym (nothing (suc m + n))
    where
      nothing : (k : ℕ) → drop {A = A} k [] ≡ []
      nothing zero = refl
      nothing (suc k) = refl
  drop-drop (suc m) n (x ∷ xs) = rw (shift m n) (drop-drop m n xs)
    where
      shift : (m n : ℕ) → suc m + n ≡ suc (m + n)
      shift m n = omega arith

  -- A slice is what a prefix has from its start on.
  pub take-drop : (i j : ℕ) (xs : List A) → drop i (take j xs) ≡ take (j - i) (drop i xs)
  take-drop zero j xs = let same : j ≡ j - 0 = omega arith in ap (λ k. take k xs) same
  take-drop (suc i) zero xs =
      let same : 0 ≡ 0 - suc i = omega arith in ap (λ k. take k (drop (suc i) xs)) same
  take-drop (suc i) (suc j) [] = nothing (suc j - suc i)
    where
      nothing : (k : ℕ) → [] ≡ take {A = A} k []
      nothing zero = refl
      nothing (suc k) = refl
  take-drop (suc i) (suc j) (x ∷ xs) =
      let same : j - i ≡ suc j - suc i = omega arith in
      take-drop i j xs ∙ ap (λ k. take k (drop i xs)) same

  -- A slice that ends within the first part of a list does not see the second.
  pub take-append_left : (n : ℕ) (xs ys : List A) → n ≤ length xs → take n (xs ++ ys) ≡ take n xs
  take-append_left zero xs ys h = refl
  take-append_left (suc n) [] ys h = absurd (omega arith)
  take-append_left (suc n) (x ∷ xs) ys h = ap (◌∷◌ x) (take-append_left n xs ys (omega arith))

  pub drop-append_left :
      (n : ℕ) (xs ys : List A) → n ≤ length xs → drop n (xs ++ ys) ≡ drop n xs ++ ys
  drop-append_left zero xs ys h = refl
  drop-append_left (suc n) [] ys h = absurd (omega arith)
  drop-append_left (suc n) (x ∷ xs) ys h = drop-append_left n xs ys (omega arith)

-- A predicate that holds of every element.
abbrev pub All {ℓ κ} : {A : Type ℓ} → (A → Type κ) → List A → Type κ
All P [] = Unit
All P (x ∷ xs) = P x × All P xs

module _ {ℓ} {B : Type ℓ} where
  -- `[f(i), f(i + 1), …]`, `n` values
  abbrev pub tabulate_from : (ℕ → B) → ℕ → ℕ → List B
  tabulate_from f i zero = []
  tabulate_from f i (suc n) = f i ∷ tabulate_from f (suc i) n

  pub length-tabulate_from : (f : ℕ → B) (i n : ℕ) → length (tabulate_from f i n) ≡ n
  length-tabulate_from f i zero = refl
  length-tabulate_from f i (suc n) = ap suc (length-tabulate_from f (suc i) n)

  pub get_elem?-tabulate_from :
      (f : ℕ → B) (i n k : ℕ) → k < n → get_elem? (tabulate_from f i n) k ≡ some (f (i + k))
  get_elem?-tabulate_from f i zero k h = elim h [ ]
  get_elem?-tabulate_from f i (suc n) zero h = ap (λ j. some (f j)) (omega arith)
  get_elem?-tabulate_from f i (suc n) (suc k) h =
      get_elem?-tabulate_from f (suc i) n k (omega arith) ∙ ap (λ j. some (f j)) (omega arith)

module _ {ℓ κ} {A : Type ℓ} {B : Type κ} where
  -- `f` of each element and the one before it; `x` stands before the list.
  abbrev pub consecutive : (A → A → B) → A → List A → List B
  consecutive f x [] = []
  consecutive f x (y ∷ ys) = f x y ∷ consecutive f y ys

  -- The list `[d] * n` whose entries from index 1 on are overwritten by `f`.
  abbrev pub from_second : (A → A → B) → B → List A → List B
  from_second f d [] = []
  from_second f d (x ∷ xs) = d ∷ consecutive f x xs

  pub length-consecutive :
      (f : A → A → B) (x : A) (ys : List A) → length (consecutive f x ys) ≡ length ys
  length-consecutive f x [] = refl
  length-consecutive f x (y ∷ ys) = ap suc (length-consecutive f y ys)

  pub length-from_second :
      (f : A → A → B) (d : B) (xs : List A) → length (from_second f d xs) ≡ length xs
  length-from_second f d [] = refl
  length-from_second f d (x ∷ xs) = ap suc (length-consecutive f x xs)

pub List-cases {ℓ} :
    {A : Type ℓ} (xs : List A) → (xs ≡ []) ⊎ ((x : A) × (r : List A) × (xs ≡ x ∷ r))
List-cases [] = inl refl
List-cases (x ∷ r) = inr (x, r, refl)
