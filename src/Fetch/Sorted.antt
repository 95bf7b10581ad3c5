-- ===== src/Fetch/Sorted.antt =====
-- src/cryptobot/fetch.py, the last two lines of paginate: the rows in the order of time, each once.
use cryptobot_v.Prelude.{
  ℕ, ◌<◌, ◌≡◌, ◌≢◌, refl, inl, inr, Bool, false, ◌||◌, List, [], ◌∷◌, arith, leb, leb→le, ◌==◌,
  Bool-cases, All,
}
use cryptobot_v.Prelude.Result.{ok, Result-cases}
use cryptobot_v.Exchange.Json.{Json, Decoder, each}
use cryptobot_v.Fetch.{
  put_row, row_at, insert_time, sort_times, times, open_time_of, by_open_time, in_order,
}

-- Each time is later than the one before it.
abbrev pub AscendsFrom : ℕ → List ℕ → Type 0
AscendsFrom s [] = Unit {0}
AscendsFrom s (t ∷ ts) = (s < t) × AscendsFrom t ts

abbrev pub Ascends : List ℕ → Type 0
Ascends [] = Unit {0}
Ascends (t ∷ ts) = AscendsFrom t ts

-- No time occurs twice.
abbrev pub Distinct : List ℕ → Type 0
Distinct [] = Unit {0}
Distinct (t ∷ ts) = All (λ s. s ≢ t) ts × Distinct ts

insert-All : (P : ℕ → Type 0) (t : ℕ) (ts : List ℕ) → P t → All P ts → All P (insert_time t ts)
unfolding insert_time
insert-All P t [] p h = (p, tt)
insert-All P t (s ∷ ts) p (q, h) = elim (Bool-cases (leb t s)) [
  | inl before ↦ rw before (p, (q, h))
  | inr after ↦ rw after (q, insert-All P t ts p h)
]

sort-All : (P : ℕ → Type 0) (ts : List ℕ) → All P ts → All P (sort_times ts)
unfolding sort_times
sort-All P [] h = tt
sort-All P (t ∷ ts) (p, h) = insert-All P t (sort_times ts) p (sort-All P ts h)

insert-AscendsFrom :
    (s t : ℕ) (ts : List ℕ)
    → s < t
    → All (λ u. u ≢ t) ts
    → AscendsFrom s ts
    → AscendsFrom s (insert_time t ts)
unfolding insert_time
insert-AscendsFrom s t [] lt new h = (lt, tt)
insert-AscendsFrom s t (u ∷ ts) lt (other, new) (su, h) = elim (Bool-cases (leb t u)) [
  | inl before ↦ rw before (lt, (ground (arith, leb→le t u), h))
  | inr after ↦ rw after (su, insert-AscendsFrom u t ts (ground arith) new h)
]

insert-Ascends :
    (t : ℕ) (ts : List ℕ) → All (λ u. u ≢ t) ts → Ascends ts → Ascends (insert_time t ts)
unfolding insert_time
insert-Ascends t [] new h = tt
insert-Ascends t (u ∷ ts) (other, new) h = elim (Bool-cases (leb t u)) [
  | inl before ↦ rw before (ground (arith, leb→le t u), h)
  | inr after ↦ rw after (insert-AscendsFrom u t ts (ground arith) new h)
]

sort-Ascends : (ts : List ℕ) → Distinct ts → Ascends (sort_times ts)
unfolding sort_times
sort-Ascends [] h = tt
sort-Ascends (t ∷ ts) (new, h) =
    insert-Ascends t (sort_times ts) (sort-All (λ u. u ≢ t) ts new) (sort-Ascends ts h)

put-others :
    (s t : ℕ) (row : Json) (d : List (ℕ × Json))
    → t ≢ s
    → All (λ u. u ≢ s) (times d)
    → All (λ u. u ≢ s) (times (put_row t row d))
unfolding put_row
put-others s t row [] other h = (other, tt)
put-others s t row ((u, old) ∷ d) other (q, h) = elim (Bool-cases (u == t)) [
  | inl same ↦ rw same (q, h)
  | inr differ ↦ rw differ (q, put-others s t row d other h)
]

put-Distinct :
    (t : ℕ) (row : Json) (d : List (ℕ × Json))
    → Distinct (times d)
    → Distinct (times (put_row t row d))
unfolding put_row
put-Distinct t row [] h = (tt, tt)
put-Distinct t row ((u, old) ∷ d) (new, h) = elim (Bool-cases (u == t)) [
  | inl same ↦ rw same (new, h)
  | inr differ ↦ rw differ (put-others u t row d (ground arith) new, put-Distinct t row d h)
]

-- Whether a time is in a list.
abbrev pub has : ℕ → List ℕ → Bool
has k [] = false
has k (t ∷ ts) = (t == k) || has k ts

insert-has : (k t : ℕ) (ts : List ℕ) → has k (insert_time t ts) ≡ ((t == k) || has k ts)
unfolding insert_time
insert-has k t [] = refl
insert-has k t (s ∷ ts) = ground (arith, insert-has k t ts)

sort-has : (k : ℕ) (ts : List ℕ) → has k (sort_times ts) ≡ has k ts
unfolding sort_times
sort-has k [] = refl
sort-has k (t ∷ ts) = ground (arith, insert-has k t (sort_times ts), sort-has k ts)

put-has :
    (k t : ℕ) (row : Json) (d : List (ℕ × Json))
    → has k (times (put_row t row d)) ≡ ((t == k) || has k (times d))
unfolding put_row
put-has k t row [] = refl
put-has k t row ((u, old) ∷ d) = ground (arith, put-has k t row d)

module _ {F D : Type 0} (dec : Decoder F D) where
  -- Each row stands under its own time.
  abbrev Timed : List (ℕ × Json) → Type 0
  Timed d = All (λ (entry : ℕ × Json). open_time_of dec entry.1 ≡ ok entry.0) d

  put-Timed :
      (t : ℕ) (row : Json) (d : List (ℕ × Json))
      → open_time_of dec row ≡ ok t
      → Timed d
      → Timed (put_row t row d)
  unfolding put_row
  put-Timed t row [] e h = (e, tt)
  put-Timed t row ((u, old) ∷ d) e (timed, h) = elim (Bool-cases (u == t)) [
    | inl same ↦ rw same (ground arith, h)
    | inr differ ↦ rw differ (timed, put-Timed t row d e h)
  ]

  -- A time under which its row is found.
  abbrev Found : List (ℕ × Json) → ℕ → Type 0
  Found d t = (row : Json) × (row_at t d ≡ ok row) × (open_time_of dec row ≡ ok t)

  weaken-Found :
      (u : ℕ) (old : Json) (d : List (ℕ × Json)) (ts : List ℕ)
      → All (λ t. t ≢ u) ts
      → All (Found d) ts
      → All (Found ((u, old) ∷ d)) ts
  unfolding row_at
  weaken-Found u old d [] others h = tt
  weaken-Found u old d (t ∷ ts) (other, others) ((row, found, timed), h) =
      ((row, ground arith, timed), weaken-Found u old d ts others h)

  times-Found : (d : List (ℕ × Json)) → Distinct (times d) → Timed d → All (Found d) (times d)
  unfolding row_at
  times-Found [] distinct timed = tt
  times-Found ((u, row) ∷ d) (others, distinct) (timed, h) =
      ((row, ground arith, timed), weaken-Found u row d (times d) others (times-Found d distinct h))

  each-Found :
      (d : List (ℕ × Json)) (ts : List ℕ)
      → All (Found d) ts
      → (rows : List Json) × (each (λ t. row_at t d) ts ≡ ok rows)
        × (each (open_time_of dec) rows ≡ ok ts)
  unfolding each
  each-Found d [] h = ([], refl, refl)
  each-Found d (t ∷ ts) ((row, found, timed), h) =
      let (rows, run, read) = each-Found d ts h in
      (row ∷ rows, rw (found, run) refl, rw (timed, read) refl)

  -- What the dictionary is, when the rows have times.
  by_open_time_lem :
      (rows : List Json) (d : List (ℕ × Json)) (ts : List ℕ)
      → each (open_time_of dec) rows ≡ ok ts
      → Distinct (times d)
      → Timed d
      → (d' : List (ℕ × Json)) × (by_open_time dec rows d ≡ ok d')
        × Distinct (times d')
        × Timed d'
        × ((k : ℕ) → has k (times d') ≡ (has k ts || has k (times d)))
  unfolding by_open_time each
  by_open_time_lem [] d ts e distinct timed = (d, refl, distinct, timed, λ k. ground arith)
  by_open_time_lem (row ∷ rows) d ts e distinct timed = elim (Result-cases (open_time_of dec row)) [
    | inr (x, bad) ↦ ground arith
    | inl (t, read) ↦ elim (Result-cases (each (open_time_of dec) rows)) [
      | inr (x, bad) ↦ ground arith
      | inl (rest, reads) ↦
          let (d', run, distinct', timed', same) =
            by_open_time_lem rows (put_row t row d) rest reads (put-Distinct t row d distinct)
              (put-Timed t row d read timed) in
          (
            d',
            rw (by_open_time, read) run,
            distinct',
            timed',
            λ k. ground (arith, same k, put-has k t row d),
          )
    ]
  ]

  -- If each collected row has a time, the rows that come out have strictly ascending times, so no time
  -- twice, and their times are exactly those of the collected rows.
  pub in_order_lem :
      (collected : List Json) (ts : List ℕ)
      → each (open_time_of dec) collected ≡ ok ts
      → (rows : List Json) × (us : List ℕ) × (in_order dec collected ≡ ok rows)
        × (each (open_time_of dec) rows ≡ ok us)
        × Ascends us
        × ((k : ℕ) → has k us ≡ has k ts)
  unfolding in_order
  in_order_lem collected ts e =
      let (d, run, distinct, timed, same) = by_open_time_lem collected [] ts e tt tt in
      let (rows, looked, read) =
        each-Found d (sort_times (times d))
          (sort-All (Found d) (times d) (times-Found d distinct timed)) in
      (
        rows,
        sort_times (times d),
        rw (in_order, run) looked,
        read,
        sort-Ascends (times d) distinct,
        λ k. ground (arith, sort-has k (times d), same k),
      )
