-- ===== src/Fetch/Complete.antt =====
-- src/cryptobot/fetch.py, paginate: the loop ends, and what comes out is in order.
use Prim.Native.Nat.{zero}
use cryptobot_v.Prelude.{
  ℕ, suc, ◌+◌, ◌-◌, ◌≤◌, ◌≡◌, refl, sym, ◌∙◌, inl, inr, false, Option, none, some, List, [], ◌∷◌,
  ◌++◌, arith, leb, ltb, Bool-cases, length, length-append, List-cases,
}
use cryptobot_v.Prelude.Integers.{ℤ, before}
use cryptobot_v.Prelude.Text.{Text}
use cryptobot_v.Prelude.Result.{ok, Result-cases}
use cryptobot_v.Prelude.Exec.{lift}
use cryptobot_v.Prelude.Gives.{ValueOf, Gives, Gives-bind, Gives-any}
use cryptobot_v.Exchange.Json.{Json, Decoder, each}
use cryptobot_v.Fetch.{
  put_row, BatchFetcher, min_of, max_limit, open_time_of, by_open_time, in_order, collect, paginate,
}
use cryptobot_v.Fetch.Sorted.{Ascends, in_order_lem}

module _ {F D W : Type 0} (dec : Decoder F D) (fetch_batch : BatchFetcher W)
    (symbol interval : Text) (total : ℕ) where
  -- Rows, and not the end of the fuel.
  abbrev IsDone : Option (List Json) → Type 0
  IsDone result = (rows : List Json) × (result ≡ some rows)

  -- After a whole batch less fuel is enough.
  round_enough :
      (fuel : ℕ) (collected batch : List Json)
      → leb total (length collected) ≡ false
      → ltb (length batch) (min_of max_limit (total - length collected)) ≡ false
      → total ≤ length collected + suc fuel
      → total ≤ length (batch ++ collected) + fuel
  round_enough fuel collected batch missing whole enough =
      ground (arith, length-append batch collected)

  -- A round that goes on has added as many rows as it asked for, one at least; so there is fuel enough
  -- if it is not less than the number of rows that are missing.
  collect-Gives :
      (fuel : ℕ) (collected : List Json) (end_time : Option ℤ)
      → total ≤ length collected + fuel
      → Gives IsDone (collect dec fetch_batch symbol interval total fuel collected end_time)
  unfolding collect
  collect-Gives zero collected end_time enough = λ w. (collected, ground arith)
  collect-Gives (suc fuel) collected end_time enough =
      let limit = min_of max_limit (total - length collected) in
      λ w. elim (Bool-cases (leb total (length collected))) [
        | inl full ↦ rw (collect, full) (collected, refl)
        | inr missing ↦
            rw (collect, missing)
              (Gives-bind _ IsDone (fetch_batch symbol interval limit end_time) _
                (Gives-any (fetch_batch symbol interval limit end_time))
                (λ batch _. elim (List-cases batch) [
                  | inl empty ↦ rw empty (λ w. (collected, refl))
                  | inr (row, rows, some_rows) ↦ rw some_rows (
                      Gives-bind _ IsDone (lift (open_time_of dec row)) _
                        (Gives-any (lift (open_time_of dec row)))
                        (λ earliest _. elim (Bool-cases (ltb (length (row ∷ rows)) limit)) [
                          | inl short ↦ rw short (λ w. ((row ∷ rows) ++ collected, refl))
                          | inr whole ↦ rw whole (
                              collect-Gives fuel ((row ∷ rows) ++ collected)
                                (some (before earliest))
                                (round_enough fuel collected (row ∷ rows) missing whole enough))
                        ]))
                ])
                w)
      ]

  -- The dictionary is made only of rows with times.
  by_open_time_read :
      (rows : List Json) (d d' : List (ℕ × Json))
      → by_open_time dec rows d ≡ ok d'
      → (ts : List ℕ) × (each (open_time_of dec) rows ≡ ok ts)
  unfolding each by_open_time
  by_open_time_read [] d d' e = ([], refl)
  by_open_time_read (row ∷ rows) d d' e = elim (Result-cases (open_time_of dec row)) [
    | inr (x, bad) ↦ (unfold by_open_time in ground arith)
    | inl (t, read) ↦
        let step : by_open_time dec (row ∷ rows) d ≡ by_open_time dec rows (put_row t row d) =
          rw (by_open_time, read) refl in
        let run = sym step ∙ e in
        let (ts, reads) = by_open_time_read rows (put_row t row d) d' run in
        (t ∷ ts, rw (read, reads) refl)
  ]

  in_order_read :
      (rows sorted : List Json)
      → in_order dec rows ≡ ok sorted
      → (ts : List ℕ) × (each (open_time_of dec) rows ≡ ok ts)
  in_order_read rows sorted e = elim (Result-cases (by_open_time dec rows [])) [
    | inr (x, bad) ↦ (unfold in_order in ground arith)
    | inl (d, run) ↦ by_open_time_read rows [] d run
  ]

  -- What `paginate` returns: rows, whose times ascend strictly.
  abbrev pub IsHistory : Option (List Json) → Type 0
  IsHistory result =
      (rows : List Json) × (ts : List ℕ) × (result ≡ some rows)
      × (each (open_time_of dec) rows ≡ ok ts)
      × Ascends ts

  -- `paginate` ends after at most `total` requests, whatever the exchange answers: the fuel is never used
  -- up. It either raises or returns rows with strictly ascending open times, so no candle twice.
  pub paginate-IsHistory :
      (w : W) → ValueOf IsHistory (paginate dec fetch_batch symbol interval total w)
  unfolding paginate
  paginate-IsHistory w =
      Gives-bind IsDone IsHistory (collect dec fetch_batch symbol interval total total [] none) _
        (collect-Gives total [] none (omega arith))
        (λ result (rows, done) _. rw done (elim (Result-cases (in_order dec rows)) [
          | inr (x, bad) ↦ rw bad tt
          | inl (sorted, run) ↦
              let (ts, read) = in_order_read rows sorted run in
              let (rows', us, run', read', ascends, same) = in_order_lem dec rows ts read in
              rw run' (rows', us, refl, read', ascends)
        ]))
        w
