-- ===== src/Fetch.antt =====
-- src/cryptobot/fetch.py, without its command line and its pauses. `fetch_batch` is an action of a
-- world `W`; the loop of `paginate` runs on fuel, and `none` is that the fuel is used up.
pub mod Sorted
pub mod Complete
use Prim.Native.Nat.{zero}
use cryptobot_v.Prelude.{
  ℕ, suc, ◌-◌, Bool, true, false, Option, none, some, List, [], ◌∷◌, ◌++◌, map, leb, ltb, ◌==◌,
  if◌then◌else◌, is_empty, length,
}
use cryptobot_v.Prelude.Integers.{ℤ, before}
use cryptobot_v.Prelude.Text.{Text, codes}
use cryptobot_v.Prelude.Dict
use cryptobot_v.Prelude.Result.{Result, ok, raised, lookup_error}
use cryptobot_v.Prelude.Exec.{Exec, pure, lift, ◌>>=◌}
use cryptobot_v.Exchange.Json.{Json, Decoder, elements, each}
use cryptobot_v.Exchange.MarketData.{cell}
use cryptobot_v.Exchange.Rest.{Params, text, number, integer}

abbrev pub max_limit : ℕ
max_limit = 1000

-- `min(a, b)`
abbrev pub min_of : ℕ → ℕ → ℕ
min_of a b = if leb a b then a else b

-- `fetch_batch(symbol, interval, limit, end_time)`
abbrev pub BatchFetcher : Type 0 → Type 0
BatchFetcher W = Text → Text → ℕ → Option ℤ → Exec W (List Json)

-- `d[t] = row` of a dictionary with times as keys, in insertion order
unfoldable pub put_row : ℕ → Json → List (ℕ × Json) → List (ℕ × Json)
put_row t row [] = (t, row) ∷ []
put_row t row ((s, old) ∷ d) = if s == t then (s, row) ∷ d else (s, old) ∷ put_row t row d

-- `d[t]`
unfoldable pub row_at : ℕ → List (ℕ × Json) → Result Json
row_at t [] = raised lookup_error
row_at t ((s, row) ∷ d) = if s == t then ok row else row_at t d

-- The built-in `sorted`, of times
unfoldable pub insert_time : ℕ → List ℕ → List ℕ
insert_time t [] = t ∷ []
insert_time t (s ∷ ts) = if leb t s then t ∷ s ∷ ts else s ∷ insert_time t ts

unfoldable pub sort_times : List ℕ → List ℕ
unfolding insert_time
sort_times [] = []
sort_times (t ∷ ts) = insert_time t (sort_times ts)

abbrev pub times : List (ℕ × Json) → List ℕ
times d = map (λ (entry : ℕ × Json). entry.0) d

module _ {F D : Type 0} (dec : Decoder F D) where
  -- `int(row[0])`
  unfoldable pub open_time_of : Json → Result ℕ
  open_time_of x = elim (elements x) [
    | raised e ↦ raised e
    | ok row ↦ elim (cell 0 row) [ raised e ↦ raised e | ok t ↦ dec.int_of t ]
  ]

  -- `{int(row[0]): row for row in collected}`, behind the entries `d`
  unfoldable pub by_open_time : List Json → List (ℕ × Json) → Result (List (ℕ × Json))
  unfolding open_time_of put_row
  by_open_time [] d = ok d
  by_open_time (row ∷ rows) d = elim (open_time_of row) [
    | raised e ↦ raised e
    | ok t ↦ by_open_time rows (put_row t row d)
  ]

  -- The last two lines of `paginate`
  unfoldable pub in_order : List Json → Result (List Json)
  unfolding by_open_time sort_times row_at
  in_order collected = elim (by_open_time collected []) [
    | raised e ↦ raised e
    | ok d ↦ each (λ t. row_at t d) (sort_times (times d))
  ]

module _ {F D W : Type 0} (dec : Decoder F D) (fetch_batch : BatchFetcher W)
    (symbol interval : Text) (total : ℕ) where
  -- The loop of `paginate`
  unfoldable pub collect : ℕ → List Json → Option ℤ → Exec W (Option (List Json))
  unfolding open_time_of
  collect zero collected end_time =
      pure (if leb total (length collected) then some collected else none)
  collect (suc fuel) collected end_time = elim (leb total (length collected)) [
    | true ↦ pure (some collected)
    | false ↦ (do
      let limit = min_of max_limit (total - length collected)
      batch ← fetch_batch symbol interval limit end_time
      elim batch [
        | [] ↦ pure (some collected)
        | row ∷ rows ↦ (do
          earliest ← lift (open_time_of dec row)
          elim (ltb (length (row ∷ rows)) limit) [
            | true ↦ pure (some ((row ∷ rows) ++ collected))
            | false ↦ collect fuel ((row ∷ rows) ++ collected) (some (before earliest))
          ])
      ])
  ]

  unfoldable pub paginate : Exec W (Option (List Json))
  unfolding collect in_order
  paginate = do
    collected ← collect total [] none
    elim collected [
      | none ↦ pure none
      | some rows ↦ (do sorted ← lift (in_order dec rows); pure (some sorted))
    ]

module _ {W : Type 0} (urlencode : Params → Text) (load : Text → Exec W Json)
    (base_url : Text) where
  -- The parameters of a request
  unfoldable pub batch_params : Text → Text → ℕ → Option ℤ → Params
  batch_params symbol interval limit end_time =
      let params =
        (codes "symbol", text symbol)
        ∷ (codes "interval", text interval)
        ∷ (codes "limit", number (min_of limit max_limit))
        ∷ [] in
      elim end_time [ none ↦ params | some t ↦ Dict.put (codes "endTime") (integer t) params ]

  unfoldable pub binance_fetch_batch : BatchFetcher W
  unfolding batch_params
  binance_fetch_batch symbol interval limit end_time = do
    rows ← load (
        base_url
        ++ codes "/api/v3/klines?"
        ++ urlencode (batch_params symbol interval limit end_time))
    lift (elements rows)

module _ {F D W : Type 0} (dec : Decoder F D) (fetch_batch : BatchFetcher W) (total : ℕ)
    (interval : Text) where
  -- `fetch_symbols`, with its `fetch` given, behind the entries `data`
  unfoldable pub fetch_symbols :
      List Text → List (Text × List Json) → Exec W (Option (List (Text × List Json)))
  unfolding paginate
  fetch_symbols [] found = pure (some found)
  fetch_symbols (symbol ∷ symbols) found = do
    rows ← paginate dec fetch_batch symbol interval total
    elim rows [ none ↦ pure none | some rows ↦ fetch_symbols symbols (Dict.put symbol rows found) ]
