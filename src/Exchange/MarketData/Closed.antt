-- ===== src/Exchange/MarketData/Closed.antt =====
-- src/cryptobot/exchange/market_data.py, parse_klines: which candles come out.
use cryptobot_v.Prelude.{
  ℕ, suc, ◌≡◌, refl, sym, ap, inl, inr, Bool, true, false, Option, List, [], ◌∷◌, ◌++◌, arith,
  Bool-cases, All, length, ◌≤◌, ◌⊎◌, subst, List-cases,
}
use cryptobot_v.Prelude.Text.{Text}
use cryptobot_v.Prelude.Result.{ok, Result-cases, ◌>>=◌}
use cryptobot_v.Number.{Num}
use cryptobot_v.Market.Candle.{Candle, make_candle}
use cryptobot_v.Exchange.Json.{Json, Decoder, elements}
use cryptobot_v.Exchange.MarketData.{
  cell, candle_of_row, closed_by, parse_row, parse_rows, parse_klines,
}

-- The closed candles of a list.
abbrev pub only_closed : {F : Type 0} → List (Candle F) → List (Candle F)
only_closed [] = []
only_closed (c ∷ cs) = elim c.is_closed [ true ↦ c ∷ only_closed cs | false ↦ only_closed cs ]

module _ {F D : Type 0} ⦃f : Num F⦄ (dec : Decoder F D) where
  -- The candle of a row is closed as told, and of the symbol.
  candle_of_row_lem :
      (symbol : Text) (is_closed : Bool) (row : List Json) (c : Candle F)
      → candle_of_row dec symbol is_closed row ≡ ok c
      → (c.is_closed ≡ is_closed) × (c.symbol ≡ symbol)
  unfolding candle_of_row make_candle
  candle_of_row_lem symbol is_closed row c e = ground arith

  only_closed-append :
      (xs ys : List (Candle F)) → only_closed (xs ++ ys) ≡ only_closed xs ++ only_closed ys
  only_closed-append [] ys = refl
  only_closed-append (c ∷ xs) ys = elim (Bool-cases c.is_closed) [
    | inl closed ↦ rw closed (ap (λ l. c ∷ l) (only_closed-append xs ys))
    | inr open_yet ↦ rw open_yet (only_closed-append xs ys)
  ]

  parse_row-drop :
      (symbol : Text) (now : Option ℕ) (x : Json) (cs : List (Candle F))
      → parse_row dec symbol now false x ≡ ok cs
      → parse_row dec symbol now true x ≡ ok (only_closed cs)
  unfolding parse_row
  parse_row-drop symbol now x cs e = elim (Result-cases (elements x)) [
    | inr (x, bad) ↦ ground arith
    | inl (row, read) ↦ elim (Result-cases (cell 6 row >>= dec.int_of)) [
      | inr (x, bad) ↦ ground arith
      | inl (t, timed) ↦ elim (Bool-cases (closed_by dec now t)) [
        | inl closed ↦ elim (Result-cases (candle_of_row dec symbol true row)) [
          | inr (x, bad) ↦ ground arith
          | inl (c, made) ↦ ground (arith, candle_of_row_lem symbol true row c)
        ]
        | inr open_yet ↦ elim (Result-cases (candle_of_row dec symbol false row)) [
          | inr (x, bad) ↦ ground arith
          | inl (c, made) ↦ ground (arith, candle_of_row_lem symbol false row c)
        ]
      ]
    ]
  ]

  parse_rows-drop :
      (symbol : Text) (now : Option ℕ) (rows : List Json) (cs : List (Candle F))
      → parse_rows dec symbol now false rows ≡ ok cs
      → parse_rows dec symbol now true rows ≡ ok (only_closed cs)
  unfolding parse_rows
  parse_rows-drop symbol now [] cs e = ground arith
  parse_rows-drop symbol now (row ∷ rows) cs e =
      elim (Result-cases (parse_row dec symbol now false row)) [
        | inr (x, bad) ↦ ground arith
        | inl (first, made) ↦ elim (Result-cases (parse_rows dec symbol now false rows)) [
          | inr (x, bad) ↦ ground arith
          | inl (rest, parsed) ↦ ground (
            arith,
            parse_row-drop symbol now row first made,
            parse_rows-drop symbol now rows rest parsed,
            only_closed-append first rest,
          )
        ]
      ]

  -- Dropping the unclosed klines while parsing gives the closed ones of the candles that parsing all of
  -- them gives, when all of them can be parsed.
  pub parse_klines-drop :
      (raw : Json) (symbol : Text) (now : Option ℕ) (cs : List (Candle F))
      → parse_klines dec raw symbol now false ≡ ok cs
      → parse_klines dec raw symbol now true ≡ ok (only_closed cs)
  unfolding parse_klines
  parse_klines-drop raw symbol now cs e = elim (Result-cases (elements raw)) [
    | inr (x, bad) ↦ ground arith
    | inl (rows, read) ↦ ground (arith, parse_rows-drop symbol now rows cs)
  ]

-- What a source of candles owes to the service: closed candles of the symbol, `limit` at most.
pub record IsFeed {F : Type 0} (symbol : Text) (limit : ℕ) (cs : List (Candle F)) : Type 0 where
  pub all_closed : All (λ (c : Candle F). c.is_closed ≡ true) cs
  pub all_named : All (λ (c : Candle F). c.symbol ≡ symbol) cs
  pub bounded : length cs ≤ limit

module _ {F D : Type 0} ⦃f : Num F⦄ (dec : Decoder F D) where
  parse_row-closed :
      (symbol : Text) (now : Option ℕ) (x : Json) (cs : List (Candle F))
      → parse_row dec symbol now true x ≡ ok cs
      → (cs ≡ []) ⊎ ((c : Candle F) × (cs ≡ c ∷ []) × (c.is_closed ≡ true) × (c.symbol ≡ symbol))
  unfolding parse_row
  parse_row-closed symbol now x cs e = elim (Result-cases (elements x)) [
    | inr (x, bad) ↦ ground arith
    | inl (row, read) ↦ elim (Result-cases (cell 6 row >>= dec.int_of)) [
      | inr (x, bad) ↦ ground arith
      | inl (t, timed) ↦ elim (Bool-cases (closed_by dec now t)) [
        | inr open_yet ↦ inl (ground arith)
        | inl closed ↦ elim (Result-cases (candle_of_row dec symbol true row)) [
          | inr (x, bad) ↦ ground arith
          | inl (c, made) ↦
              let (closed_too, named) = candle_of_row_lem dec symbol true row c made in
              inr (c, ground arith, closed_too, named)
        ]
      ]
    ]
  ]

  -- `parse_klines` without the unclosed candles is a feed, of one candle at most for each row.
  pub parse_rows-IsFeed :
      (symbol : Text) (now : Option ℕ) (rows : List Json) (cs : List (Candle F))
      → parse_rows dec symbol now true rows ≡ ok cs
      → IsFeed symbol (length rows) cs
  unfolding parse_rows
  parse_rows-IsFeed symbol now [] cs e = elim (List-cases cs) [
    | inl empty ↦
        subst (IsFeed symbol 0) (sym empty)
          (record { all_closed = tt; all_named = tt; bounded = omega arith })
    | inr (c, rest, full) ↦ ground arith
  ]
  parse_rows-IsFeed symbol now (row ∷ rows) cs e =
      elim (Result-cases (parse_row dec symbol now true row)) [
        | inr (x, bad) ↦ ground arith
        | inl (first, made) ↦ elim (Result-cases (parse_rows dec symbol now true rows)) [
          | inr (x, bad) ↦ ground arith
          | inl (rest, parsed) ↦
              let fed = parse_rows-IsFeed symbol now rows rest parsed in
              elim (parse_row-closed symbol now row first made) [
                | inl none_made ↦
                    let same : rest ≡ cs = ground arith in
                    subst (IsFeed symbol (suc (length rows))) same (record {
                      all_closed = fed.all_closed;
                      all_named = fed.all_named;
                      bounded = omega (arith, fed.bounded);
                    })
                | inr (c, one, closed, named) ↦
                    let same : c ∷ rest ≡ cs = ground arith in
                    subst (IsFeed symbol (suc (length rows))) same (record {
                      all_closed = (closed, fed.all_closed);
                      all_named = (named, fed.all_named);
                      bounded = omega (arith, fed.bounded);
                    })
              ]
        ]
      ]
