-- ===== src/Cli/Accepted.antt =====
-- src/cryptobot/cli.py: which configurations are accepted.
use cryptobot_v.Prelude.{
  ◌≡◌, refl, sym, subst, ◌↔◌, ◌⊎◌, inl, inr, Bool, true, false, ◌&&◌, Option, none, some, List, [],
  ◌∷◌, arith, All,
}
use cryptobot_v.Prelude.Text.{Text, codes}
use cryptobot_v.Prelude.Result.{
  Result, value_error, raise_if, ok, raised, Result-cases, WhenOk, WhenOk-bind, value-WhenOk, ◌>>=◌,
  ◌>>◌,
}
use cryptobot_v.Number.{Num, ◌⊗◌, ◌⊘◌, ◌≺◌, ◌≼◌, nought}
use cryptobot_v.Execution.Pnl.{ExitCostModel, make_cost_model}
use cryptobot_v.Exchange.Json.{Json, num, str, obj, no_fields, Decoder, get_or, get_key}
use cryptobot_v.Exchange.Message.{is_in}
use cryptobot_v.Strategy.Parameters.{CoinStrategyParameters, make_parameters}
use cryptobot_v.Strategy.Parameters.Valid.{IsValid, make_parameters-IsValid}
use cryptobot_v.Runtime.Service.{ServiceConfig}
use cryptobot_v.Cli.{
  object_items, each_entry, limit_of_pct, resolve_capital_limit, coin_params_from_dict,
  cost_model_from_dict, service_config_from_dict,
}

module _ {F D : Type 0} ⦃f : Num F⦄ ⦃d : Num D⦄ (dec : Decoder F D) (quantize : D → D) where
  -- The absolute limit of a configuration
  abbrev pub IsAbsolute : Json → D → Type 0
  IsAbsolute config limit =
      (get_key (codes "capital_limit_usdt") config >>= dec.decimal_of) ≡ ok limit

  limit_of_pct_iff :
      (pct : D) (total_quote : Option D) (limit : D)
      → (limit_of_pct quantize pct total_quote ≡ ok limit) ↔ (
          (total : D) × ((nought ≺ pct) ≡ true)
          × ((pct ≼ d.of_ℕ 100) ≡ true)
          × (total_quote ≡ some total)
          × (limit ≡ quantize (total ⊗ pct ⊘ d.of_ℕ 100)))
  unfolding limit_of_pct
  limit_of_pct_iff pct none limit =
      (λ e. absurd (ground arith), λ (total, low, high, known, eq). cc)
  limit_of_pct_iff pct (some total) limit = (
    λ e. (total, ground arith, ground arith, refl, ground arith),
    λ (t, low, high, known, eq). ground arith,
  )

  -- The choice between the two entries, whatever their tests and values are.
  abbrev choice : Result Bool → Result Bool → Result D → Result D → Option D → Result D
  choice m n u v total_quote = do
    has_abs ← m
    has_pct ← n
    raise_if (has_abs && has_pct) value_error
    elim has_abs [
      | true ↦ u
      | false ↦ elim has_pct [
        | true ↦ (do pct ← v; limit_of_pct quantize pct total_quote)
        | false ↦ raised value_error
      ]
    ]

  abbrev pub Share : Result D → Option D → D → Type 0
  Share v total_quote limit =
      (pct : D) × (total : D) × (v ≡ ok pct)
      × ((nought ≺ pct) ≡ true)
      × ((pct ≼ d.of_ℕ 100) ≡ true)
      × (total_quote ≡ some total)
      × (limit ≡ quantize (total ⊗ pct ⊘ d.of_ℕ 100))

  choice_iff :
      (m n : Result Bool) (u v : Result D) (total_quote : Option D) (limit : D)
      → (choice m n u v total_quote ≡ ok limit) ↔ (
          ((m ≡ ok true) × (n ≡ ok false) × (u ≡ ok limit))
          ⊎ ((m ≡ ok false) × (n ≡ ok true) × Share v total_quote limit))
  choice_iff (raised x) n u v total_quote limit = (λ e. cc, λ h. ground arith)
  choice_iff (ok a) (raised x) u v total_quote limit = (λ e. cc, λ h. ground arith)
  choice_iff (ok true) (ok true) u v total_quote limit = (λ e. cc, λ h. ground arith)
  choice_iff (ok true) (ok false) u v total_quote limit =
      (λ e. inl (refl, refl, e), λ h. ground arith)
  choice_iff (ok false) (ok false) u v total_quote limit = (λ e. cc, λ h. ground arith)
  choice_iff (ok false) (ok true) u (raised x) total_quote limit = (λ e. cc, λ h. ground arith)
  choice_iff (ok false) (ok true) u (ok pct) total_quote limit =
      let iff = limit_of_pct_iff pct total_quote limit in
      (
        λ e.
            let (total, low, high, known, eq) = iff.0 e in
            inr (refl, refl, (pct, total, refl, low, high, known, eq)),
        λ h. elim h [
          | inl (present, absent, e) ↦ ground arith
          | inr (absent, present, (p, total, v, low, high, known, eq)) ↦
              iff.1 (total, ground arith, ground arith, known, ground arith)
        ],
      )

  -- The limit of a coin is accepted exactly if one of the two entries is there and not the other, and it
  -- is then the absolute limit, or, with a percentage above 0 and up to 100 and a total that is known, the
  -- rounded share of the total. In all other cases an exception is raised.
  pub resolve_capital_limit_iff :
      (config : Json) (total_quote : Option D) (limit : D)
      → (resolve_capital_limit dec quantize config total_quote ≡ ok limit) ↔ (
          ((is_in (codes "capital_limit_usdt") config ≡ ok true)
            × (is_in (codes "capital_pct") config ≡ ok false)
            × IsAbsolute config limit)
          ⊎ ((is_in (codes "capital_limit_usdt") config ≡ ok false)
              × (is_in (codes "capital_pct") config ≡ ok true)
              × Share (get_key (codes "capital_pct") config >>= dec.decimal_of) total_quote limit))
  unfolding resolve_capital_limit
  resolve_capital_limit_iff config total_quote limit =
      choice_iff (is_in (codes "capital_limit_usdt") config) (is_in (codes "capital_pct") config)
        (get_key (codes "capital_limit_usdt") config >>= dec.decimal_of)
        (get_key (codes "capital_pct") config >>= dec.decimal_of) total_quote limit

  abbrev Valid : CoinStrategyParameters F D → Type 0
  Valid p = IsValid p

  -- Every coin has valid parameters.
  abbrev pub AllValid : List (Text × CoinStrategyParameters F D) → Type 0
  AllValid coins = All (λ (coin : Text × CoinStrategyParameters F D). IsValid coin.1) coins

  coin_params-IsValid :
      (config : Json) (total_quote : Option D)
      → WhenOk Valid (coin_params_from_dict dec quantize config total_quote)
  unfolding coin_params_from_dict
  coin_params-IsValid config total_quote =
      WhenOk-bind Valid (get_key (codes "rsi_oversold") config >>= dec.float_of) _ λ rsi_oversold _.
        WhenOk-bind Valid (get_key (codes "rsi_overbought") config >>= dec.float_of) _
          λ rsi_overbought _.
            WhenOk-bind Valid (get_key (codes "adx_low") config >>= dec.float_of) _ λ adx_low _.
              WhenOk-bind Valid (get_key (codes "adx_high") config >>= dec.float_of) _ λ adx_high _.
                WhenOk-bind Valid (get_key (codes "min_net_profit_pct") config >>= dec.decimal_of) _
                  λ min_net_profit_pct _.
                    WhenOk-bind Valid (get_key (codes "rsi_period") config >>= dec.int_of) _
                      λ rsi_period _.
                        WhenOk-bind Valid (get_key (codes "rsi_ma_period") config >>= dec.int_of) _
                          λ rsi_ma_period _.
                            WhenOk-bind Valid (get_key (codes "adx_period") config >>= dec.int_of) _
                              λ adx_period _.
                                WhenOk-bind Valid
                                  (get_key (codes "adr_period") config >>= dec.int_of) _
                                  λ adr_period _.
                                    WhenOk-bind Valid
                                      (resolve_capital_limit dec quantize config total_quote) _
                                      λ limit _.
                                        WhenOk-bind Valid
                                          (get_key (codes "slot_count") config >>= dec.int_of) _
                                          λ slot_count _. made _
    where
      made : (p : CoinStrategyParameters F D) → WhenOk Valid (make_parameters p)
      made p = elim (Result-cases (make_parameters p)) [
        | inr (x, bad) ↦ rw bad tt
        | inl (q, run) ↦
            rw run (
              let (same, valid) = make_parameters-IsValid p q run in subst IsValid (sym same) valid)
      ]

  each_coin-AllValid :
      (items : List (Text × Json)) (total_quote : Option D)
      → WhenOk AllValid
          (each_entry (λ key value. coin_params_from_dict dec quantize value total_quote) items)
  unfolding each_entry
  each_coin-AllValid [] total_quote = tt
  each_coin-AllValid ((key, value) ∷ items) total_quote =
      WhenOk-bind AllValid (coin_params_from_dict dec quantize value total_quote) _ λ p made.
        WhenOk-bind AllValid
          (each_entry (λ key value. coin_params_from_dict dec quantize value total_quote) items) _
          λ rest mades. (
            value-WhenOk Valid (coin_params_from_dict dec quantize value total_quote) p
                (coin_params-IsValid value total_quote) made,
            value-WhenOk AllValid _ rest (each_coin-AllValid items total_quote) mades,
          )

  -- What is promised of a configuration: valid coins, and rates that are not below 0.
  abbrev pub IsAccepted : ServiceConfig F D → Type 0
  IsAccepted config =
      AllValid config.coins
      × ((config.cost_model.exit_fee_rate ≺ nought) ≡ false)
      × ((config.cost_model.safety_buffer_frac ≺ nought) ≡ false)

  abbrev HasRates : ExitCostModel D → Type 0
  HasRates m = ((m.exit_fee_rate ≺ nought) ≡ false) × ((m.safety_buffer_frac ≺ nought) ≡ false)

  cost_model-HasRates : (cm : Json) → WhenOk HasRates (cost_model_from_dict dec cm)
  unfolding cost_model_from_dict
  cost_model-HasRates cm =
      WhenOk-bind HasRates (get_or (codes "exit_fee_rate") cm (str (codes "0")) >>= dec.decimal_of)
        _
        λ exit_fee_rate _.
          WhenOk-bind HasRates
            (get_or (codes "safety_buffer_frac") cm (str (codes "0")) >>= dec.decimal_of) _
            λ safety_buffer_frac _.
              made
                (record { exit_fee_rate = exit_fee_rate; safety_buffer_frac = safety_buffer_frac })
    where
      made : (m : ExitCostModel D) → WhenOk HasRates (make_cost_model m)
      made m = elim (Result-cases (make_cost_model m)) [
        | inr (x, bad) ↦ rw bad tt
        | inl (q, run) ↦ rw run (unfold make_cost_model in (ground arith, ground arith))
      ]

  -- A configuration that is read from a file has only coins with valid parameters and an exit cost model
  -- with rates that are not below 0, whatever the file holds; any other file raises.
  pub service_config-IsAccepted :
      (content : Json) (total_quote : Option D) (config : ServiceConfig F D)
      → service_config_from_dict dec quantize content total_quote ≡ ok config
      → IsAccepted config
  unfolding service_config_from_dict
  service_config-IsAccepted content total_quote config e =
      value-WhenOk IsAccepted (service_config_from_dict dec quantize content total_quote) config
        (WhenOk-bind IsAccepted (get_key (codes "coins") content >>= object_items) _ λ items _.
          WhenOk-bind IsAccepted
            (each_entry (λ key value. coin_params_from_dict dec quantize value total_quote) items) _
            λ coins made.
              WhenOk-bind IsAccepted (get_or (codes "cost_model") content (obj no_fields)) _ λ cm _.
                WhenOk-bind IsAccepted (cost_model_from_dict dec cm) _ λ cost_model rated.
                  WhenOk-bind IsAccepted
                    (get_or (codes "candle_buffer") content (num (codes "5")) >>= dec.int_of) _
                    λ candle_buffer _.
                      (let (fee, buffer) =
                          value-WhenOk HasRates _ cost_model (cost_model-HasRates cm) rated in
                        (
                          value-WhenOk AllValid _ coins (each_coin-AllValid items total_quote) made,
                          fee,
                          buffer,
                        )))
        e
