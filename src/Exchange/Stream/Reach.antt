-- ===== src/Exchange/Stream/Reach.antt =====
-- The states that a stream reaches from the start by seeds and messages.
use cryptobot_v.Prelude.{
  ℕ, ◌-◌, ◌≤◌, ◌≡◌, refl, sym, ◌∙◌, subst, inl, inr, Bool, true, false, ◌||◌, Option, none, some,
  List, [], arith, ◌==◌, Bool-cases, Option-cases, some-inj, if◌then◌else◌, length, length-drop,
}
use cryptobot_v.Prelude.Text.{Text, codes, text_eq}
use cryptobot_v.Prelude.Dict
use cryptobot_v.Prelude.Result.{Result, ok, raised}
use cryptobot_v.Prelude.Exec.{Exec, pure, lift, resume, ◌>>=◌}
use cryptobot_v.Number.{Num}
use cryptobot_v.Market.Candle.{Candle, make_candle}
use cryptobot_v.Exchange.Json.{Json, bool, Decoder, get, get_or, get_key, truthy}
use cryptobot_v.Exchange.Message.{is_in, kline_to_candle, message_symbol}
use cryptobot_v.Exchange.MarketData.{levels_of}
use cryptobot_v.Exchange.Stream.{
  Stream, init_stream, buffer_of, set_buffer, seed_candles, fill_buffer, fold_candle,
  get_closed_candles, store, apply_kline, apply_depth, handle, on_kline, process_data,
  process_message,
}
use cryptobot_v.Exchange.Stream.Buffer.{
  Rises, IsBuffer, closed_of, drop-Rises, fold_candle-IsBuffer, fill_buffer-IsBuffer,
}

module _ {F D : Type 0} where
  -- Every entry of the dictionary is a buffer.
  abbrev pub IsStream : Stream F D → Type 0
  IsStream s =
      (k : Text) (bs : List (Candle F)) → Dict.get k s.candles ≡ some bs → IsBuffer s.max_candles bs

  -- Whatever key is looked up, a buffer or nothing.
  lookup-IsBuffer :
      (s : Stream F D) (k : Text) → IsStream s → IsBuffer s.max_candles (Dict.get_or k s.candles [])
  lookup-IsBuffer s k h = elim (Option-cases (Dict.get k s.candles)) [
    | inl missing ↦ rw (Dict.get_or, missing) (record { rises = tt; bounded = omega arith })
    | inr (bs, found) ↦ rw (Dict.get_or, found) (h k bs found)
  ]

module _ {F D : Type 0} (upper : Text → Text) where
  set_buffer-IsStream :
      (symbol : Text) (bs : List (Candle F)) (s : Stream F D)
      → IsBuffer s.max_candles bs
      → IsStream s
      → IsStream (set_buffer upper symbol bs s)
  set_buffer-IsStream symbol bs s b h k bs' e =
      let looked = Dict.get-put (upper symbol) k bs s.candles in
      elim (Bool-cases (text_eq (upper symbol) k)) [
        | inl same ↦
            let eq : bs ≡ bs' = some-inj (sym (looked ∙ rw same) ∙ e) in
            subst (IsBuffer s.max_candles) eq b
        | inr other ↦ h k bs' (sym (looked ∙ rw other) ∙ e)
      ]

module _ {F D : Type 0} ⦃f : Num F⦄ ⦃d : Num D⦄ (dec : Decoder F D) (upper : Text → Text) where
  -- An action that leaves the buffers in order, also when it raises.
  abbrev KeepsStream : {A : Type 0} → Exec (Stream F D) A → Type 0
  KeepsStream m = (s : Stream F D) → IsStream s → IsStream (m s).1

  bind-KeepsStream :
      {A B : Type 0} (m : Exec (Stream F D) A) (k : A → Exec (Stream F D) B)
      → KeepsStream m
      → ((a : A) → KeepsStream (k a))
      → KeepsStream (m >>= k)
  bind-KeepsStream {A = A} m k h hs s i = after (m s) (h s i)
    where
      after : (x : Result A × Stream F D) → IsStream x.1 → IsStream (resume x k).1
      after (ok a, s') j = hs a s' j
      after (raised e, s') j = j

  -- After a result, which changes nothing, only the case of a value is left.
  lift-KeepsStream :
      {A B : Type 0} (r : Result A) (k : A → Exec (Stream F D) B)
      → ((a : A) → r ≡ ok a → KeepsStream (k a))
      → KeepsStream (lift r >>= k)
  lift-KeepsStream (ok a) k h s i = h a refl s i
  lift-KeepsStream (raised e) k h s i = i

  -- The candle of a kline is closed if the kline says so.
  kline_to_candle-closed :
      (symbol : Text) (k x : Json) (c : Candle F)
      → get_or (codes "x") k (bool false) ≡ ok x
      → kline_to_candle dec symbol k ≡ ok c
      → c.is_closed ≡ truthy dec x
  unfolding kline_to_candle make_candle
  kline_to_candle-closed symbol k x c e run = ground arith

  store-KeepsStream :
      (symbol : Text) (c : Candle F) → c.is_closed ≡ true → KeepsStream (store dec upper symbol c)
  unfolding store buffer_of
  store-KeepsStream symbol c closed s h =
      elim (Option-cases (fold_candle s.max_candles (buffer_of upper symbol s) c)) [
        | inl stale ↦
            let run : store dec upper symbol c s ≡ (ok false, s) = rw (store, stale) in
            subst (λ r. IsStream r.1) (sym run) h
        | inr (bs, folded) ↦
            let run : store dec upper symbol c s ≡ (ok true, set_buffer upper symbol bs s) =
              rw (store, folded) in
            let kept =
              fold_candle-IsBuffer s.max_candles (buffer_of upper symbol s) bs c
                (lookup-IsBuffer s (upper symbol) h) closed folded in
            subst (λ r. IsStream r.1) (sym run) (set_buffer-IsStream upper symbol bs s kept h)
      ]

  apply_kline-KeepsStream :
      (symbol : Text) (k : Json) → KeepsStream (apply_kline dec upper symbol k)
  unfolding apply_kline
  apply_kline-KeepsStream symbol k =
      lift-KeepsStream (get_or (codes "x") k (bool false)) _
        (λ x e. by_test x e (truthy dec x) refl)
    where
      by_test :
          (x : Json)
          → get_or (codes "x") k (bool false) ≡ ok x
          → (b : Bool) → truthy dec x ≡ b
          → KeepsStream (elim b as (λ _. Exec (Stream F D) Bool) [
            | false ↦ pure false
            | true ↦ lift (kline_to_candle dec (upper symbol) k) >>= store dec upper symbol
          ])
      by_test x e false t = λ s h. h
      by_test x e true t =
          lift-KeepsStream (kline_to_candle dec (upper symbol) k) (store dec upper symbol) (λ c run.
            store-KeepsStream symbol c (kline_to_candle-closed (upper symbol) k x c e run ∙ t))

  apply_depth-KeepsStream :
      (symbol : Text) (payload : Json) → KeepsStream (apply_depth dec upper symbol payload)
  unfolding apply_depth
  apply_depth-KeepsStream symbol payload =
      lift-KeepsStream (levels_of dec (codes "bids") payload) _
        (λ bids _. lift-KeepsStream (levels_of dec (codes "asks") payload) _ (λ asks _ s h. h))

  process_data-KeepsStream :
      (symbol : Option Text) (payload : Json) (stream : Option Json)
      → KeepsStream (process_data dec upper symbol payload stream)
  unfolding process_data handle on_kline
  process_data-KeepsStream symbol payload stream =
      lift-KeepsStream (is_in (codes "k") payload) _ (λ kline _.
        lift-KeepsStream (is_in (codes "bids") payload) _ (λ bids _.
          lift-KeepsStream (is_in (codes "asks") payload) _
            (λ asks _. routed kline (kline || (bids || asks)))))
    where
      handled :
          (kline : Bool) (name : Option Text)
          → KeepsStream (
              handle dec upper name (
                if kline then on_kline dec upper payload else λ sym.
                apply_depth dec upper sym payload))
      handled kline none = λ s h. h
      handled true (some name) = lift-KeepsStream (get_key (codes "k") payload) _ (λ k _.
          bind-KeepsStream (apply_kline dec upper name k) _ (apply_kline-KeepsStream name k)
            (λ stored s h. h))
      handled false (some name) = apply_depth-KeepsStream name payload

      routed :
          (kline any : Bool)
          → KeepsStream (elim any as (λ _. Exec (Stream F D) (Unit {0})) [
            | false ↦ pure tt
            | true ↦ lift (message_symbol dec upper symbol payload stream) >>= λ name.
                handle dec upper name (
                  if kline then on_kline dec upper payload else λ sym.
                  apply_depth dec upper sym payload)
          ])
      routed kline false = λ s h. h
      routed kline true =
          lift-KeepsStream (message_symbol dec upper symbol payload stream) _
            (λ name _. handled kline name)

  process_message-KeepsStream :
      (message : Json) (symbol : Option Text)
      → KeepsStream (process_message dec upper message symbol)
  unfolding process_message
  process_message-KeepsStream message symbol =
      lift-KeepsStream (get_or (codes "data") message message) _ (λ payload _.
        lift-KeepsStream (get (codes "stream") message) _
          (λ stream _. process_data-KeepsStream symbol payload stream))

  -- A step of the stream. A message may be any, also one whose processing raises. A backfill is one
  -- whose closed candles are in the strict order of time: `seed_candles` neither sorts nor checks, so
  -- this is what is asked of its caller.
  pub data Step (s : Stream F D) : Stream F D → Type 0 where
    seeded :
        (symbol : Text) (cs : List (Candle F))
        → Rises (closed_of cs)
        → Step s (seed_candles upper symbol cs s)
    received :
        (message : Json) (symbol : Option Text)
        → Step s (process_message dec upper message symbol s).1

  pub data Reach (limit : ℕ) : Stream F D → Type 0 where
    start : Reach limit (init_stream limit)
    step : {s t : Stream F D} → Reach limit s → Step s t → Reach limit t

  Step-IsStream : {s t : Stream F D} → Step s t → IsStream s → IsStream t
  unfolding seed_candles
  Step-IsStream {s} (seeded symbol cs rises) h =
      set_buffer-IsStream upper symbol (fill_buffer s.max_candles [] cs) s
        (fill_buffer-IsBuffer s.max_candles [] cs rises (omega arith)) h
  Step-IsStream {s} (received message symbol) h = process_message-KeepsStream message symbol s h

  Reach-IsStream : (limit : ℕ) {s : Stream F D} → Reach limit s → IsStream s
  unfolding init_stream
  Reach-IsStream limit start = λ k bs e. unfold Dict.get in cc
  Reach-IsStream limit (step r st) = Step-IsStream st (Reach-IsStream limit r)

  -- In every state that is reached from an empty stream by messages, whatever they are and whether or not
  -- their processing raised, and by backfills whose closed candles are in the strict order of time
  -- (`seed_candles` itself neither sorts nor checks them), a request for candles is answered with closed candles in the strict order
  -- of time, and with no more than the limit when that is not 0.
  pub reached-get_closed_candles :
      (limit : ℕ) (s : Stream F D) (symbol : Text) (n : ℕ)
      → Reach limit s
      → Rises (get_closed_candles upper s symbol n)
        × (1 ≤ n → length (get_closed_candles upper s symbol n) ≤ n)
  unfolding get_closed_candles buffer_of
  reached-get_closed_candles limit s symbol n r =
      let items = Dict.get_or (upper symbol) s.candles [] in
      let b = lookup-IsBuffer s (upper symbol) (Reach-IsStream limit r) in
      elim (Bool-cases (n == 0)) [
        | inl all ↦ (rw all b.rises, λ pos. ground arith)
        | inr some_last ↦ (
          rw some_last (drop-Rises (length items - n) items b.rises),
          λ pos. rw some_last (omega (arith, length-drop (length items - n) items)),
        )
      ]
