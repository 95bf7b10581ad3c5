-- ===== src/Exchange/Stream/Buffer.antt =====
-- The buffers of a stream: closed candles in the order of time, and not too many.
use cryptobot_v.Prelude.{
  ℕ, zero, suc, ◌-◌, ◌≤◌, ◌<◌, ◌≡◌, refl, sym, ap, ◌∙◌, subst, inl, inr, Bool, true, none, some,
  List, [], ◌∷◌, ◌++◌, arith, ltb, ◌==◌, ==_iff, Bool-cases, Option-cases, some-inj, if◌then◌else◌,
  drop-append_left, length, get_last?, drop, length-drop,
}
use mathlib.Core.List.{append_assoc, append-nil}
use cryptobot_v.Market.Candle.{Candle}
use cryptobot_v.Exchange.Stream.{push, set_last, fill_buffer, fold_candle}

module _ {F : Type 0} where
  -- The candles are closed, and each opens later than the one before it.
  abbrev pub RisesFrom : ℕ → List (Candle F) → Type 0
  RisesFrom t [] = Unit {0}
  RisesFrom t (c ∷ cs) = (t < c.open_time) × (c.is_closed ≡ true) × RisesFrom c.open_time cs

  abbrev pub Rises : List (Candle F) → Type 0
  Rises [] = Unit {0}
  Rises (c ∷ cs) = (c.is_closed ≡ true) × RisesFrom c.open_time cs

  RisesFrom-Rises : (t : ℕ) (cs : List (Candle F)) → RisesFrom t cs → Rises cs
  RisesFrom-Rises t [] h = tt
  RisesFrom-Rises t (c ∷ cs) h = (h.1, h.2)

  pub drop-Rises : (n : ℕ) (cs : List (Candle F)) → Rises cs → Rises (drop n cs)
  drop-Rises zero cs h = h
  drop-Rises (suc n) [] h = tt
  drop-Rises (suc n) (c ∷ cs) h = drop-Rises n cs (RisesFrom-Rises c.open_time cs h.1)

  -- A later candle goes behind the last one.
  append-RisesFrom :
      (t : ℕ) (b : Candle F) (bs : List (Candle F)) (l c : Candle F)
      → RisesFrom t (b ∷ bs)
      → get_last? (b ∷ bs) ≡ some l
      → l.open_time < c.open_time
      → c.is_closed ≡ true
      → RisesFrom t ((b ∷ bs) ++ c ∷ [])
  append-RisesFrom t b [] l c h e lt closed = (h.0, h.1, (ground arith, closed, tt))
  append-RisesFrom t b (b' ∷ bs) l c h e lt closed =
      (h.0, h.1, append-RisesFrom b.open_time b' bs l c h.2 e lt closed)

  append-Rises :
      (bs : List (Candle F)) (l c : Candle F)
      → Rises bs
      → get_last? bs ≡ some l
      → l.open_time < c.open_time
      → c.is_closed ≡ true
      → Rises (bs ++ c ∷ [])
  append-Rises [] l c h e lt closed = (closed, tt)
  append-Rises (b ∷ []) l c h e lt closed = (h.0, (ground arith, closed, tt))
  append-Rises (b ∷ b' ∷ bs) l c h e lt closed =
      (h.0, append-RisesFrom b.open_time b' bs l c h.1 e lt closed)

  set_last-RisesFrom :
      (t : ℕ) (b : Candle F) (bs : List (Candle F)) (l c : Candle F)
      → RisesFrom t (b ∷ bs)
      → get_last? (b ∷ bs) ≡ some l
      → c.open_time ≡ l.open_time
      → c.is_closed ≡ true
      → RisesFrom t (set_last (b ∷ bs) c)
  set_last-RisesFrom t b [] l c h e eq closed = (ground arith, closed, tt)
  set_last-RisesFrom t b (b' ∷ bs) l c h e eq closed =
      (h.0, h.1, set_last-RisesFrom b.open_time b' bs l c h.2 e eq closed)

  set_last-Rises :
      (bs : List (Candle F)) (l c : Candle F)
      → Rises bs
      → get_last? bs ≡ some l
      → c.open_time ≡ l.open_time
      → c.is_closed ≡ true
      → Rises (set_last bs c)
  set_last-Rises [] l c h e eq closed = tt
  set_last-Rises (b ∷ []) l c h e eq closed = (closed, tt)
  set_last-Rises (b ∷ b' ∷ bs) l c h e eq closed =
      (h.0, set_last-RisesFrom b.open_time b' bs l c h.1 e eq closed)

  length-set_last : (bs : List (Candle F)) (c : Candle F) → length (set_last bs c) ≡ length bs
  length-set_last [] c = refl
  length-set_last (b ∷ []) c = refl
  length-set_last (b ∷ b' ∷ bs) c = ap suc (length-set_last (b' ∷ bs) c)

  -- A buffer of a stream with the given limit.
  pub record IsBuffer (limit : ℕ) (bs : List (Candle F)) : Type 0 where
    pub rises : Rises bs
    pub bounded : length bs ≤ limit

  length-push : (limit : ℕ) (bs : List (Candle F)) (c : Candle F) → length (push limit bs c) ≤ limit
  length-push limit bs c = omega (arith, length-drop (length (bs ++ c ∷ []) - limit) (bs ++ c ∷ []))

  push-IsBuffer :
      (limit : ℕ) (bs : List (Candle F)) (c : Candle F)
      → Rises (bs ++ c ∷ [])
      → IsBuffer limit (push limit bs c)
  push-IsBuffer limit bs c h = record {
    rises = drop-Rises (length (bs ++ c ∷ []) - limit) (bs ++ c ∷ []) h;
    bounded = length-push limit bs c;
  }

  get_last?-none : (bs : List (Candle F)) → get_last? bs ≡ none → bs ≡ []
  get_last?-none [] e = refl
  get_last?-none (b ∷ []) e = cc
  get_last?-none (b ∷ b' ∷ bs) e = absurd (impossible b' bs e)
    where
      impossible : (b : Candle F) (bs : List (Candle F)) → get_last? (b ∷ bs) ≡ none → ⊥
      impossible b [] e = cc
      impossible b (b' ∷ bs) e = impossible b' bs e

  -- A closed candle folded into a buffer leaves a buffer.
  pub fold_candle-IsBuffer :
      (limit : ℕ) (bs bs' : List (Candle F)) (c : Candle F)
      → IsBuffer limit bs
      → c.is_closed ≡ true
      → fold_candle limit bs c ≡ some bs'
      → IsBuffer limit bs'
  unfolding fold_candle
  fold_candle-IsBuffer limit bs bs' c h closed run = elim (Option-cases (get_last? bs)) [
    | inl empty ↦
        let none_yet : bs ≡ [] = get_last?-none bs empty in
        let pushed : push limit bs c ≡ bs' = some-inj (sym (rw (fold_candle, empty)) ∙ run) in
        let rises : Rises (bs ++ c ∷ []) = rw none_yet (closed, tt) in
        subst (IsBuffer limit) pushed (push-IsBuffer limit bs c rises)
    | inr (l, last) ↦ elim (Bool-cases (c.open_time == l.open_time)) [
      | inl again ↦
          let replaced : set_last bs c ≡ bs' =
            some-inj (sym (rw (fold_candle, last, again)) ∙ run) in
          subst (IsBuffer limit) replaced (record {
            rises = set_last-Rises bs l c h.rises last ((==_iff _ _).0 again) closed;
            bounded = omega (arith, length-set_last bs c, h.bounded);
          })
      | inr other ↦ elim (Bool-cases (ltb c.open_time l.open_time)) [
        | inl stale ↦ ground arith
        | inr later ↦
            let pushed : push limit bs c ≡ bs' =
              some-inj (sym (rw (fold_candle, last, other, later)) ∙ run) in
            let lt : l.open_time < c.open_time = ground arith in
            subst (IsBuffer limit) pushed
              (push-IsBuffer limit bs c (append-Rises bs l c h.rises last lt closed))
      ]
    ]
  ]

  abbrev pub closed_of : List (Candle F) → List (Candle F)
  closed_of [] = []
  closed_of (c ∷ cs) = if c.is_closed then c ∷ closed_of cs else closed_of cs

  push-Rises :
      (limit : ℕ) (bs : List (Candle F)) (c : Candle F) (cs : List (Candle F))
      → Rises (bs ++ c ∷ cs)
      → Rises (push limit bs c ++ cs)
  push-Rises limit bs c cs h =
      let n = length (bs ++ c ∷ []) - limit in
      let whole : (bs ++ c ∷ []) ++ cs ≡ bs ++ c ∷ cs = append_assoc bs (c ∷ []) cs in
      subst Rises (drop-append_left n (bs ++ c ∷ []) cs (omega arith))
        (drop-Rises n ((bs ++ c ∷ []) ++ cs) (subst Rises (sym whole) h))

  -- Candles whose closed ones rise leave a buffer when they are read in.
  pub fill_buffer-IsBuffer :
      (limit : ℕ) (bs cs : List (Candle F))
      → Rises (bs ++ closed_of cs)
      → length bs ≤ limit
      → IsBuffer limit (fill_buffer limit bs cs)
  unfolding fill_buffer
  fill_buffer-IsBuffer limit bs [] h k = record {
    rises = subst Rises (append-nil bs) h;
    bounded = k;
  }
  fill_buffer-IsBuffer limit bs (c ∷ cs) h k =
      let filled = λ (b : Bool). fill_buffer limit (if b then push limit bs c else bs) cs in
      let rest = λ (b : Bool). bs ++ (if b then c ∷ closed_of cs else closed_of cs) in
      elim (Bool-cases c.is_closed) [
        | inl closed ↦ subst (IsBuffer limit) (sym (ap filled closed)) (
            fill_buffer-IsBuffer limit (push limit bs c) cs
              (push-Rises limit bs c (closed_of cs) (subst Rises (ap rest closed) h))
              (length-push limit bs c))
        | inr open_yet ↦
            subst (IsBuffer limit) (sym (ap filled open_yet))
              (fill_buffer-IsBuffer limit bs cs (subst Rises (ap rest open_yet) h) k)
      ]
