-- ===== src/Dotenv/RoundTrip.antt =====
-- src/cryptobot/dotenv.py: what is written to a line is read back, and what is loaded is in force.
use cryptobot_v.Prelude.{
  ℕ, ◌-◌, ◌≡◌, ◌≢◌, refl, sym, ap, ◌∙◌, Bool, true, false, ◌||◌, some, [], ◌∷◌, ◌++◌, arith,
  if◌then◌else◌, is_empty, All, get_last?, length, take, take-append_left, take-length,
  length-append,
}
use mathlib.Core.List.{append_assoc}
use cryptobot_v.Prelude.Text.{Text, codes, starts_with}
use cryptobot_v.Dotenv.{partition, unquote, lstrip, rstrip, strip, without_export, parse_line}

-- `KEY="value"` and the end of the line
abbrev pub quoted_line : Text → Text → Text
quoted_line key value = key ++ (61 ∷ 34 ∷ (value ++ (34 ∷ 10 ∷ [])))

partition-append :
    (key rest : Text) → All (λ c. c ≢ 61) key → partition (key ++ 61 ∷ rest) ≡ some (key, rest)
unfolding partition
partition-append [] rest h = refl
partition-append (c ∷ key) rest (other, h) = ground (arith, partition-append key rest h)

last-append : (s : Text) (c : ℕ) → get_last? (s ++ c ∷ []) ≡ some c
last-append [] c = refl
last-append (a ∷ []) c = refl
last-append (a ∷ b ∷ s) c = last-append (b ∷ s) c

take-append : (s t : Text) (n : ℕ) → n ≡ length s → take n (s ++ t) ≡ s
take-append s t n e = take-append_left n s t (omega arith) ∙ (rw e (take-length s))

unquote_quoted : (value : Text) → unquote (34 ∷ (value ++ (34 ∷ []))) ≡ value
unfolding unquote
unquote_quoted value =
    rw (unquote, last-append value 34)
      (take-append value (34 ∷ []) (length (value ++ (34 ∷ [])) - 1)
        (omega (arith, length-append value (34 ∷ []))))

-- A text without a blank does not start with a prefix that has one, whatever follows an `=`.
no_prefix :
    (prefix key rest : Text)
    → All (λ c. c ≢ 61) prefix
    → All (λ c. c ≢ 32) key
    → starts_with (prefix ++ 32 ∷ []) (key ++ 61 ∷ rest) ≡ false
unfolding starts_with
no_prefix [] [] rest h k = refl
no_prefix [] (c ∷ key) rest h (blank, k) = ground arith
no_prefix (p ∷ prefix) [] rest (other, h) k = ground arith
no_prefix (p ∷ prefix) (c ∷ key) rest (other, h) (blank, k) =
    ground (arith, no_prefix prefix key rest h k)

module _ (is_space : ℕ → Bool) where
  abbrev pub Solid : Text → Type 0
  Solid s = All (λ c. is_space c ≡ false) s

  rstrip_end :
      (t : Text) (c : ℕ) (rest : Text)
      → is_space c ≡ false
      → rstrip is_space rest ≡ []
      → rstrip is_space (t ++ c ∷ rest) ≡ t ++ c ∷ []
  unfolding rstrip
  rstrip_end [] c rest solid blank = rw (blank, solid) refl
  rstrip_end (a ∷ t) c rest solid blank = rw (rstrip_end t c rest solid blank) (nonempty t)
    where
      nonempty :
          (t : Text)
          → (if is_empty (t ++ c ∷ [])
              then (if is_space a then [] else a ∷ [])
              else a ∷ t ++ c ∷ [])
            ≡ a ∷ t ++ c ∷ []
      nonempty [] = refl
      nonempty (b ∷ t) = refl

  rstrip-Solid : (s : Text) → Solid s → rstrip is_space s ≡ s
  unfolding rstrip
  rstrip-Solid [] h = refl
  rstrip-Solid (c ∷ s) (solid, h) = ground (arith, rstrip-Solid s h)

  lstrip_solid : (c : ℕ) (s : Text) → is_space c ≡ false → lstrip is_space (c ∷ s) ≡ c ∷ s
  unfolding lstrip
  lstrip_solid c s solid = rw solid refl

  strip-Solid : (s : Text) → Solid s → strip is_space s ≡ s
  unfolding strip
  strip-Solid [] h = refl
  strip-Solid (c ∷ s) (solid, h) = rw (lstrip_solid c s solid) (rstrip-Solid (c ∷ s) (solid, h))

  -- A name that a line can assign to.
  pub record IsKey (key : Text) : Type 0 where
    pub solid : Solid key
    pub no_equals : All (λ c. c ≢ 61) key
    pub some_name : is_empty key ≡ false
    pub no_comment : starts_with (codes "#") key ≡ false

  -- The white space that the line of an assignment meets.
  pub record IsSpacing : Type 0 where
    pub blank : is_space 32 ≡ true
    pub newline : is_space 10 ≡ true
    pub no_quote : is_space 34 ≡ false

  no_blank : (s : Text) → is_space 32 ≡ true → Solid s → All (λ c. c ≢ 32) s
  no_blank [] blank h = tt
  no_blank (c ∷ s) blank (solid, h) = ((λ e. cc), no_blank s blank h)

  -- Without its end a line of an assignment is stripped.
  strip-quoted_line :
      (k : ℕ) (key value : Text)
      → IsSpacing
      → is_space k ≡ false
      → strip is_space (quoted_line (k ∷ key) value) ≡ (k ∷ key) ++ (61 ∷ 34 ∷ (value ++ (34 ∷ [])))
  unfolding strip
  strip-quoted_line k key value spacing solid =
      let front = (k ∷ key) ++ (61 ∷ 34 ∷ value) in
      let whole : quoted_line (k ∷ key) value ≡ front ++ (34 ∷ 10 ∷ []) =
        sym (append_assoc (k ∷ key) (61 ∷ 34 ∷ value) (34 ∷ 10 ∷ [])) in
      let end : rstrip is_space (10 ∷ []) ≡ [] = rw (rstrip, spacing.newline) refl in
      ap (strip is_space) whole
      ∙ (ap (rstrip is_space) (lstrip_solid k (key ++ (61 ∷ 34 ∷ value) ++ (34 ∷ 10 ∷ [])) solid)
          ∙ (rstrip_end front 34 (10 ∷ []) spacing.no_quote end
              ∙ append_assoc (k ∷ key) (61 ∷ 34 ∷ value) (34 ∷ [])))

  strip_quotes :
      (value : Text)
      → is_space 34 ≡ false
      → strip is_space (34 ∷ (value ++ (34 ∷ []))) ≡ 34 ∷ (value ++ (34 ∷ []))
  unfolding strip rstrip
  strip_quotes value solid =
      ap (rstrip is_space) (lstrip_solid 34 (value ++ (34 ∷ [])) solid)
      ∙ rstrip_end (34 ∷ value) 34 [] solid refl

  -- The parts of a line, put together.
  read_line :
      (raw line key value : Text)
      → strip is_space raw ≡ line
      → (is_empty line || starts_with (codes "#") line) ≡ false
      → partition (without_export is_space line) ≡ some (key, value)
      → is_empty (strip is_space key) ≡ false
      → parse_line is_space raw ≡ some (strip is_space key, unquote (strip is_space value))
  unfolding parse_line
  read_line raw line key value stripped assigns parts named =
      rw (parse_line, stripped, assigns, stripped, parts, named) refl

  -- A line that assigns a quoted value to a name is read back as the name and the value, whatever
  -- characters the value has: blanks, `#`, `=` and quotes too.
  pub parse_line-quoted_line :
      (key value : Text)
      → IsSpacing
      → IsKey key
      → parse_line is_space (quoted_line key value) ≡ some (key, value)
  unfolding without_export starts_with
  parse_line-quoted_line [] value spacing is_key = cc (is_key.some_name)
  parse_line-quoted_line (k ∷ key) value spacing is_key =
      let line = (k ∷ key) ++ (61 ∷ 34 ∷ (value ++ (34 ∷ []))) in
      let no_export : starts_with (codes "export ") line ≡ false =
        no_prefix (codes "export") (k ∷ key) (34 ∷ (value ++ (34 ∷ []))) (ground arith)
          (no_blank (k ∷ key) spacing.blank is_key.solid) in
      let whole : without_export is_space line ≡ line = rw (without_export, no_export) refl in
      let comment : (is_empty line || starts_with (codes "#") line) ≡ false = is_key.no_comment in
      let named = strip-Solid (k ∷ key) is_key.solid in
      read_line (quoted_line (k ∷ key) value) line (k ∷ key) (34 ∷ (value ++ (34 ∷ [])))
        (strip-quoted_line k key value spacing is_key.solid.0) comment
        (ap partition whole
          ∙ partition-append (k ∷ key) (34 ∷ (value ++ (34 ∷ []))) is_key.no_equals)
        (ap is_empty named)
      ∙ rw (named, strip_quotes value spacing.no_quote, unquote_quoted value) refl
