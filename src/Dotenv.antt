-- ===== src/Dotenv.antt =====
-- src/cryptobot/dotenv.py. A file is the list of its lines, or none when it is missing; `is_space` is the
-- interpreter's test of white space.
pub mod RoundTrip
pub mod Loaded
use cryptobot_v.Prelude.{
  ℕ, ◌-◌, Bool, true, false, ◌&&◌, ◌||◌, not, Option, none, some, List, [], ◌∷◌, ◌==◌,
  if◌then◌else◌, is_empty, is_some, get_last?, length, take, drop,
}
use cryptobot_v.Prelude.Text.{Text, codes, starts_with}
use cryptobot_v.Prelude.Dict

-- `line.partition("=")` of a line with an `=` in it
unfoldable pub partition : Text → Option (Text × Text)
partition [] = none
partition (c ∷ s) = elim (c == 61) [
  | true ↦ some ([], s)
  | false ↦ elim (partition s) [ none ↦ none | some (key, value) ↦ some (c ∷ key, value) ]
]

abbrev pub is_quote : ℕ → Bool
is_quote c = (c == 39) || (c == 34)

-- Matching quotes around the value are removed.
unfoldable pub unquote : Text → Text
unquote [] = []
unquote (c ∷ s) = elim (get_last? s) [
  | none ↦ c ∷ s
  | some l ↦ if (c == l) && is_quote c then take (length s - 1) s else c ∷ s
]

module _ (is_space : ℕ → Bool) where
  -- `s.lstrip()`, `s.rstrip()` and `s.strip()`
  unfoldable pub lstrip : Text → Text
  lstrip [] = []
  lstrip (c ∷ s) = if is_space c then lstrip s else c ∷ s

  unfoldable pub rstrip : Text → Text
  rstrip [] = []
  rstrip (c ∷ s) =
      let rest = rstrip s in if is_empty rest then (if is_space c then [] else c ∷ []) else c ∷ rest

  unfoldable pub strip : Text → Text
  unfolding lstrip rstrip
  strip s = rstrip (lstrip s)

  -- The line without an `export` in front
  unfoldable pub without_export : Text → Text
  unfolding lstrip
  without_export line = if starts_with (codes "export ") line then lstrip (drop 7 line) else line

  -- The body of the loop, up to the test of the key: what the line assigns, if anything.
  unfoldable pub parse_line : Text → Option (Text × Text)
  unfolding strip without_export partition unquote
  parse_line raw_line =
      let line = strip raw_line in
      elim (is_empty line || starts_with (codes "#") line) [
        | true ↦ none
        | false ↦ elim (partition (without_export line)) [
          | none ↦ none
          | some (key, value) ↦ elim (is_empty (strip key)) [
            | true ↦ none
            | false ↦ some (strip key, unquote (strip value))
          ]
        ]
      ]

  -- The loop, with the environment and what was loaded so far
  unfoldable pub load_lines :
      Bool
      → List Text
      → List (Text × Text)
      → List (Text × Text)
      → List (Text × Text) × List (Text × Text)
  unfolding parse_line
  load_lines override [] env loaded = (env, loaded)
  load_lines override (raw_line ∷ lines) env loaded = elim (parse_line raw_line) [
    | none ↦ load_lines override lines env loaded
    | some (key, value) ↦ elim (not override && is_some (Dict.get key env)) [
      | true ↦ load_lines override lines env loaded
      | false ↦ load_lines override lines (Dict.put key value env) (Dict.put key value loaded)
    ]
  ]

  unfoldable pub load_dotenv :
      Option (List Text) → List (Text × Text) → Bool → List (Text × Text) × List (Text × Text)
  unfolding load_lines
  load_dotenv none env override = (env, [])
  load_dotenv (some lines) env override = load_lines override lines env []
