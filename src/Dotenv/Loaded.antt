-- ===== src/Dotenv/Loaded.antt =====
-- src/cryptobot/dotenv.py: what a file may change of the environment.
use cryptobot_v.Prelude.{
  ℕ, ◌≡◌, inl, inr, Bool, false, not, ◌&&◌, Option, none, some, List, [], ◌∷◌, arith, Bool-cases,
  Option-cases, is_some,
}
use cryptobot_v.Prelude.Text.{Text, text_eq_iff}
use cryptobot_v.Prelude.Dict
use cryptobot_v.Dotenv.{parse_line, load_lines, load_dotenv}

-- What is loaded is in force, and an environment `env` keeps its variables unless they may be overridden.
pub record IsLoaded (override : Bool) (env : List (Text × Text))
    (out : List (Text × Text) × List (Text × Text)) : Type 0 where
  pub in_force : (k v : Text) → Dict.get k out.1 ≡ some v → Dict.get k out.0 ≡ some v
  pub keeps : (k v : Text) → override ≡ false → Dict.get k env ≡ some v → Dict.get k out.0 ≡ some v

put-IsLoaded :
    (override : Bool) (env now loaded : List (Text × Text)) (key value : Text)
    → (not override && is_some (Dict.get key now)) ≡ false
    → IsLoaded override env (now, loaded)
    → IsLoaded override env (Dict.put key value now, Dict.put key value loaded)
put-IsLoaded override env now loaded key value free h = record {
  in_force = λ k v e.
      ground (arith, Dict.get-put key k value now, Dict.get-put key k value loaded, h.in_force k v);
  keeps = λ k v kept e.
      ground (arith, Dict.get-put key k value now, text_eq_iff key k, h.keeps k v kept e);
}

fresh : (override : Bool) (env : List (Text × Text)) → IsLoaded override env (env, [])
fresh override env = record { in_force = λ k v e. unfold Dict.get in cc; keeps = λ k v kept e. e }

module _ (is_space : ℕ → Bool) where
  load_lines-IsLoaded :
      (override : Bool) (env : List (Text × Text)) (lines : List Text)
      (now loaded : List (Text × Text))
      → IsLoaded override env (now, loaded)
      → IsLoaded override env (load_lines is_space override lines now loaded)
  unfolding load_lines
  load_lines-IsLoaded override env [] now loaded h = h
  load_lines-IsLoaded override env (raw ∷ lines) now loaded h =
      elim (Option-cases (parse_line is_space raw)) [
        | inl nothing ↦
            rw (load_lines, nothing) (load_lines-IsLoaded override env lines now loaded h)
        | inr ((key, value), read) ↦
            elim (Bool-cases (not override && is_some (Dict.get key now))) [
              | inl kept ↦
                  rw (load_lines, read, kept) (load_lines-IsLoaded override env lines now loaded h)
              | inr free ↦
                  rw (load_lines, read, free)
                    (load_lines-IsLoaded override env lines (Dict.put key value now)
                      (Dict.put key value loaded)
                      (put-IsLoaded override env now loaded key value free h))
            ]
      ]

  -- Whatever the file holds, or if it is missing: each variable that is reported as loaded has that value
  -- in the environment, and without `override` every variable that was set keeps its value.
  pub load_dotenv-IsLoaded :
      (override : Bool) (env : List (Text × Text)) (file : Option (List Text))
      → IsLoaded override env (load_dotenv is_space file env override)
  unfolding load_dotenv
  load_dotenv-IsLoaded override env none = fresh override env
  load_dotenv-IsLoaded override env (some lines) =
      load_lines-IsLoaded override env lines env [] (fresh override env)
