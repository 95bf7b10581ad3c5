-- ===== src/Runtime/Orchestrator/Symbols.antt =====
-- Symbols split into their two assets.
use cryptobot_v.Prelude.{◌≡◌, ◌⊎◌, List, [], ◌∷◌}
use cryptobot_v.Prelude.Text.{Text}

-- A member of a list of texts, up to equality.
abbrev pub IsIn : Text → List Text → Type 0
IsIn q [] = ⊥
IsIn q (r ∷ rs) = (q ≡ r) ⊎ IsIn q rs
