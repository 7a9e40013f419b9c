-- ===== src/LogX/Identify.antt =====
-- The classes of the headers `identify/`, which the checker includes and the repository does not
-- have: a set of functions or variables that fills itself with the declarations that it knows.
use nvmordering.Base.{ℕ, Bool}

pub record Identify (Fnc Var : Type 0) : Type 0 where
  pub in_functions : Fnc → ℕ → Bool
  pub insert_fnc_if_known : ℕ → Fnc → Fnc
  pub empty : Fnc → Bool
  pub is_used_var : Var → ℕ → Bool
  pub insert_var_if_known : ℕ → Var → Var
