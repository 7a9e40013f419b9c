-- ===== src/LogX/Functions.antt =====
-- lib/logxchecker/parser: the functions and the variables that the checker knows, and whether it
-- looks at transactions.
use nvmordering.Base.{ℕ, Bool, true, false, not, ◌||◌, ◌&&◌}
use nvmordering.LogX.Identify.{Identify}

pub record LogFncs (Fnc : Type 0) : Type 0 where
  pub analysis_fnc : Fnc
  pub log_fnc : Fnc
  pub tx_beg_fnc : Fnc
  pub tx_end_fnc : Fnc
  pub use_tx : Bool
  pub check_tx : Bool

-- The constructor, on its four sets as they start.
unfoldable pub new_log_fncs : {Fnc : Type 0} → Fnc → Fnc → Fnc → Fnc → LogFncs Fnc
new_log_fncs analysis log beg end = record {
  analysis_fnc = analysis;
  log_fnc = log;
  tx_beg_fnc = beg;
  tx_end_fnc = end;
  use_tx = false;
  check_tx = false;
}

module _ {Fnc Var : Type 0} (identify : Identify Fnc Var) where
  unfoldable pub is_analysis_function : LogFncs Fnc → ℕ → Bool
  is_analysis_function fncs fd = identify.in_functions fncs.analysis_fnc fd

  unfoldable pub is_log_function : LogFncs Fnc → ℕ → Bool
  is_log_function fncs fd = identify.in_functions fncs.log_fnc fd

  unfoldable pub is_tx_beg_function : LogFncs Fnc → ℕ → Bool
  is_tx_beg_function fncs fd = identify.in_functions fncs.tx_beg_fnc fd

  unfoldable pub is_tx_end_function : LogFncs Fnc → ℕ → Bool
  is_tx_end_function fncs fd = identify.in_functions fncs.tx_end_fnc fd

  unfoldable pub is_used_fnc : LogFncs Fnc → ℕ → Bool
  unfolding is_log_function is_tx_beg_function is_tx_end_function
  is_used_fnc fncs fd =
      is_log_function fncs fd || is_tx_beg_function fncs fd || is_tx_end_function fncs fd

  unfoldable pub insert_fnc : ℕ → LogFncs Fnc → LogFncs Fnc
  insert_fnc fd fncs = record fncs {
    analysis_fnc = identify.insert_fnc_if_known fd fncs.analysis_fnc;
    log_fnc = identify.insert_fnc_if_known fd fncs.log_fnc;
    tx_beg_fnc = identify.insert_fnc_if_known fd fncs.tx_beg_fnc;
    tx_end_fnc = identify.insert_fnc_if_known fd fncs.tx_end_fnc;
  }

  unfoldable pub use_tx_mode : LogFncs Fnc → LogFncs Fnc
  use_tx_mode fncs = record fncs {
    use_tx = not (identify.empty fncs.tx_beg_fnc) && not (identify.empty fncs.tx_end_fnc);
  }

  -- LogVars, around one set of annotated variables
  unfoldable pub is_used_var : Var → ℕ → Bool
  is_used_var log_field nd = identify.is_used_var log_field nd

  unfoldable pub insert_var : ℕ → Var → Var
  insert_var nd log_field = identify.insert_var_if_known nd log_field

unfoldable pub is_tx_enabled : {Fnc : Type 0} → LogFncs Fnc → Bool
is_tx_enabled fncs = fncs.use_tx

unfoldable pub check_tx_mode : {Fnc : Type 0} → LogFncs Fnc → Bool
check_tx_mode fncs = fncs.check_tx

unfoldable pub set_tx_mode : {Fnc : Type 0} → LogFncs Fnc → LogFncs Fnc
set_tx_mode fncs = record fncs { check_tx = true }
