-- ===== src/LogX/Checker.antt =====
-- lib/logxchecker/LogChecker.cpp: the callbacks. `fuel` bounds the search for the field of a value.
use nvmordering.Base.{
  ℕ, Bool, false, not, ◌&&◌, if◌then◌else◌, ◌==◌, ltb, Result, ok, fatal_error, guard, ◌>>=◌, ◌>>◌,
}
use nvmordering.Symbolic.Engine.{CheckerContext, end_exploration}
use nvmordering.Symbolic.Memory.{Memory}
use nvmordering.Symbolic.Decls.{Decls, get_func_decl}
use nvmordering.Symbolic.Regions.{get_mem_field_decl_at, get_mem_log_field_decl}
use nvmordering.LogX.Identify.{Identify}
use nvmordering.LogX.Functions.{
  LogFncs, is_analysis_function, is_log_function, is_tx_beg_function, is_tx_end_function,
  is_used_fnc, is_used_var, use_tx_mode, is_tx_enabled, check_tx_mode, set_tx_mode,
}
use nvmordering.LogX.State.{ProgramState, StateInfo, write_data, log_data, check_tx, beg_tx, end_tx}

-- The StateInfo that a handler starts with.
abbrev pub state_info : ℕ → CheckerContext ProgramState → StateInfo
state_info nd c = record { context = c; state = c.state; nd = nd }

-- CallEvent: the callee, the number of arguments and their values.
pub record CallEvent : Type 0 where
  pub decl : ℕ
  pub num_args : ℕ
  pub arg_sval : ℕ → ℕ

-- handleEnd
unfoldable pub handle_end : CheckerContext ProgramState → CheckerContext ProgramState
unfolding end_exploration
handle_end c = end_exploration c

unfoldable pub handle_tx_beg : CheckerContext ProgramState → CheckerContext ProgramState
unfolding beg_tx
handle_tx_beg c = beg_tx c.state c

unfoldable pub handle_tx_end : CheckerContext ProgramState → CheckerContext ProgramState
unfolding end_tx
handle_tx_end c = end_tx c.state c

-- What handleLog and checkBind do at a field that is used.
unfoldable pub at_field :
    {Fnc : Type 0}
    → LogFncs Fnc
    → (StateInfo → Result StateInfo)
    → ℕ
    → CheckerContext ProgramState
    → Result (CheckerContext ProgramState)
unfolding is_tx_enabled check_tx
at_field fncs transition nd c = do
  let si = state_info nd c
  si' ← transition (if is_tx_enabled fncs then check_tx si else si)
  ok si'.context

module _ {Fnc Var : Type 0} (identify : Identify Fnc Var) where
  unfoldable pub decide_tx_mode : LogFncs Fnc → LogFncs Fnc
  unfolding check_tx_mode use_tx_mode set_tx_mode
  decide_tx_mode fncs =
      if not (check_tx_mode fncs) then set_tx_mode (use_tx_mode identify fncs) else fncs

  -- `callee` is C.getCalleeDecl(CE).
  unfoldable pub eval_call : LogFncs Fnc → ℕ → Bool
  unfolding is_used_fnc
  eval_call fncs callee = if callee == 0 then false else is_used_fnc identify fncs callee

  module _ (decls : Decls) where
    unfoldable pub check_begin_function :
        LogFncs Fnc → CheckerContext ProgramState → LogFncs Fnc × CheckerContext ProgramState
    unfolding get_func_decl is_analysis_function decide_tx_mode handle_end
    check_begin_function fncs c =
        let fd = get_func_decl decls c.decl in
        let is_annotated = is_analysis_function identify fncs fd in
        (decide_tx_mode fncs, if not is_annotated && c.in_top_frame then handle_end c else c)

    module _ (mem : Memory) (fuel : ℕ) (log_vars : Var) where
      unfoldable pub handle_log :
          LogFncs Fnc
          → CallEvent
          → CheckerContext ProgramState
          → Result (CheckerContext ProgramState)
      unfolding get_mem_log_field_decl is_used_var at_field log_data
      handle_log fncs call c = do
        guard (not (ltb 2 call.num_args)) fatal_error
        nd ← get_mem_log_field_decl mem decls fuel (call.arg_sval 0)
        if is_used_var identify log_vars nd then at_field fncs log_data nd c else ok c

      unfoldable pub check_post_call :
          LogFncs Fnc
          → CallEvent
          → CheckerContext ProgramState
          → Result (CheckerContext ProgramState)
      unfolding get_func_decl is_log_function is_tx_beg_function is_tx_end_function handle_log
          handle_tx_beg handle_tx_end
      check_post_call fncs call c =
          let fd = get_func_decl decls call.decl in
          if fd == 0
          then ok c
          else (if is_log_function identify fncs fd
              then handle_log fncs call c
              else (if is_tx_beg_function identify fncs fd
                  then ok (handle_tx_beg c)
                  else (if is_tx_end_function identify fncs fd
                      then ok (handle_tx_end c)
                      else ok c)))

      unfoldable pub check_bind :
          LogFncs Fnc → ℕ → CheckerContext ProgramState → Result (CheckerContext ProgramState)
      unfolding get_mem_field_decl_at is_used_var at_field write_data
      check_bind fncs loc c = do
        nd ← get_mem_field_decl_at mem decls fuel loc
        if is_used_var identify log_vars nd then at_field fncs write_data nd c else ok c
