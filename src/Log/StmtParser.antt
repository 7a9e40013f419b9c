-- ===== src/Log/StmtParser.antt =====
-- lib/logchecker/analyzer/LogStmtParser.h: which transition a statement is, if any.
use nvmordering.Base.{ℕ, not, ◌==◌, if◌then◌else◌, Result, ok, assert_failed, guard, ◌>>◌}
use nvmordering.Clang.{Ast, same_kind, binary_operator, call_expr}
use nvmordering.Clang.Parse.{get_field_decl_from_write, get_field_decl_from_call}
use nvmordering.Globals.Units.{GlobalInfo}
use nvmordering.Log.Functions.{
  LogFunctions, LogVariables, is_used_var, is_log_function, is_tx_begin_function,
  is_tx_end_function,
}

pub data TransferFunction : Type 0 where
  write_func log_func tx_begin_func tx_end_func callee_func no_func : TransferFunction

pub record TransitionInfo : Type 0 where
  pub transfer_func : TransferFunction
  pub var : ℕ

abbrev pub Globals : Type 0
Globals = GlobalInfo LogVariables LogFunctions

-- The constructors without a variable.
abbrev pub plain_transition : TransferFunction → TransitionInfo
plain_transition f = record { transfer_func = f; var = 0 }

-- LogTransitionInfo(transferFunc, var), with its assertion
unfoldable pub new_transition : TransferFunction → ℕ → Result TransitionInfo
new_transition f var = do
  guard (not (var == 0)) assert_failed
  ok (record { transfer_func = f; var = var })

module _ (ast : Ast) (g : Globals) where
  unfoldable pub parse_write : ℕ → Result TransitionInfo
  parse_write bo =
      let vd = get_field_decl_from_write ast bo in
      if not (is_used_var g.variables vd)
      then ok (plain_transition no_func)
      else new_transition write_func vd

  unfoldable pub parse_log : ℕ → Result TransitionInfo
  parse_log ce =
      let vd = get_field_decl_from_call ast ce in
      if not (is_used_var g.variables vd)
      then ok (plain_transition no_func)
      else new_transition log_func vd

  -- parseCall, with parseTxBegin and parseTxEnd
  unfoldable pub parse_call : ℕ → Result TransitionInfo
  parse_call ce =
      let fd = ast.direct_callee ce in
      if fd == 0
      then ok (plain_transition no_func)
      else (if is_log_function g.functions fd
          then parse_log ce
          else (if is_tx_begin_function g.functions fd
              then ok (plain_transition tx_begin_func)
              else (if is_tx_end_function g.functions fd
                  then ok (plain_transition tx_end_func)
                  else ok (plain_transition no_func))))

  unfoldable pub parse_stmt : ℕ → Result TransitionInfo
  parse_stmt s =
      if same_kind (ast.kind s) binary_operator
      then parse_write s
      else (if same_kind (ast.kind s) call_expr
          then parse_call s
          else ok (plain_transition no_func))
