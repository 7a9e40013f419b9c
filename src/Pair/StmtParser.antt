-- ===== src/Pair/StmtParser.antt =====
-- lib/pairchecker/analyzer/PairStmtParser.h: which transition a statement is, if any.
use nvmordering.Base.{
  ℕ, Bool, true, false, not, ◌==◌, if◌then◌else◌, Result, ok, assert_failed, guard, ◌>>◌,
}
use nvmordering.Clang.{Ast, same_kind, binary_operator, call_expr}
use nvmordering.Clang.Parse.{get_field_decl_from_write, get_field_decl_from_call}
use nvmordering.Globals.Units.{GlobalInfo}
use nvmordering.Globals.Functions.Direct.{
  DirectFunctions, is_flush_fence_function, is_flush_opt_function, is_pfence_function,
  is_vfence_function,
}
use nvmordering.Pair.Variables.{PairVariables, is_used_var}

pub data TransferFunction : Type 0 where
  write_func flush_func flush_fence_func vfence_func pfence_func callee_func : TransferFunction
  no_func : TransferFunction

-- `var` is null for a fence
pub record TransitionInfo : Type 0 where
  pub transfer_func : TransferFunction
  pub var : ℕ

abbrev pub Globals : Type 0
Globals = GlobalInfo PairVariables DirectFunctions

abbrev pub no_transition : TransitionInfo
no_transition = record { transfer_func = no_func; var = 0 }

abbrev pub fence_transition : TransferFunction → TransitionInfo
fence_transition f = record { transfer_func = f; var = 0 }

-- PairTransitionInfo(transferFunc, var), with its assertion
unfoldable pub new_transition : TransferFunction → ℕ → Result TransitionInfo
new_transition f var = do
  guard (not (var == 0)) assert_failed
  ok (record { transfer_func = f; var = var })

abbrev pub is_fence_func : TransferFunction → Bool
is_fence_func flush_fence_func = true
is_fence_func pfence_func = true
is_fence_func _ = false

unfoldable pub is_pfence : TransitionInfo → Bool
is_pfence ti = is_fence_func ti.transfer_func

unfoldable pub get_flush_function : Bool → TransferFunction
get_flush_function is_pfence = if is_pfence then flush_fence_func else flush_func

unfoldable pub get_fence_function : Bool → TransferFunction
get_fence_function is_pfence = if is_pfence then pfence_func else vfence_func

module _ (ast : Ast) (g : Globals) where
  unfoldable pub parse_write : ℕ → Result TransitionInfo
  parse_write bo =
      let vd = get_field_decl_from_write ast bo in
      if not (is_used_var g.variables vd) then ok no_transition else new_transition write_func vd

  unfoldable pub parse_flush : ℕ → Bool → Result TransitionInfo
  parse_flush ce is_pfence =
      let vd = get_field_decl_from_call ast ce in
      if not (is_used_var g.variables vd)
      then ok no_transition
      else new_transition (get_flush_function is_pfence) vd

  unfoldable pub parse_fence : ℕ → Bool → Result TransitionInfo
  parse_fence ce is_pfence = ok (fence_transition (get_fence_function is_pfence))

  unfoldable pub parse_call : ℕ → Result TransitionInfo
  parse_call ce =
      let fd = ast.direct_callee ce in
      let fs = g.functions in
      if fd == 0
      then ok no_transition
      else (if is_flush_fence_function fs fd
          then parse_flush ce true
          else (if is_flush_opt_function fs fd
              then parse_flush ce false
              else (if is_pfence_function fs fd
                  then parse_fence ce true
                  else (if is_vfence_function fs fd
                      then parse_fence ce false
                      else ok no_transition))))

  unfoldable pub parse_stmt : ℕ → Result TransitionInfo
  parse_stmt s =
      if same_kind (ast.kind s) binary_operator
      then parse_write s
      else (if same_kind (ast.kind s) call_expr then parse_call s else ok no_transition)
