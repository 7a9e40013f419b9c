-- ===== src/Flushed/StmtParser.antt =====
-- lib/flushedchecker/analyzer/FlushedStmtParser.h: which transition a statement is, if any.
use nvmordering.Base.{ℕ, Bool, true, false, ◌&&◌, not, ◌==◌, if◌then◌else◌}
use nvmordering.Clang.{Ast, same_kind, binary_operator, call_expr}
use nvmordering.Clang.Parse.{
  get_field_decl_from_write, get_nd_of_rhs, get_nd_of_assigned, get_ptr_from_flush,
}
use nvmordering.Globals.Units.{GlobalInfo}
use nvmordering.Globals.Functions.Direct.{
  DirectFunctions, is_flush_fence_function, is_flush_opt_function, is_pfence_function,
}
use nvmordering.Flushed.Variables.{FlushedVariables, is_field_variable, is_tracked_variable}

pub data TransferFunction : Type 0 where
  write_func flush_func flush_fence_func pfence_func callee_func no_func : TransferFunction

pub data AccessType : Type 0 where
  field_access tracked_variable_access no_access : AccessType

pub record TransitionInfo : Type 0 where
  pub transfer_func : TransferFunction
  pub access_type : AccessType
  pub field_variable : ℕ
  pub tracked_variable : ℕ

abbrev pub Globals : Type 0
Globals = GlobalInfo FlushedVariables DirectFunctions

abbrev is_fence_func : TransferFunction → Bool
is_fence_func flush_fence_func = true
is_fence_func pfence_func = true
is_fence_func _ = false

unfoldable pub is_pfence : TransitionInfo → Bool
is_pfence ti = is_fence_func ti.transfer_func

abbrev pub get_flush_function : Bool → TransferFunction
get_flush_function is_pfence = if is_pfence then flush_fence_func else flush_func

abbrev pub get_tracked_variable_fti : TransferFunction → ℕ → TransitionInfo
get_tracked_variable_fti f tracked = record {
  transfer_func = f;
  access_type = tracked_variable_access;
  field_variable = 0;
  tracked_variable = tracked;
}

-- the constructor gets the tracked variable twice
abbrev pub get_field_fti : TransferFunction → ℕ → ℕ → TransitionInfo
get_field_fti f field tracked = record {
  transfer_func = f;
  access_type = field_access;
  field_variable = tracked;
  tracked_variable = tracked;
}

-- getFTI(transferFunc), and getFTI() for `no_func`
abbrev pub get_fti : TransferFunction → TransitionInfo
get_fti f = record {
  transfer_func = f;
  access_type = no_access;
  field_variable = 0;
  tracked_variable = 0;
}

module _ (ast : Ast) (g : Globals) where
  unfoldable pub parse_write : ℕ → TransitionInfo
  parse_write bo =
      let field = get_field_decl_from_write ast bo in
      let rhs = get_nd_of_rhs ast bo in
      let lhs = get_nd_of_assigned ast bo in
      if not (field == 0)
        && (not (rhs == 0)
            && (is_field_variable g.variables field && is_tracked_variable g.variables rhs))
      then get_field_fti write_func field rhs
      else (if not (lhs == 0) && is_tracked_variable g.variables lhs
          then get_tracked_variable_fti write_func lhs
          else get_fti no_func)

  unfoldable pub parse_flush : ℕ → Bool → TransitionInfo
  parse_flush ce is_pfence =
      let tracked = get_ptr_from_flush ast ce in
      if not (tracked == 0) && is_tracked_variable g.variables tracked
      then get_tracked_variable_fti (get_flush_function is_pfence) tracked
      else get_fti no_func

  -- parseCall, with parseFence
  unfoldable pub parse_call : ℕ → TransitionInfo
  parse_call ce =
      let fd = ast.direct_callee ce in
      let fs = g.functions in
      if fd == 0
      then get_fti no_func
      else (if is_flush_fence_function fs fd
          then parse_flush ce true
          else (if is_flush_opt_function fs fd
              then parse_flush ce false
              else (if is_pfence_function fs fd then get_fti pfence_func else get_fti no_func)))

  unfoldable pub parse_stmt : ℕ → TransitionInfo
  parse_stmt s =
      if same_kind (ast.kind s) binary_operator
      then parse_write s
      else (if same_kind (ast.kind s) call_expr then parse_call s else get_fti no_func)
