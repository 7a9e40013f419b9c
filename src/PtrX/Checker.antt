-- ===== src/PtrX/Checker.antt =====
-- lib/ptrxchecker/PtrChecker.cpp: the callbacks.
use Prim.Native.String.{String}
use nvmordering.Base.{
  ℕ, Bool, false, not, ◌&&◌, ◌==◌, ltb, if◌then◌else◌, List, [], ◌∷◌, Option, none, some, Result,
  ok, err, fatal_error, null_deref, guard, ◌>>=◌, ◌>>◌, fold_result,
}
use nvmordering.Clang.{Ast}
use nvmordering.Symbolic.Engine.{
  CheckerContext, BugReportData, not_flush_bug, add_transition, add_new_state, end_exploration,
  report_at_error_node,
}
use nvmordering.Symbolic.Memory.{Memory}
use nvmordering.Symbolic.Decls.{Decls, get_func_decl}
use nvmordering.Symbolic.Regions.{
  get_top_base_mem_reg_unsafe, get_top_base_mem_reg_l_or_r, get_mem_field_decl_at,
}
use nvmordering.PtrX.State.{PtrState, same_state, write_ptr_region, flush_ptr_region}
use nvmordering.PtrX.Written.{region, is_ptr_written}
use nvmordering.PtrX.Walkers.{Identify, is_alloc_used}
use nvmordering.Walk.Names.{uses_names}

-- CallEvent: the callee, the number of arguments and their values.
pub record CallEvent : Type 0 where
  pub decl : ℕ
  pub num_args : ℕ
  pub arg_sval : ℕ → ℕ

abbrev Context : Type 0
Context = CheckerContext PtrState

-- The bug of a pointer that is not flushed.
abbrev pub not_flushed : BugReportData
not_flushed = record { nd = 0; msg = "not flushed"; bug_ptr = not_flush_bug }

-- What checkBeginFunction does with one parameter, of which `loc` is the value. `state` is read once
-- before the loop and is not the state of the last transition.
module _ (mem : Memory) (fuel : ℕ) where
  unfoldable pub dirty_param : PtrState → ℕ → Context → Result Context
  unfolding get_top_base_mem_reg_unsafe write_ptr_region add_new_state same_state
  dirty_param state loc c = do
    mr ← get_top_base_mem_reg_unsafe mem fuel loc
    if mr == 0 then ok c else (do
      state' ← write_ptr_region mem fuel state mr
      ok (add_new_state same_state state state' c))

  unfoldable pub dirty_params : List ℕ → Context → Result Context
  unfolding dirty_param fold_result
  dirty_params locs c = fold_result (dirty_param c.state) locs c

module _ {Fnc Var : Type 0} (identify : Identify Fnc Var) (fncs : Fnc) where
  -- `param_locs` has the values of the parameters of a function in this frame.
  unfoldable pub check_begin_function : Memory → ℕ → Decls → (ℕ → List ℕ) → Context → Result Context
  unfolding get_func_decl end_exploration dirty_params
  check_begin_function mem fuel decls param_locs c =
      let fd = get_func_decl decls c.decl in
      if identify.is_skip_frame fncs c.decl && c.in_top_frame
      then ok (end_exploration c)
      else (if not (fd == 0) && not c.in_top_frame
          then ok c
          else (if fd == 0 then err null_deref else dirty_params mem fuel (param_locs fd) c))

  unfoldable pub handle_flush_fence_fnc : Memory → ℕ → CallEvent → Context → Result Context
  unfolding get_top_base_mem_reg_unsafe flush_ptr_region add_new_state same_state
  handle_flush_fence_fnc mem fuel call c = do
    guard (not (ltb 3 call.num_args)) fatal_error
    mr ← get_top_base_mem_reg_unsafe mem fuel (call.arg_sval 0)
    if mr == 0 then ok c else (do
      state' ← flush_ptr_region mem fuel c.state mr
      ok (add_new_state same_state c.state state' c))

  unfoldable pub check_pre_call : Memory → ℕ → Decls → CallEvent → Context → Result Context
  unfolding get_func_decl handle_flush_fence_fnc
  check_pre_call mem fuel decls call c =
      if identify.is_flush_fence_fnc fncs (get_func_decl decls call.decl)
      then handle_flush_fence_fnc mem fuel call c
      else ok c

  -- `callee` is C.getCalleeDecl(CE).
  unfoldable pub eval_call : ℕ → Bool
  eval_call callee = if callee == 0 then false else identify.is_skip fncs callee

module _ {Fnc Var : Type 0} (identify : Identify Fnc Var) (vars : Var) (mem : Memory)
    (fuel : ℕ) where
  -- The test of checkBind for a written pointer, at the region that is read.
  unfoldable pub check_read : ℕ → Context → Result Context
  unfolding is_ptr_written report_at_error_node
  check_read mr c = if mr == 0 then ok c else (do
    written ← is_ptr_written mem fuel c.state (region mr)
    ok (if written then report_at_error_node not_flushed c else c))

  unfoldable pub check_tainted : Decls → ℕ → ℕ → Context → Result Context
  unfolding get_mem_field_decl_at get_top_base_mem_reg_unsafe check_read
  check_tainted decls loc val c = do
    fd ← get_mem_field_decl_at mem decls fuel loc
    if identify.is_used_var vars fd
        then (do mr ← get_top_base_mem_reg_unsafe mem fuel val; check_read mr c)
        else ok c

  -- `alloc` is whether the statement allocates.
  unfoldable pub taint_written : ℕ → ℕ → Bool → Context → Result Context
  unfolding get_top_base_mem_reg_l_or_r write_ptr_region add_new_state same_state
  taint_written loc val alloc c = do
    mr ← get_top_base_mem_reg_l_or_r mem fuel loc val (not alloc)
    if mr == 0 then ok c else (do
      state' ← write_ptr_region mem fuel c.state mr
      ok (add_new_state same_state c.state state' c))

  unfoldable pub check_bind :
      Decls → Ast → (ℕ → Bool) → (ℕ → List ℕ) → ℕ → ℕ → ℕ → Context → Result Context
  unfolding is_alloc_used check_tainted taint_written
  check_bind decls ast is_new_expr traverse loc val s c = do
    alloc ← is_alloc_used ast is_new_expr traverse s
    c' ← check_tainted decls loc val c
    taint_written loc val alloc c'

-- checkBranchCondition, with clang's value of a statement (none where it is undefined) and its
-- `assume` that the value is true.
module _ (ast : Ast) (ref_identifier : ℕ → Option String) (fuel : ℕ) (sval : ℕ → Option ℕ)
    (assume : PtrState → ℕ → Option PtrState) where
  abbrev pub condition_names : List String
  condition_names = "use_nvm" ∷ []

  unfoldable pub assume_true : Option ℕ → Context → Context
  unfolding end_exploration add_transition
  assume_true none c = end_exploration c
  assume_true (some v) c = elim (assume c.state v) [
    | none ↦ end_exploration c
    | some state' ↦ add_transition state' c
  ]

  unfoldable pub check_branch_condition : ℕ → Context → Result Context
  unfolding uses_names assume_true
  check_branch_condition s c = do
    uses ← uses_names ast ref_identifier condition_names fuel s
    ok (if uses then assume_true (sval s) c else c)
