-- ===== src/PtrX/Walkers.antt =====
-- lib/ptrxchecker/parser: what the checker collects of the translation unit, and whether a statement
-- allocates. The sets of functions and variables are classes of the headers `identify/`, which the
-- repository does not have.
use Prim.Native.String.{String}
use text.Mathlib.Text.{◌==◌ as str_eq}
use nvmordering.Base.{
  ℕ, Bool, true, false, ◌||◌, ◌==◌, if◌then◌else◌, List, [], ◌∷◌, none, some, PtrSet, add, Result,
  ok, err, null_deref, ◌>>=◌, fold_result,
}
use nvmordering.Clang.{
  Ast, Visit, function_decl, field_decl, record_decl, member_visit, assignment_visit, call_expr,
  same_kind,
}
use nvmordering.Symbolic.Decls.{Decls, stmt, get_func_decl_around}

pub record Identify (Fnc Var : Type 0) : Type 0 where
  pub is_skip_frame : Fnc → ℕ → Bool  -- isSkip(C), by the declaration of the frame
  pub is_skip : Fnc → ℕ → Bool
  pub is_flush_fence_fnc : Fnc → ℕ → Bool
  pub insert_fnc_if_known : ℕ → Fnc → Fnc
  pub insert_analyze : ℕ → Fnc → Fnc
  pub is_used_var : Var → ℕ → Bool
  pub insert_var_if_known : ℕ → Var → Var

-- AllocWalker, on the statements that RecursiveASTVisitor goes through and the test for CXXNewExpr.
module _ (ast : Ast) (is_new_expr : ℕ → Bool) (traverse : ℕ → List ℕ) where
  unfoldable pub is_allocator : String → Bool
  is_allocator name = str_eq name "malloc" || str_eq name "calloc" || str_eq name "realloc"

  -- VisitCallExpr; `II` is null for a callee whose name is no identifier.
  unfoldable pub visit_call_alloc : ℕ → Bool → Result Bool
  unfolding is_allocator
  visit_call_alloc ce is_alloc =
      if ast.direct_callee ce == 0
      then ok is_alloc
      else elim (ast.identifier (ast.direct_callee ce)) [
        | none ↦ err null_deref
        | some name ↦ ok (if is_allocator name then true else is_alloc)
      ]

  unfoldable pub visit_alloc : ℕ → Bool → Result Bool
  unfolding visit_call_alloc
  visit_alloc s is_alloc =
      if is_new_expr s
      then ok true
      else (if same_kind (ast.kind s) call_expr then visit_call_alloc s is_alloc else ok is_alloc)

  unfoldable pub is_alloc_used : ℕ → Result Bool
  unfolding visit_alloc fold_result
  is_alloc_used s = fold_result visit_alloc (traverse s) false

pub record PtrWalker (Fnc Var : Type 0) : Type 0 where
  pub ptr_fncs : Fnc
  pub ptr_vars : Var
  pub member_exprs : PtrSet

-- PtrWalker::PtrWalker
abbrev pub new_ptr_walker : {Fnc Var : Type 0} → Fnc → Var → PtrWalker Fnc Var
new_ptr_walker fncs vars = record { ptr_fncs = fncs; ptr_vars = vars; member_exprs = [] }

module _ {Fnc Var : Type 0} (identify : Identify Fnc Var) where
  -- VisitFunctionDecl, VisitFieldDecl and VisitMemberExpr
  unfoldable pub visit_ptr : Visit → PtrWalker Fnc Var → PtrWalker Fnc Var
  unfolding add
  visit_ptr (function_decl fd) w = record w {
    ptr_fncs = identify.insert_fnc_if_known fd w.ptr_fncs;
  }
  visit_ptr (field_decl fd) w = record w { ptr_vars = identify.insert_var_if_known fd w.ptr_vars }
  visit_ptr (member_visit me) w = record w { member_exprs = add me w.member_exprs }
  visit_ptr (record_decl rd) w = w
  visit_ptr (assignment_visit s) w = w

  -- One member expression of fillAnalysisFunctions.
  unfoldable pub analyze_member :
      Ast → Decls → ℕ → ℕ → PtrWalker Fnc Var → Result (PtrWalker Fnc Var)
  unfolding get_func_decl_around
  analyze_member ast decls fuel me w =
      if identify.is_used_var w.ptr_vars (ast.member_decl me)
      then (do
        fd ← get_func_decl_around decls fuel (stmt me)
        ok (if fd == 0 then w else record w { ptr_fncs = identify.insert_analyze fd w.ptr_fncs }))
      else ok w

  unfoldable pub fill_analysis_functions :
      Ast → Decls → ℕ → PtrWalker Fnc Var → Result (PtrWalker Fnc Var)
  unfolding analyze_member fold_result
  fill_analysis_functions ast decls fuel w =
      fold_result (analyze_member ast decls fuel) w.member_exprs w

  unfoldable pub visit_all : List Visit → PtrWalker Fnc Var → PtrWalker Fnc Var
  unfolding visit_ptr
  visit_all [] w = w
  visit_all (v ∷ vs) w = visit_all vs (visit_ptr v w)

  -- checkASTDecl: the traversal, and finalize
  unfoldable pub check_ast_decl :
      Ast → Decls → ℕ → List Visit → Fnc → Var → Result (PtrWalker Fnc Var)
  unfolding visit_all fill_analysis_functions
  check_ast_decl ast decls fuel visits fncs vars =
      fill_analysis_functions ast decls fuel (visit_all visits (new_ptr_walker fncs vars))
