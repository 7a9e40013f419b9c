-- ===== src/Walk/NamedDecls.antt =====
-- include/parsers/NDWalker.h and include/parser_util/NamedDeclParser.h, which are the same walk: the
-- members that a function names, by itself or in the functions that it calls. `fuel` bounds the depth
-- of the walk.
use nvmordering.Base.{
  ℕ, zero, suc, not, ◌&&◌, ◌==◌, if◌then◌else◌, [], PtrSet, member, add, Result, ok, err,
  null_deref, out_of_fuel, ◌>>=◌, fold_result,
}
use nvmordering.Clang.{Ast, call_expr, member_expr, same_kind}
use nvmordering.Walk.Tree.{visit_child}

-- vars and seenFunction, or varSet and funcSet
pub record NdWalker : Type 0 where
  pub vars : PtrSet
  pub seen_function : PtrSet

abbrev pub new_walker : NdWalker
new_walker = record { vars = []; seen_function = [] }

module _ (ast : Ast) where
  -- VisitStmt(FD) and its copy in the branch of a call: the body, if the function has one and was
  -- not seen.
  unfoldable pub visit_function : (ℕ → NdWalker → Result NdWalker) → ℕ → NdWalker → Result NdWalker
  unfolding member
  visit_function recur fd w =
      if ast.has_body fd && not (member fd w.seen_function) then recur (ast.body fd) w else ok w

  -- The branch of a call; the callee of an indirect call is null.
  unfoldable pub visit_call : (ℕ → NdWalker → Result NdWalker) → ℕ → NdWalker → Result NdWalker
  unfolding visit_function add
  visit_call recur ce w =
      let fd = ast.direct_callee ce in
      if fd == 0 then err null_deref else (do
        w' ← visit_function recur fd w
        ok (record w' { seen_function = add fd w'.seen_function }))

  -- VisitStmt(S), before its children
  unfoldable pub visit_here : (ℕ → NdWalker → Result NdWalker) → ℕ → NdWalker → Result NdWalker
  unfolding visit_call add
  visit_here recur s w =
      if same_kind (ast.kind s) call_expr
      then visit_call recur s w
      else ok (
          if same_kind (ast.kind s) member_expr
          then record w { vars = add (ast.member_decl s) w.vars }
          else w)

  unfoldable pub visit_stmt : ℕ → ℕ → NdWalker → Result NdWalker
  unfolding visit_here visit_child fold_result
  visit_stmt zero s w = err out_of_fuel
  visit_stmt (suc fuel) s w = do
    w' ← visit_here (visit_stmt fuel) s w
    fold_result (visit_child (visit_stmt fuel)) (ast.children s) w'

  -- getNDs, and the constructor NamedDeclParser(FD)
  unfoldable pub get_nds : ℕ → ℕ → Result NdWalker
  unfolding visit_function visit_stmt
  get_nds fuel fd = visit_function (visit_stmt fuel) fd new_walker
