-- ===== src/Flushed/GlobalParser.antt =====
-- lib/flushedchecker/preprocess/FlushedGlobalParser.h: the collection of the fields, of the variables
-- that are written into them, of the functions to analyse and of the units. The traversal is
-- clang's: its visits, in their order, are the input.
use nvmordering.Base.{
  ℕ, ◌&&◌, not, ◌==◌, if◌then◌else◌, Result, ok, ◌>>=◌, fold_result, none, List, [], ◌∷◌, PtrSet,
  add,
}
use nvmordering.Clang.{
  Ast, Visit, function_decl, field_decl, assignment_visit, same_kind, binary_operator,
}
use nvmordering.Clang.Parse.{get_field_decl_from_write, get_field_decl_from_write_me, get_nd_of_rhs}
use nvmordering.Globals.Functions.Direct.{
  insert_function, insert_analyze_function, remove_skip_from_analyze, is_skip_function,
  new_direct_functions,
}
use nvmordering.Globals.Units.{init_active_unit, insert_variable_to_active_unit}
use nvmordering.Globals.Track.{track_function}
use nvmordering.Flushed.Variables.{
  insert_field_variable, insert_tracked_variable, is_field_variable, is_tracked_variable,
  new_flushed_variables,
}
use nvmordering.Flushed.StmtParser.{Globals}

pub record FlushedGlobalParser : Type 0 where
  pub globals : Globals
  pub binary_operators : PtrSet

-- one round of the loop in `autoFindFunctionsVariables`
unfoldable pub find_function_variable : Ast → ℕ → Globals → Globals
find_function_variable ast bo g =
    let field_me = get_field_decl_from_write_me ast bo in
    let field = ast.member_decl field_me in
    let rhs = get_nd_of_rhs ast bo in
    let fd = ast.enclosing_function field_me in
    let g' =
      if rhs == 0 then g else record g { variables = insert_tracked_variable rhs g.variables } in
    if field_me == 0
    then g
    else (if not (field == 0) && not (is_field_variable g.variables field)
        then g
        else (if fd == 0
            then g'
            else record g' { functions = insert_analyze_function fd g'.functions }))

unfoldable pub find_functions_variables : Ast → List ℕ → Globals → Globals
find_functions_variables ast [] g = g
find_functions_variables ast (bo ∷ bos) g =
    find_functions_variables ast bos (find_function_variable ast bo g)

unfoldable pub auto_find_functions_variables : Ast → List ℕ → Globals → Globals
auto_find_functions_variables ast bos g =
    let g' = find_functions_variables ast bos g in
    record g' { functions = remove_skip_from_analyze g'.functions }

-- What `trackStmt` does at a statement that is no call; each early return walks the children first.
unfoldable pub visit_stmt : Ast → ℕ → Globals → Result Globals
visit_stmt ast s g =
    let field = get_field_decl_from_write ast s in
    let rhs = get_nd_of_rhs ast s in
    if same_kind (ast.kind s) binary_operator
      && (not (field == 0)
          && (is_field_variable g.variables field
              && (not (rhs == 0) && is_tracked_variable g.variables rhs)))
    then insert_variable_to_active_unit rhs g
    else ok g

unfoldable pub track_unit : Ast → ℕ → ℕ → Globals → Result Globals
track_unit ast fuel fd g =
    track_function ast (is_skip_function g.functions) (visit_stmt ast) fuel fd
      (init_active_unit fd g)

unfoldable pub fill_track_map : Ast → ℕ → Globals → Result Globals
fill_track_map ast fuel g = fold_result (track_unit ast fuel) g.functions.analyzed_fnc.functions g

unfoldable pub fill_structures : Ast → ℕ → FlushedGlobalParser → Result Globals
fill_structures ast fuel p =
    fill_track_map ast fuel (auto_find_functions_variables ast p.binary_operators p.globals)

-- The four Visit functions; a visit of a member expression is not overridden here.
unfoldable pub visit : Ast → Visit → FlushedGlobalParser → Result FlushedGlobalParser
visit ast (function_decl fd) p = ok (record p {
  globals = record (p.globals) { functions = insert_function ast fd p.globals.functions };
})
visit ast (field_decl fd) p = ok (record p {
  globals = record (p.globals) { variables = insert_field_variable ast fd p.globals.variables };
})
visit ast (assignment_visit bo) p = ok (
    if ast.is_assignment_op bo
    then record p { binary_operators = add bo p.binary_operators }
    else p)
visit ast _ p = ok p

abbrev pub no_globals : Globals
no_globals = record {
  variables = new_flushed_variables;
  functions = new_direct_functions;
  function_unit_map = [];
  active_unit = none;
}

-- The constructor, on new globals: the traversal and then `fillStructures`.
unfoldable pub parse : Ast → ℕ → List Visit → Result Globals
parse ast fuel visits = do
  p ← fold_result (visit ast) visits (record { globals = no_globals; binary_operators = [] })
  fill_structures ast fuel p
