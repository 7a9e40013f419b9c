-- ===== src/Log/GlobalParser.antt =====
-- lib/logchecker/preprocess/LogGlobalParser.h: the collection of the fields, of the functions to
-- analyse and of the units. The traversal is clang's: its visits, in their order, are the input.
use nvmordering.Base.{ℕ, if◌then◌else◌, Result, ok, ◌>>=◌, fold_result, none, List, []}
use nvmordering.Clang.{Ast, Visit, function_decl, field_decl, record_decl, same_kind, member_expr}
use nvmordering.Globals.Units.{init_active_unit, insert_variable_to_active_unit}
use nvmordering.Globals.Track.{track_function}
use nvmordering.Log.Functions.{
  insert_function, insert_variable, is_used_var, is_skip_function, new_log_functions,
  new_log_variables, set_tx_mode, get_tx_function,
}
use nvmordering.Log.StmtParser.{Globals}

-- What `trackStmt` does at a statement that is no call.
unfoldable pub visit_stmt : Ast → ℕ → Globals → Result Globals
visit_stmt ast s g =
    if same_kind (ast.kind s) member_expr
    then (if is_used_var g.variables (ast.member_decl s)
        then insert_variable_to_active_unit (ast.member_decl s) g
        else ok g)
    else ok g

-- one round of the loop in `fillTrackMap`
unfoldable pub track_unit : Ast → ℕ → ℕ → Globals → Result Globals
track_unit ast fuel fd g = do
  g' ←
      track_function ast (is_skip_function g.functions) (visit_stmt ast) fuel fd
        (init_active_unit fd g)
  tx ← get_tx_function g'.functions
  insert_variable_to_active_unit tx g'

unfoldable pub fill_track_map : Ast → ℕ → Globals → Result Globals
fill_track_map ast fuel g = fold_result (track_unit ast fuel) g.functions.analyzed_fnc.functions g

unfoldable pub fill_structures : Ast → ℕ → Globals → Result Globals
fill_structures ast fuel g = do
  functions ← set_tx_mode g.functions
  fill_track_map ast fuel (record g { functions = functions })

-- The three Visit functions; the other visits are not overridden here.
unfoldable pub visit : Ast → Visit → Globals → Result Globals
visit ast (function_decl fd) g = ok (record g { functions = insert_function ast fd g.functions })
visit ast (field_decl fd) g = ok (record g { variables = insert_variable ast fd g.variables })
visit ast (record_decl rd) g = ok (record g { variables = insert_variable ast rd g.variables })
visit ast _ g = ok g

abbrev pub no_globals : Globals
no_globals = record {
  variables = new_log_variables;
  functions = new_log_functions;
  function_unit_map = [];
  active_unit = none;
}

-- The constructor, on new globals: the traversal and then `fillStructures`.
unfoldable pub parse : Ast → ℕ → List Visit → Result Globals
parse ast fuel visits = do g ← fold_result (visit ast) visits no_globals; fill_structures ast fuel g
