-- ===== src/Pair/GlobalParser.antt =====
-- lib/pairchecker/preprocess/PairGlobalParser.h: the collection of the pairs, of the functions to
-- analyse and of the units. The traversal of the translation unit is clang's: its visits, in their
-- order, are the input.
pub mod Collected
pub mod Units
use Prim.Native.String.{String}
use nvmordering.Base.{
  ℕ, Bool, true, false, not, ◌||◌, ◌==◌, if◌then◌else◌, Result, ok, err, fatal_error, ◌>>=◌, ◌>>◌,
  fold_result, Option, none, some, List, [], ◌∷◌, ◌++◌, PtrSet, add, lookup_str, insert_str,
}
use nvmordering.Clang.{
  Ast, Visit, function_decl, field_decl, record_decl, member_visit, assignment_visit, same_kind,
  member_expr,
}
use nvmordering.AutoCl.{Layout, Records}
use nvmordering.AutoCl
use nvmordering.Globals.Functions.Direct.{
  insert_function, insert_analyze_function, remove_skip_from_analyze, is_skip_function,
  new_direct_functions,
}
use nvmordering.Globals.Units.{init_active_unit, insert_variable_to_active_unit}
use nvmordering.Globals.Track.{track_function}
use nvmordering.Pair.Variables.{
  PairVariables, new_pair_info, insert_pair, is_used_var, no_variables,
}
use nvmordering.Pair.StmtParser.{Globals}

pub data ClType : Type 0 where
  scl dcl unk : ClType

pub record PairStrInfo : Type 0 where
  pub data_name : String
  pub check_name : String
  pub cl_type : ClType

-- The members of the class; `auto_cl` is what AutoCl has computed.
pub record PairGlobalParser : Type 0 where
  pub globals : Globals
  pub psi_list : List PairStrInfo
  pub str_to_nd : List (String × ℕ)
  pub auto_cl : Records
  pub member_exprs : PtrSet

unfoldable pub get_cl_type : Ast → String → ClType
get_cl_type ast pair_str =
    if ast.contains pair_str "scl" then scl else (if ast.contains pair_str "dcl" then dcl else unk)

-- usesScl, with what AutoCl has computed before and after
unfoldable pub uses_scl : Layout → ℕ → ℕ → ClType → Records → Result (Bool × Records)
uses_scl l data_nd check_nd scl records = ok (true, records)
uses_scl l data_nd check_nd dcl records = ok (false, records)
uses_scl l data_nd check_nd unk records = AutoCl.is_scl l data_nd check_nd records

-- `checkNameRef.empty()`
unfoldable pub is_empty : String → Bool
is_empty String.[] = true
is_empty (String.◌∷◌ c s) = false

-- The loop of `addAnnotated` over the annotations of a declaration.
unfoldable pub add_pairs : Ast → String → List String → List PairStrInfo → Result (List PairStrInfo)
add_pairs ast data_name [] psi = ok psi
add_pairs ast data_name (annotation ∷ rest) psi =
    if ast.contains annotation "pair"
    then (let (pair_str, check_name) = ast.rsplit annotation in
        if is_empty check_name
        then err fatal_error
        else add_pairs ast data_name rest (
            psi
            ++ record {
              data_name = data_name;
              check_name = check_name;
              cl_type = get_cl_type ast pair_str;
            }
              ∷ []))
    else add_pairs ast data_name rest psi

unfoldable pub add_annotated : Ast → ℕ → PairGlobalParser → Result PairGlobalParser
add_annotated ast nd p = do
  let data_name = ast.qualified_name nd
  psi ← add_pairs ast data_name (ast.annotations nd) p.psi_list
  ok (record p { psi_list = psi; str_to_nd = insert_str data_name nd p.str_to_nd })

unfoldable pub get_nd_from_str : String → List (String × ℕ) → Result ℕ
get_nd_from_str str m = elim (lookup_str str m) [
  | none ↦ err fatal_error
  | some nd ↦ if nd == 0 then err fatal_error else ok nd
]

-- one round of the loop in `fillMainVars`
unfoldable pub fill_pair : Layout → PairStrInfo → PairGlobalParser → Result PairGlobalParser
fill_pair l psi p = do
  data_nd ← get_nd_from_str psi.data_name p.str_to_nd
  check_nd ← get_nd_from_str psi.check_name p.str_to_nd
  (is_scl, auto_cl) ← uses_scl l data_nd check_nd psi.cl_type p.auto_cl
  pi ← new_pair_info data_nd check_nd is_scl
  ok (record p {
    auto_cl = auto_cl;
    globals = record (p.globals) { variables = insert_pair pi p.globals.variables };
  })

unfoldable pub fill_main_vars : Layout → PairGlobalParser → Result PairGlobalParser
fill_main_vars l p = fold_result (fill_pair l) p.psi_list p

-- one round of the loop of `autoFindFunctions` over the member expressions
unfoldable pub find_function : Ast → ℕ → Globals → Globals
find_function ast me g =
    if not (is_used_var g.variables (ast.member_decl me)) || ast.enclosing_function me == 0
    then g
    else record g { functions = insert_analyze_function (ast.enclosing_function me) g.functions }

unfoldable pub find_functions : Ast → List ℕ → Globals → Globals
find_functions ast [] g = g
find_functions ast (me ∷ mes) g = find_functions ast mes (find_function ast me g)

unfoldable pub auto_find_functions : Ast → PairGlobalParser → PairGlobalParser
auto_find_functions ast p =
    let g = find_functions ast p.member_exprs p.globals in
    record p { globals = record g { functions = remove_skip_from_analyze g.functions } }

-- What `trackStmt` does at a statement that is no call.
unfoldable pub visit_stmt : Ast → ℕ → Globals → Result Globals
visit_stmt ast s g =
    if same_kind (ast.kind s) member_expr
    then (if is_used_var g.variables (ast.member_decl s)
        then insert_variable_to_active_unit (ast.member_decl s) g
        else ok g)
    else ok g

-- `isSkipFunction` does not change while the units are filled
unfoldable pub track_unit : Ast → ℕ → ℕ → Globals → Result Globals
track_unit ast fuel fd g =
    track_function ast (is_skip_function g.functions) (visit_stmt ast) fuel fd
      (init_active_unit fd g)

unfoldable pub fill_track_map : Ast → ℕ → PairGlobalParser → Result PairGlobalParser
fill_track_map ast fuel p = do
  g ← fold_result (track_unit ast fuel) p.globals.functions.analyzed_fnc.functions p.globals
  ok (record p { globals = g })

unfoldable pub fill_structures : Ast → Layout → ℕ → PairGlobalParser → Result PairGlobalParser
fill_structures ast l fuel p = do
  p' ← fill_main_vars l p
  fill_track_map ast fuel (auto_find_functions ast p')

-- The four Visit functions; a visit of an assignment is not overridden here.
unfoldable pub visit : Ast → Visit → PairGlobalParser → Result PairGlobalParser
visit ast (function_decl fd) p = ok (record p {
  globals = record (p.globals) { functions = insert_function ast fd p.globals.functions };
})
visit ast (field_decl fd) p = add_annotated ast fd p
visit ast (record_decl rd) p = add_annotated ast rd p
visit ast (member_visit me) p = ok (record p { member_exprs = add me p.member_exprs })
visit ast (assignment_visit bo) p = ok p

abbrev pub no_globals : Globals
no_globals = record {
  variables = no_variables;
  functions = new_direct_functions;
  function_unit_map = [];
  active_unit = none;
}

-- The constructor, on new globals: the traversal and then `fillStructures`.
unfoldable pub parse : Ast → Layout → ℕ → List Visit → Result PairGlobalParser
parse ast l fuel visits = do
  p ← fold_result (visit ast) visits (record {
    globals = no_globals;
    psi_list = [];
    str_to_nd = [];
    auto_cl = [];
    member_exprs = [];
  })
  fill_structures ast l fuel p
