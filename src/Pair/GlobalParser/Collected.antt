-- ===== src/Pair/GlobalParser/Collected.antt =====
-- What the parser of PairGlobalParser.h leaves behind when it has not stopped the compiler.
use nvmordering.Base.{
  ℕ, Bool, ◌≡◌, ◌≢◌, refl, ◌∙◌, sym, ok, >>=-eq-ok, ok-injective, fold_result-keeps, fold_result,
  List, [], ◌∷◌, Bool-cases, inl, inr, arith, subst, member, add,
}
use nvmordering.Clang.{
  Ast, Visit, function_decl, field_decl, record_decl, member_visit, assignment_visit, same_kind,
  member_expr,
}
use nvmordering.AutoCl.{Layout}
use nvmordering.Globals.Units.{
  UnitInfo, update_active, insert_function_to_active_unit, insert_variable_to_active_unit,
  init_active_unit,
}
use nvmordering.Globals.Track.Keeps.{track_function-keeps}
use nvmordering.Globals.Functions.Direct.{is_skip_function}
use nvmordering.Pair.Variables.{PairInfo, new_pair_info, is_used_var}
use nvmordering.Pair.Variables.Links.{IsLinked, insert_pair-IsLinked, no_variables-IsLinked}
use nvmordering.Pair.StmtParser.{Globals}
use nvmordering.Pair.GlobalParser.{
  PairGlobalParser, PairStrInfo, fill_pair, fill_main_vars, find_function, find_functions,
  auto_find_functions, visit_stmt, track_unit, fill_track_map, fill_structures, visit, parse,
  get_nd_from_str, uses_scl, add_annotated,
}

new_pair_info_lem :
    (d c : ℕ) (b : Bool) (info : PairInfo)
    → new_pair_info d c b ≡ ok info
    → (info.data_nd ≢ 0) × (info.check_nd ≢ 0)
unfolding new_pair_info
new_pair_info_lem d c b info e = ground arith

fill_pair-IsLinked :
    (l : Layout) (psi : PairStrInfo) (p p' : PairGlobalParser)
    → fill_pair l psi p ≡ ok p'
    → IsLinked p.globals.variables
    → IsLinked p'.globals.variables
unfolding fill_pair
fill_pair-IsLinked l psi p p' e h =
    let (d, _, e1) = >>=-eq-ok (get_nd_from_str psi.data_name p.str_to_nd) _ e in
    let (c, _, e2) = >>=-eq-ok (get_nd_from_str psi.check_name p.str_to_nd) _ e1 in
    let (used, _, e3) = >>=-eq-ok (uses_scl l d c psi.cl_type p.auto_cl) _ e2 in
    let (info, made, e4) = >>=-eq-ok (new_pair_info d c used.0) _ e3 in
    let (nd, nc) = new_pair_info_lem d c used.0 info made in
    subst (λ (q : PairGlobalParser). IsLinked q.globals.variables) (ok-injective e4)
      (insert_pair-IsLinked info p.globals.variables nd nc h)

-- The visits and `autoFindFunctions` leave the variables alone.
visit-variables :
    (ast : Ast) (v : Visit) (p p' : PairGlobalParser)
    → visit ast v p ≡ ok p'
    → p'.globals.variables ≡ p.globals.variables
unfolding visit add_annotated
visit-variables ast (function_decl fd) p p' e = ground arith
visit-variables ast (field_decl fd) p p' e = ground arith
visit-variables ast (record_decl fd) p p' e = ground arith
visit-variables ast (member_visit me) p p' e = ground arith
visit-variables ast (assignment_visit me) p p' e = ground arith

find_function-variables :
    (ast : Ast) (me : ℕ) (g : Globals) → (find_function ast me g).variables ≡ g.variables
unfolding find_function
find_function-variables ast me g = ground arith

find_functions-variables :
    (ast : Ast) (mes : List ℕ) (g : Globals) → (find_functions ast mes g).variables ≡ g.variables
unfolding find_functions
find_functions-variables ast [] g = refl
find_functions-variables ast (me ∷ mes) g =
    find_functions-variables ast mes (find_function ast me g) ∙ find_function-variables ast me g

-- The tables stay linked while the units are filled.
abbrev LinkedGlobals : Globals → Type 0
LinkedGlobals g = IsLinked g.variables

update_active-variables :
    (f : UnitInfo → UnitInfo) (g g' : Globals)
    → update_active f g ≡ ok g'
    → g'.variables ≡ g.variables
unfolding update_active
update_active-variables f g g' e = ground arith

insert_function-keeps :
    (fd : ℕ) (g g' : Globals)
    → insert_function_to_active_unit fd g ≡ ok g'
    → LinkedGlobals g
    → LinkedGlobals g'
unfolding insert_function_to_active_unit
insert_function-keeps fd g g' e h =
    let f = λ (u : UnitInfo). record u { unit_functions = add fd u.unit_functions } in
    subst IsLinked (sym (update_active-variables f g g' e)) h

insert_variable-keeps :
    (var : ℕ) (g g' : Globals)
    → insert_variable_to_active_unit var g ≡ ok g'
    → LinkedGlobals g
    → LinkedGlobals g'
unfolding insert_variable_to_active_unit
insert_variable-keeps var g g' e h =
    let f = λ (u : UnitInfo). record u { unit_variables = add var u.unit_variables } in
    subst IsLinked (sym (update_active-variables f g g' e)) h

visit_stmt-keeps :
    (ast : Ast) (s : ℕ) (g g' : Globals)
    → visit_stmt ast s g ≡ ok g'
    → LinkedGlobals g
    → LinkedGlobals g'
unfolding visit_stmt
visit_stmt-keeps ast s g g' e h = elim (Bool-cases (same_kind (ast.kind s) member_expr)) [
  | inr other ↦ subst LinkedGlobals (ok-injective (rw other at e)) h
  | inl member ↦ elim (Bool-cases (is_used_var g.variables (ast.member_decl s))) [
    | inr unused ↦ subst LinkedGlobals (ok-injective (rw (member, unused) at e)) h
    | inl used ↦ insert_variable-keeps (ast.member_decl s) g g' (rw (member, used) at e) h
  ]
]

track_unit-keeps :
    (ast : Ast) (fuel fd : ℕ) (g g' : Globals)
    → track_unit ast fuel fd g ≡ ok g'
    → LinkedGlobals g
    → LinkedGlobals g'
unfolding track_unit init_active_unit
track_unit-keeps ast fuel fd g g' e h =
    track_function-keeps LinkedGlobals ast (is_skip_function g.functions) (visit_stmt ast)
      insert_function-keeps (visit_stmt-keeps ast) fuel fd (init_active_unit fd g) g' e h

-- When the parser ends, its tables are linked: each used variable has a set of pairs, each pair of
-- the set has the variable at one end, and no end is null.
pub parse-IsLinked :
    (ast : Ast) (l : Layout) (fuel : ℕ) (visits : List Visit) (p : PairGlobalParser)
    → parse ast l fuel visits ≡ ok p
    → IsLinked p.globals.variables
unfolding parse fill_structures fill_main_vars auto_find_functions fill_track_map
parse-IsLinked ast l fuel visits p e =
    let linked = λ (q : PairGlobalParser). IsLinked q.globals.variables in
    let (p1, v, e1) = >>=-eq-ok (fold_result (visit ast) visits _) _ e in
    let start =
      fold_result-keeps linked (visit ast)
        (λ x q q' f h. subst IsLinked (sym (visit-variables ast x q q' f)) h) visits _ p1 v
        no_variables-IsLinked in
    let (p2, filled, e2) = >>=-eq-ok (fold_result (fill_pair l) p1.psi_list p1) _ e1 in
    let pairs =
      fold_result-keeps linked (fill_pair l) (fill_pair-IsLinked l) p1.psi_list p1 p2 filled
        start in
    let found = find_functions ast p2.member_exprs p2.globals in
    let (g, tracked, e3) = >>=-eq-ok (fold_result (track_unit ast fuel) _ _) _ e2 in
    let units =
      fold_result-keeps LinkedGlobals (track_unit ast fuel) (track_unit-keeps ast fuel) _ _ g
        tracked
        (subst IsLinked (sym (find_functions-variables ast p2.member_exprs p2.globals)) pairs) in
    subst linked (ok-injective e3) units
