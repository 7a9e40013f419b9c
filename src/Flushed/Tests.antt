-- ===== src/Flushed/Tests.antt =====
-- The flush checker on a function that assigns a pointer, flushes it and writes it into a field.
use nvmordering.Base.{
  ℕ, true, false, ◌==◌, if◌then◌else◌, ◌≡◌, refl, ok, some, List, [], ◌∷◌, map, member, fold_result,
  lookup, insert, get, touch, has_key, add, remove,
}
use nvmordering.Clang.{
  Ast, Visit, function_decl, field_decl, assignment_visit, binary_operator, call_expr, member_expr,
  implicit_cast_expr, decl_ref_expr, other_stmt, dyn_cast_or_null,
}
use nvmordering.Clang.Parse.{
  get_field_decl_from_write, get_field_decl_from_write_me, get_nd_of_rhs, get_nd_of_assigned,
  get_ptr_from_flush, get_nth_child, nth_or_null,
}
use nvmordering.Globals.Functions.{
  has_annotation, in_functions, insert_annotated, insert_if_annotated, insert_function_direct,
  erase_function,
}
use nvmordering.Globals.Functions.Named.{check_name, insert_named, is_str}
use nvmordering.Globals.Functions.Direct.{
  erase_all, insert_analyze_function, insert_function, is_flush_fence_function,
  is_flush_opt_function, is_pfence_function, is_skip_function, is_vfence_function,
  new_direct_functions, remove_skip_from_analyze,
}
use nvmordering.Globals.Variables.{insert_annotation, insert_annot_variable, is_annot_variable}
use nvmordering.Globals.Units.{
  init_active_unit, insert_function_to_active_unit, insert_variable_to_active_unit, update_active,
}
use nvmordering.Globals.Track.{track_call, track_children, track_function, track_stmt, is_tracked}
use nvmordering.Flushed.Variables.{
  insert_field_variable, insert_tracked_variable, is_field_variable, is_tracked_variable,
}
use nvmordering.Flushed.StmtParser.{
  Globals, TransitionInfo, write_func, flush_fence_func, parse_stmt, parse_write, parse_flush,
  parse_call, get_field_fti, get_tracked_variable_fti,
}
use nvmordering.Flushed.Reporter.{Reporter, get_last_location}
use nvmordering.Flushed.Transitions.{handle_stmt, handle_transition}
use nvmordering.Flushed.Transitions.Step.{
  IsFlushStep, bug_of, handle_transition-IsFlushStep, reported,
}
use nvmordering.Flushed.Transitions.Rules.{run_stmts, unfenced-reported, persisted-not_reported}
use nvmordering.Flushed.GlobalParser.{
  parse, visit, fill_structures, fill_track_map, track_unit, visit_stmt,
  auto_find_functions_variables, find_functions_variables, find_function_variable,
}

-- 21: `p = ...`, 22: `clflush(p)`, 23: `x->field = p`; `p` is 5 and the field is 1.
abbrev sample : Ast
sample = record {
  kind = λ s.
      if s == 21
      then binary_operator
      else (if s == 23
          then binary_operator
          else (if s == 22
              then call_expr
              else (if s == 31
                  then decl_ref_expr
                  else (if s == 34
                      then decl_ref_expr
                      else (if s == 32
                          then implicit_cast_expr
                          else (if s == 33
                              then implicit_cast_expr
                              else (if s == 36
                                  then implicit_cast_expr
                                  else (if s == 35 then member_expr else other_stmt))))))));
  children = λ s.
      if s == 20
      then 21 ∷ 22 ∷ 23 ∷ []
      else (if s == 32
          then 33 ∷ []
          else (if s == 33
              then 34 ∷ []
              else (if s == 36 then 34 ∷ [] else (if s == 23 then 35 ∷ 36 ∷ [] else []))));
  is_assignment_op = λ s. true;
  lhs = λ s. if s == 21 then 31 else 35;
  rhs = λ s. if s == 23 then 36 else 0;
  sub_expr = λ s. 0;
  arg = λ s i. 32;
  direct_callee = λ s. 11;
  member_decl = λ s. 1;
  found_decl = λ s. 5;
  has_body = λ f. f == 10;
  body = λ f. 20;
  identifier = λ f. if f == 11 then some "clflush" else some "f";
  annotations = λ d. if d == 1 then "FlushedPtr" ∷ [] else [];
  qualified_name = λ d. "field";
  enclosing_function = λ s. 10;
  contains = λ s t. true;
  rsplit = λ s. (s, "");
}

abbrev sample_visits : List Visit
sample_visits =
    field_decl 1
    ∷ function_decl 11
    ∷ function_decl 10
    ∷ assignment_visit 21
    ∷ assignment_visit 23
    ∷ []

abbrev sample_globals : Globals
sample_globals = record {
  variables = record {
    field_variables = record { variable_set = 1 ∷ []; special_annot = "FlushedPtr" };
    tracked_variables = 5 ∷ [];
  };
  functions = record {
    analyzed_fnc = record { annotation = "NvmCode"; functions = 10 ∷ [] };
    skip_fnc = record { annotation = "SkipCode"; functions = [] };
    pfence_fnc = [];
    vfence_fnc = [];
    flush_fnc = [];
    flush_fence_fnc = 11 ∷ [];
  };
  function_unit_map = (10, record { unit_variables = 5 ∷ []; unit_functions = [] }) ∷ [];
  active_unit = some 10;
}

sample_parses : parse sample 6 sample_visits ≡ ok sample_globals
unfolding parse visit fill_structures fill_track_map track_unit visit_stmt
    auto_find_functions_variables find_functions_variables find_function_variable fold_result lookup
    insert get touch has_key add remove member dyn_cast_or_null get_field_decl_from_write
    get_field_decl_from_write_me get_nd_of_rhs get_nth_child nth_or_null has_annotation in_functions
    insert_annotated insert_if_annotated insert_function_direct erase_function check_name
    insert_named is_str erase_all insert_analyze_function insert_function is_flush_fence_function
    is_flush_opt_function is_pfence_function is_skip_function is_vfence_function
    new_direct_functions remove_skip_from_analyze insert_annotation insert_annot_variable
    is_annot_variable init_active_unit insert_function_to_active_unit insert_variable_to_active_unit
    update_active track_call track_children track_function track_stmt is_tracked
    insert_field_variable insert_tracked_variable is_field_variable is_tracked_variable
sample_parses = refl

abbrev no_reports : Reporter
no_reports = record { bug_data_list = []; last_location_map = []; bugged_vars = [] }

abbrev event : ℕ → TransitionInfo
event = parse_stmt sample sample_globals

sample_transitions :
    map event (21 ∷ 22 ∷ 23 ∷ [])
    ≡ get_tracked_variable_fti write_func 5
      ∷ get_tracked_variable_fti flush_fence_func 5
      ∷ get_field_fti write_func 1 5
      ∷ []
unfolding parse_stmt parse_write parse_flush parse_call get_field_decl_from_write
    get_field_decl_from_write_me get_nd_of_rhs get_nd_of_assigned get_ptr_from_flush get_nth_child
    nth_or_null dyn_cast_or_null in_functions is_flush_fence_function is_flush_opt_function
    is_pfence_function is_field_variable is_tracked_variable is_annot_variable member
sample_transitions = refl

assign_event : event 21 ≡ get_tracked_variable_fti write_func 5
assign_event = cc sample_transitions

persist_event : event 22 ≡ get_tracked_variable_fti flush_fence_func 5
persist_event = cc sample_transitions

field_event : event 23 ≡ get_field_fti write_func 1 5
field_event = cc sample_transitions

not_flagged : member 5 no_reports.bugged_vars ≡ false
unfolding member
not_flagged = refl

unfenced-reported_example :
    let mid = run_stmts sample sample_globals (21 ∷ []) [] no_reports in
    reported
      (bug_of 23 (get_last_location 5 mid.1) 5)
      (handle_stmt sample sample_globals 23 mid.0 mid.1).2.bug_data_list
    ≡ true
unfenced-reported_example =
    unfenced-reported sample sample_globals 5 1 21 [] 23 [] no_reports not_flagged assign_event tt
      field_event

persisted-not_reported_example :
    let mid = run_stmts sample sample_globals (22 ∷ 23 ∷ []) [] no_reports in
    reported (bug_of 23 22 5) (handle_stmt sample sample_globals 23 mid.0 mid.1).2.bug_data_list
    ≡ reported (bug_of 23 22 5) mid.1.bug_data_list
persisted-not_reported_example =
    persisted-not_reported sample sample_globals 5 1 22 (23 ∷ []) 23 [] no_reports not_flagged
      persist_event (rw field_event refl, tt) field_event (bug_of 23 22 5)

handle_transition-IsFlushStep_example :
    IsFlushStep 23
      (get_field_fti write_func 1 5)
      []
      no_reports
      (handle_transition 23 (get_field_fti write_func 1 5) [] no_reports)
handle_transition-IsFlushStep_example =
    handle_transition-IsFlushStep 23 (get_field_fti write_func 1 5) [] no_reports
