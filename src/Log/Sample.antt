-- ===== src/Log/Sample.antt =====
-- A program for the tests of the log checker.
use nvmordering.Base.{
  ℕ, true, false, ◌==◌, if◌then◌else◌, ◌≡◌, refl, ok, some, List, [], ◌∷◌, member, fold_result,
  lookup, insert, get, touch, has_key, add,
}
use nvmordering.Clang.{
  Ast, Visit, function_decl, field_decl, binary_operator, call_expr, member_expr,
  implicit_cast_expr, unary_operator, other_stmt, dyn_cast_or_null,
}
use nvmordering.Globals.Functions.{
  has_annotation, in_functions, insert_annotated, insert_if_annotated,
}
use nvmordering.Globals.Functions.Named.{check_name, insert_named, is_str}
use nvmordering.Globals.Variables.{insert_annotation, insert_annot_variable, is_annot_variable}
use nvmordering.Globals.Units.{
  init_active_unit, insert_function_to_active_unit, insert_variable_to_active_unit, update_active,
}
use nvmordering.Globals.Track.{track_call, track_children, track_function, track_stmt, is_tracked}
use nvmordering.Log.Lattice.{tx_value_type, log_value_type, unseen}
use nvmordering.Log.Functions.{
  is_used_var, get_tx_function, is_skip_function, is_log_function, is_tx_begin_function,
  is_tx_end_function, new_log_functions, insert_function, insert_variable, set_tx_mode,
}
use nvmordering.Log.StmtParser.{Globals, TransitionInfo}
use nvmordering.Log.Reporter.{AbstractState, Reporter}
use nvmordering.Log.Transitions.Runs.{IsCollected, transition_of}
use nvmordering.Log.GlobalParser.{
  parse, visit, fill_structures, fill_track_map, track_unit, visit_stmt,
}

abbrev pub sample : Ast
sample = record {
  kind = λ s.
      if s == 23
      then binary_operator
      else (if s == 34
          then member_expr
          else (if s == 32
              then implicit_cast_expr
              else (if s == 33
                  then unary_operator
                  else (if s == 21
                      then call_expr
                      else (if s == 22
                          then call_expr
                          else (if s == 24 then call_expr else other_stmt))))));
  children = λ s.
      if s == 20
      then 21 ∷ 22 ∷ 23 ∷ 24 ∷ []
      else (if s == 23
          then 34 ∷ []
          else (if s == 32 then 33 ∷ [] else (if s == 33 then 34 ∷ [] else [])));
  is_assignment_op = λ s. true;
  lhs = λ s. 34;
  rhs = λ s. 0;
  sub_expr = λ s. 34;
  arg = λ s i. 32;
  direct_callee = λ s. if s == 21 then 11 else (if s == 22 then 12 else 13);
  member_decl = λ s. 1;
  found_decl = λ s. 0;
  has_body = λ f. f == 10;
  body = λ f. 20;
  identifier = λ f.
      if f == 11
      then some "tx_begin"
      else (if f == 12 then some "log" else (if f == 13 then some "tx_end" else some "f"));
  annotations = λ d. if d == 1 then "LogField" ∷ [] else (if d == 10 then "LogCode" ∷ [] else []);
  qualified_name = λ d. "field";
  enclosing_function = λ s. 10;
  contains = λ s t. true;
  rsplit = λ s. (s, "");
}

abbrev sample_visits : List Visit
sample_visits =
    field_decl 1 ∷ function_decl 11 ∷ function_decl 12 ∷ function_decl 13 ∷ function_decl 10 ∷ []

abbrev pub sample_globals : Globals
sample_globals = record {
  variables = record { log_field = record { variable_set = 1 ∷ []; special_annot = "LogField" } };
  functions = record {
    analyzed_fnc = record { annotation = "LogCode"; functions = 10 ∷ [] };
    skip_fnc = record { annotation = "SkipCode"; functions = [] };
    log_fnc = 12 ∷ [];
    tx_begin_fnc = 11 ∷ [];
    tx_end_fnc = 13 ∷ [];
    use_tx = true;
  };
  function_unit_map = (10, record { unit_variables = 1 ∷ 11 ∷ []; unit_functions = [] }) ∷ [];
  active_unit = some 10;
}

sample_parses : parse sample 6 sample_visits ≡ ok sample_globals
unfolding parse visit fill_structures fill_track_map track_unit visit_stmt fold_result lookup insert
    get touch has_key add member dyn_cast_or_null has_annotation in_functions insert_annotated
    insert_if_annotated check_name insert_named is_str insert_annotation insert_annot_variable
    is_annot_variable init_active_unit insert_function_to_active_unit insert_variable_to_active_unit
    update_active track_call track_children track_function track_stmt is_tracked is_used_var
    get_tx_function is_skip_function is_log_function is_tx_begin_function is_tx_end_function
    new_log_functions insert_function insert_variable set_tx_mode
sample_parses = refl

pub tx_known : get_tx_function sample_globals.functions ≡ ok 11
unfolding get_tx_function
tx_known = refl

pub null_unused : is_used_var sample_globals.variables 0 ≡ false
unfolding is_used_var member is_annot_variable
null_unused = refl

pub tx_unused : is_used_var sample_globals.variables 11 ≡ false
unfolding is_used_var member is_annot_variable
tx_unused = refl

abbrev pub sample_collected : IsCollected sample_globals
sample_collected = record { tx = 11; is_tx = tx_known; no_null = null_unused; no_field = tx_unused }

pub field_used : is_used_var sample_globals.variables 1 ≡ true
unfolding is_used_var member is_annot_variable
field_used = refl

-- The state that the unit starts with, and a reporter without reports.
abbrev pub start : AbstractState
start =
    (1, record { tx = 0; log = unseen; lattice_type = log_value_type })
    ∷ (11, record { tx = 0; log = unseen; lattice_type = tx_value_type })
    ∷ []

abbrev pub no_reports : Reporter
no_reports = record { bug_data_list = []; last_location_map = []; bugged_vars = [] }

abbrev pub event : ℕ → TransitionInfo
event = transition_of sample sample_globals
