-- ===== src/Pair/Tests/Analysis.antt =====
-- The whole analysis of the pair checker on the sample, with its fence and without.
use nvmordering.Base.{
  lookup, insert, get, has_key, touch, keys, member, add, fold_result, lookup_str, insert_str, ℕ,
  ◌==◌, if◌then◌else◌, ◌≡◌, refl, Result, ok, ◌>>=◌, some, Option, List, [], ◌∷◌,
}
use nvmordering.Clang.{dyn_cast_or_null, Cfg}
use nvmordering.Clang.Parse.{
  nth_or_null, get_nth_child, get_field_decl_from_write_me, get_field_decl_from_write,
  get_field_decl_from_call,
}
use nvmordering.Globals.Functions.{
  in_functions, insert_if_annotated, insert_annotated, insert_function_direct, erase_function,
  has_annotation,
}
use nvmordering.Globals.Functions.Named.{is_str, check_name, insert_named}
use nvmordering.Globals.Functions.Direct.{
  new_direct_functions, is_flush_fence_function, is_flush_opt_function, is_vfence_function,
  is_pfence_function, is_skip_function, insert_analyze_function, insert_function, erase_all,
  remove_skip_from_analyze,
}
use nvmordering.Globals.Units.{
  active, is_used_var_unit, get_unit_variables, set_active_unit, init_active_unit, update_active,
  insert_variable_to_active_unit, insert_function_to_active_unit, get_ce_if_analyzed_function,
}
use nvmordering.Globals.Track.{is_tracked, track_children, track_call, track_stmt, track_function}
use nvmordering.Dataflow.Location.{
  new_location, call_context, lt_context, get_entry_block, get_function_entry_key,
  get_function_exit_key, get_stmt_key, get_entry_key, is_entry_exit, element_key, get_exit_key,
}
use nvmordering.Dataflow.Merge.{merge_in_state, eq_entries, eq_state}
use nvmordering.Dataflow.Analysis.{
  init_top_entry_values, init_callee_entry_values, get_function_results, merge_predecessor,
  merge_prev_states, analyze_call, apply_transfer, analyze_stmt, analyze_stmts, analyze_block,
  analyze_blocks, eq_results, update_callers, compute_function, compute_contexts, compute_dataflow,
}
use nvmordering.Dataflow.Store.{results_at, find_results, add_caller, update_results}
use nvmordering.Dataflow.ListMaps.{list_maps, find_in, is_in, without}
use nvmordering.Dataflow.Driver.{do_dataflow_fd, do_unit, do_dataflow_tud}
use nvmordering.Pair.Lattice.{
  new_lattice, default_lattice, get_init, get_write, get_flush, get_pfence, get_vfence, meet_value,
  meet, has_scl, has_dcl, is_write, is_write_dcl, is_flush, is_write_flush_dcl, is_write_flush,
  eq_lattice,
}
use nvmordering.Pair.Variables.{
  new_pair_info, get_pair_nd, load_pair_info, get_pair_info_set, get_dscl_info, is_used_var,
  insert_variable, insert_pair,
}
use nvmordering.Pair.StmtParser.{
  new_transition, is_pfence, get_flush_function, get_fence_function, parse_write, parse_flush,
  parse_fence, parse_call, parse_stmt,
}
use nvmordering.Pair.Reporter.{
  init_unit, update_last_location, add_as_bug, add_pair, get_pair_set, check_pair, check_bug,
  update_and_check, BugData,
}
use nvmordering.Pair.Transitions.{
  fence_value, fence_all, handle_fence, flush_value, handle_flush, handle_write, dispatch,
  handle_transition, handle_stmt, init_lattice_value, init_lattice_values,
}
use nvmordering.Pair.GlobalParser.{
  get_cl_type, uses_scl, is_empty, add_pairs, add_annotated, get_nd_from_str, fill_pair,
  fill_main_vars, find_function, find_functions, auto_find_functions, visit_stmt, track_unit,
  fill_track_map, fill_structures, visit, parse,
}
use nvmordering.Pair.Analyzer.{analyze_tud}
use nvmordering.Pair.Sample.{sample, sample_layout, sample_visits}

-- The graph of the function 10: the entry 43, the body 42 and the exit 41.
abbrev pub statements : List ℕ → List (Option ℕ)
statements [] = []
statements (s ∷ ss) = some s ∷ statements ss

abbrev pub sample_cfg : List ℕ → Cfg
sample_cfg body = record {
  blocks = λ f. 41 ∷ 42 ∷ 43 ∷ [];
  entry = λ f. 43;
  exit = λ f. 41;
  successors = λ b. if b == 43 then 42 ∷ [] else (if b == 42 then 41 ∷ [] else []);
  predecessors = λ b. if b == 42 then 43 ∷ [] else (if b == 41 then 42 ∷ [] else []);
  elements = λ b. if b == 42 then statements body else [];
  graph_front = λ b. 41;
  graph_back = λ b. 43;
}

-- The bugs of the body.
abbrev bugs_of : List ℕ → Result (List BugData)
bugs_of body =
    analyze_tud list_maps sample (sample_cfg body) sample_layout 6 20 2 2 sample_visits >>= λ out.
    ok out.1.bug_data_list

fenced : bugs_of (21 ∷ 22 ∷ 23 ∷ 24 ∷ []) ≡ ok []
unfolding lookup insert get has_key touch keys member add fold_result lookup_str insert_str
    dyn_cast_or_null nth_or_null get_nth_child get_field_decl_from_write_me
    get_field_decl_from_write get_field_decl_from_call in_functions insert_if_annotated
    insert_annotated insert_function_direct erase_function has_annotation is_str check_name
    insert_named new_direct_functions is_flush_fence_function is_flush_opt_function
    is_vfence_function is_pfence_function is_skip_function insert_analyze_function insert_function
    erase_all remove_skip_from_analyze active is_used_var_unit get_unit_variables set_active_unit
    init_active_unit update_active insert_variable_to_active_unit insert_function_to_active_unit
    get_ce_if_analyzed_function is_tracked track_children track_call track_stmt track_function
    new_location call_context lt_context get_entry_block get_function_entry_key
    get_function_exit_key get_stmt_key get_entry_key is_entry_exit element_key get_exit_key
    merge_in_state eq_entries eq_state find_in is_in without add_caller find_results results_at
    update_results init_top_entry_values init_callee_entry_values get_function_results
    merge_predecessor merge_prev_states analyze_call apply_transfer analyze_stmt analyze_stmts
    analyze_block analyze_blocks eq_results update_callers compute_function compute_contexts
    compute_dataflow do_dataflow_fd do_unit do_dataflow_tud new_lattice default_lattice get_init
    get_write get_flush get_pfence get_vfence meet_value meet has_scl has_dcl is_write is_write_dcl
    is_flush is_write_flush_dcl is_write_flush eq_lattice new_pair_info get_pair_nd load_pair_info
    get_pair_info_set get_dscl_info is_used_var insert_variable insert_pair new_transition is_pfence
    get_flush_function get_fence_function parse_write parse_flush parse_fence parse_call parse_stmt
    init_unit update_last_location add_as_bug add_pair get_pair_set check_pair check_bug
    update_and_check fence_value fence_all handle_fence flush_value handle_flush handle_write
    dispatch handle_transition handle_stmt init_lattice_value init_lattice_values get_cl_type
    uses_scl is_empty add_pairs add_annotated get_nd_from_str fill_pair fill_main_vars find_function
    find_functions auto_find_functions visit_stmt track_unit fill_track_map fill_structures visit
    parse analyze_tud
fenced = refl

unfenced :
    bugs_of (21 ∷ 22 ∷ 24 ∷ [])
    ≡ ok (record { bug_stmt = 24; pair_stmt = 22; current_var = 2; pair_var = 1 } ∷ [])
unfolding lookup insert get has_key touch keys member add fold_result lookup_str insert_str
    dyn_cast_or_null nth_or_null get_nth_child get_field_decl_from_write_me
    get_field_decl_from_write get_field_decl_from_call in_functions insert_if_annotated
    insert_annotated insert_function_direct erase_function has_annotation is_str check_name
    insert_named new_direct_functions is_flush_fence_function is_flush_opt_function
    is_vfence_function is_pfence_function is_skip_function insert_analyze_function insert_function
    erase_all remove_skip_from_analyze active is_used_var_unit get_unit_variables set_active_unit
    init_active_unit update_active insert_variable_to_active_unit insert_function_to_active_unit
    get_ce_if_analyzed_function is_tracked track_children track_call track_stmt track_function
    new_location call_context lt_context get_entry_block get_function_entry_key
    get_function_exit_key get_stmt_key get_entry_key is_entry_exit element_key get_exit_key
    merge_in_state eq_entries eq_state find_in is_in without add_caller find_results results_at
    update_results init_top_entry_values init_callee_entry_values get_function_results
    merge_predecessor merge_prev_states analyze_call apply_transfer analyze_stmt analyze_stmts
    analyze_block analyze_blocks eq_results update_callers compute_function compute_contexts
    compute_dataflow do_dataflow_fd do_unit do_dataflow_tud new_lattice default_lattice get_init
    get_write get_flush get_pfence get_vfence meet_value meet has_scl has_dcl is_write is_write_dcl
    is_flush is_write_flush_dcl is_write_flush eq_lattice new_pair_info get_pair_nd load_pair_info
    get_pair_info_set get_dscl_info is_used_var insert_variable insert_pair new_transition is_pfence
    get_flush_function get_fence_function parse_write parse_flush parse_fence parse_call parse_stmt
    init_unit update_last_location add_as_bug add_pair get_pair_set check_pair check_bug
    update_and_check fence_value fence_all handle_fence flush_value handle_flush handle_write
    dispatch handle_transition handle_stmt init_lattice_value init_lattice_values get_cl_type
    uses_scl is_empty add_pairs add_annotated get_nd_from_str fill_pair fill_main_vars find_function
    find_functions auto_find_functions visit_stmt track_unit fill_track_map fill_structures visit
    parse analyze_tud
unfenced = refl
