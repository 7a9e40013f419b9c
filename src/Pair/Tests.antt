-- ===== src/Pair/Tests.antt =====
-- The pair checker on the sample.
mod Runs
mod Checks
mod Analysis
mod Dataflow
mod Start
mod Units
use nvmordering.Base
use nvmordering.Base.{ℕ, Result, ok, ◌≡◌, refl, true, false, some, [], ◌∷◌, fold_result}
use nvmordering.Base.{
  lookup, insert, get, touch, has_key, keys, add, member, remove, lookup_str, insert_str,
}
use nvmordering.Clang.{dyn_cast_or_null}
use nvmordering.Globals.Functions.{
  erase_function, has_annotation, in_functions, insert_annotated, insert_function_direct,
  insert_if_annotated,
}
use nvmordering.Globals.Functions.Named.{check_name, insert_named, is_str}
use nvmordering.Globals.Functions.Direct.{
  erase_all, insert_analyze_function, insert_function, is_flush_fence_function,
  is_flush_opt_function, is_pfence_function, is_skip_function, is_vfence_function,
  new_direct_functions, remove_skip_from_analyze,
}
use nvmordering.Globals.Units.{
  active, init_active_unit, insert_function_to_active_unit, insert_variable_to_active_unit,
  update_active,
}
use nvmordering.Globals.Track.{track_call, track_children, track_function, track_stmt, is_tracked}
use nvmordering.Pair.Variables.{
  new_pair_info, insert_pair, insert_variable, is_used_var, load_pair_info,
}
use nvmordering.Pair.Variables.Links.{IsLinked}
use nvmordering.Pair.StmtParser.{Globals}
use nvmordering.Pair.Sample.{sample, sample_layout, sample_visits}
use nvmordering.Pair.GlobalParser.{
  parse, PairGlobalParser, get_cl_type, uses_scl, is_empty, add_pairs, add_annotated,
  get_nd_from_str, fill_pair, fill_main_vars, find_function, find_functions, auto_find_functions,
  visit_stmt, track_unit, fill_track_map, fill_structures, visit, dcl,
}
use nvmordering.Pair.GlobalParser.Collected.{parse-IsLinked}

abbrev pub sample_globals : Globals
sample_globals = record {
  variables = record {
    used_vars =
        (1, record { is_dcl = true; is_scl = false })
        ∷ (2, record { is_dcl = true; is_scl = false })
        ∷ [];
    pair_info_map = (1, 1 ∷ []) ∷ (2, 1 ∷ []) ∷ [];
    pair_infos = (1, record { data_nd = 1; check_nd = 2; is_scl = false }) ∷ [];
    next_pair_info = 2;
  };
  functions = record {
    analyzed_fnc = record { annotation = "NvmCode"; functions = 10 ∷ [] };
    skip_fnc = record { annotation = "SkipCode"; functions = [] };
    pfence_fnc = 12 ∷ [];
    vfence_fnc = [];
    flush_fnc = 11 ∷ [];
    flush_fence_fnc = [];
  };
  function_unit_map = (10, record { unit_variables = 1 ∷ 2 ∷ []; unit_functions = [] }) ∷ [];
  active_unit = some 10;
}

abbrev pub sample_parsed : PairGlobalParser
sample_parsed = record {
  globals = sample_globals;
  psi_list = record { data_name = "data"; check_name = "check"; cl_type = dcl } ∷ [];
  str_to_nd = ("data", 1) ∷ ("check", 2) ∷ [];
  auto_cl = [];
  member_exprs = 31 ∷ 34 ∷ 35 ∷ [];
}

pub sample_parses : parse sample sample_layout 6 sample_visits ≡ ok sample_parsed
unfolding parse get_cl_type uses_scl is_empty add_pairs add_annotated get_nd_from_str fill_pair
    fill_main_vars find_function find_functions auto_find_functions visit_stmt track_unit
    fill_track_map fill_structures visit fold_result lookup insert get touch has_key keys add member
    remove lookup_str insert_str dyn_cast_or_null erase_function has_annotation in_functions
    insert_annotated insert_function_direct insert_if_annotated check_name insert_named is_str
    erase_all insert_analyze_function insert_function is_flush_fence_function is_flush_opt_function
    is_pfence_function is_skip_function is_vfence_function new_direct_functions
    remove_skip_from_analyze active init_active_unit insert_function_to_active_unit
    insert_variable_to_active_unit update_active track_call track_children track_function track_stmt
    is_tracked new_pair_info insert_pair insert_variable is_used_var load_pair_info
sample_parses = refl

-- The sample's tables are linked.
parse-IsLinked_example : IsLinked (sample_parsed.globals.variables)
parse-IsLinked_example =
    parse-IsLinked sample sample_layout 6 sample_visits sample_parsed sample_parses
