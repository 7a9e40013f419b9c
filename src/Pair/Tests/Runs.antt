-- ===== src/Pair/Tests/Runs.antt =====
-- The transitions of the pair checker on the sample's body.
use nvmordering.Base.{
  ℕ, ok, ◌≡◌, ◌⊎◌, refl, true, [], ◌∷◌, inr, get, lookup, has_key, member, map, arith,
}
use nvmordering.Clang.{dyn_cast_or_null}
use nvmordering.Clang.Parse.{
  get_field_decl_from_call, get_field_decl_from_write, get_field_decl_from_write_me,
  get_nd_of_assigned, get_nd_of_rhs, get_nth_child, get_ptr_from_flush, nth_or_null,
  get_field_decl_from_call,
}
use nvmordering.Globals.Functions.{in_functions}
use nvmordering.Globals.Functions.Direct.{
  is_flush_fence_function, is_flush_opt_function, is_pfence_function, is_vfence_function,
}
use nvmordering.Pair.Lattice.{
  PairLattice, default_lattice, dcl_type, unseen_dcl, unseen_scl, is_write_flush, has_dcl,
}
use nvmordering.Pair.Variables.{is_used_var, load_pair_info}
use nvmordering.Pair.StmtParser.{
  TransitionInfo, write_func, flush_func, pfence_func, parse_stmt, parse_write, parse_call,
  parse_flush, parse_fence, get_flush_function, get_fence_function, new_transition,
}
use nvmordering.Pair.Reporter.{AbstractState, Reporter, BugData}
use nvmordering.Pair.Reporter.Partners.{IsCollected, is_partner, in_unit, is_end}
use nvmordering.Pair.Reporter.Checks.{reported, uncommitted, bug_of}
use nvmordering.Pair.Transitions.{Outcome, handle_stmt}
use nvmordering.Pair.Transitions.Values.{value}
use nvmordering.Pair.Transitions.Rule.{IsSound}
use nvmordering.Pair.Transitions.Runs.{transition_of, run_stmts, IsAcross}
use nvmordering.Pair.Transitions.Ordering.{uncommitted-reported, committed-not_reported}
use nvmordering.Pair.Sample.{sample, sample_layout, sample_visits}
use nvmordering.Pair.Tests.{sample_globals, sample_parsed, sample_parses}
use nvmordering.Pair.GlobalParser.Collected.{parse-IsLinked}

abbrev pub sample_collected : IsCollected sample_globals
sample_collected = record {
  unit = 10;
  is_active = refl;
  linked = parse-IsLinked sample sample_layout 6 sample_visits sample_parsed sample_parses;
}

abbrev unseen : PairLattice
unseen = record { dcl = unseen_dcl; scl = unseen_scl; lattice_type = dcl_type }

-- The state that the unit starts with.
abbrev pub start : AbstractState
start = (1, unseen) ∷ (2, unseen) ∷ []

abbrev pub no_reports : Reporter
no_reports = record {
  bug_data_list = [];
  var_to_pair = [];
  last_location_map = [];
  bugged_vars = [];
}

pub start-IsSound : IsSound sample_globals 10 start no_reports
unfolding uncommitted get lookup is_write_flush has_key member default_lattice
start-IsSound = record { located = λ y u. ground arith; cached = λ nd y h. ground arith }

pub sample_transitions :
    map (transition_of sample sample_globals) (21 ∷ 22 ∷ 23 ∷ 24 ∷ [])
    ≡ record { transfer_func = write_func; var = 1 }
      ∷ record { transfer_func = flush_func; var = 1 }
      ∷ record { transfer_func = pfence_func; var = 0 }
      ∷ record { transfer_func = write_func; var = 2 }
      ∷ []
unfolding transition_of parse_stmt parse_write parse_call parse_flush parse_fence get_flush_function
    get_fence_function new_transition get_field_decl_from_call get_field_decl_from_write
    get_field_decl_from_write_me get_nd_of_assigned get_nd_of_rhs get_nth_child get_ptr_from_flush
    nth_or_null dyn_cast_or_null in_functions is_flush_fence_function is_flush_opt_function
    is_pfence_function is_vfence_function is_used_var has_key member lookup
sample_transitions = refl

abbrev event : ℕ → TransitionInfo
event = transition_of sample sample_globals

write_data_event : event 21 ≡ record { transfer_func = write_func; var = 1 }
write_data_event = cc sample_transitions

flush_data_event : event 22 ≡ record { transfer_func = flush_func; var = 1 }
flush_data_event = cc sample_transitions

fence_event : event 23 ≡ record { transfer_func = pfence_func; var = 0 }
fence_event = cc sample_transitions

write_check_event : event 24 ≡ record { transfer_func = write_func; var = 2 }
write_check_event = cc sample_transitions

data_of_check : is_partner sample_globals 10 2 1 ≡ true
unfolding is_partner in_unit is_end get lookup member load_pair_info
data_of_check = refl

start-has_dcl : has_dcl (value start 1) ≡ true
unfolding has_dcl get lookup
start-has_dcl = refl

start-IsAcross : IsAcross (value start 1)
unfolding get lookup
start-IsAcross = record { type = refl; no_write = refl }

uncommitted-reported_example :
    (mid : AbstractState × Reporter) × (run_stmts sample sample_globals
        (21 ∷ 22 ∷ [])
        (start, no_reports)
      ≡ ok mid)
    × (out : Outcome) × (handle_stmt sample_globals sample 24 mid.0 mid.1 ≡ ok out)
    × ((member 2 mid.1.bugged_vars ≡ true)
        ⊎ (reported (bug_of 24 2 1 mid.1.last_location_map) out.2.bug_data_list ≡ true))
uncommitted-reported_example =
    uncommitted-reported sample sample_globals sample_collected 1 21 (22 ∷ []) 24 2 start no_reports
      start-IsSound start-has_dcl write_data_event (inr (rw flush_data_event refl, tt))
      write_check_event refl data_of_check

committed-not_reported_example :
    (mid : AbstractState × Reporter) × (run_stmts sample sample_globals
        (22 ∷ 23 ∷ [])
        (start, no_reports)
      ≡ ok mid)
    × (out : Outcome) × (handle_stmt sample_globals sample 24 mid.0 mid.1 ≡ ok out)
    × ((b : BugData)
        → b.pair_var ≡ 1
        → reported b out.2.bug_data_list ≡ reported b mid.1.bug_data_list)
committed-not_reported_example =
    committed-not_reported sample sample_globals sample_collected 1 22 [] 23 [] 24 2 start
      no_reports start-IsSound start-IsAcross (rw flush_data_event refl) tt (rw fence_event refl) tt
      write_check_event refl
