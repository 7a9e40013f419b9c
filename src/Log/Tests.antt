-- ===== src/Log/Tests.antt =====
-- The log checker on a function that begins a transaction, logs a field, writes it and ends the
-- transaction.
use nvmordering.Base.{true, false, ◌≡◌, ◌⊎◌, inr, refl, ok, [], ◌∷◌, map, member, lookup, get}
use nvmordering.Clang.{dyn_cast_or_null}
use nvmordering.Clang.Parse.{
  get_field_decl_from_call, get_field_decl_from_write, get_field_decl_from_write_me, get_nth_child,
  nth_or_null,
}
use nvmordering.Globals.Functions.{in_functions}
use nvmordering.Globals.Variables.{is_annot_variable}
use nvmordering.Base.{arith}
use nvmordering.Log.Lattice.Meet.{meet-is_in_tx}
use nvmordering.Log.Lattice.{meet, is_in_tx, LogLattice, tx_value_type, unseen, is_logged}
use nvmordering.Log.Functions.{
  is_used_var, is_log_function, is_tx_begin_function, is_tx_end_function,
}
use nvmordering.Log.StmtParser.{
  write_func, log_func, tx_begin_func, tx_end_func, parse_stmt, parse_write, parse_log, parse_call,
  new_transition,
}
use nvmordering.Log.Reporter.{
  AbstractState, Reporter, BugData, get_not_logged, get_double_log_bug, get_outside_tx,
}
use nvmordering.Log.Transitions.{Outcome, handle_stmt, handle_transition}
use nvmordering.Log.Transitions.Step.{handle_transition-IsLogStep}
use nvmordering.Log.Transitions.Rule.{IsLogStep, value, reported}
use nvmordering.Log.Transitions.Runs.{transition_of, run_stmts, depth_after, logged_in}
use nvmordering.Log.Transitions.Rules.{
  logged-not_reported, unlogged-reported, relogged-reported, outside-reported,
}
use nvmordering.Log.Sample.{
  sample, sample_globals, tx_known, sample_collected, field_used, start, no_reports, event,
}

sample_transitions :
    map event (21 ∷ 22 ∷ 23 ∷ 24 ∷ [])
    ≡ record { transfer_func = tx_begin_func; var = 0 }
      ∷ record { transfer_func = log_func; var = 1 }
      ∷ record { transfer_func = write_func; var = 1 }
      ∷ record { transfer_func = tx_end_func; var = 0 }
      ∷ []
unfolding transition_of parse_stmt parse_write parse_log parse_call new_transition
    get_field_decl_from_call get_field_decl_from_write get_field_decl_from_write_me get_nth_child
    nth_or_null dyn_cast_or_null in_functions is_log_function is_tx_begin_function
    is_tx_end_function is_used_var is_annot_variable member
sample_transitions = refl

begin_event : event 21 ≡ record { transfer_func = tx_begin_func; var = 0 }
begin_event = cc sample_transitions

log_event : event 22 ≡ record { transfer_func = log_func; var = 1 }
log_event = cc sample_transitions

write_event : event 23 ≡ record { transfer_func = write_func; var = 1 }
write_event = cc sample_transitions

logged_before : logged_in 1 (map event (21 ∷ 22 ∷ [])) ≡ true
unfolding logged_in
logged_before = rw (begin_event, log_event) refl

not_logged_before : logged_in 1 (map event (21 ∷ [])) ≡ false
unfolding logged_in
not_logged_before = rw begin_event refl

inside : depth_after (map event (21 ∷ 22 ∷ [])) (value start 11).tx ≡ 1
unfolding depth_after get lookup
inside = rw (begin_event, log_event) refl

start-unlogged : is_logged (value start 1) ≡ false
unfolding is_logged get lookup
start-unlogged = refl

logged-not_reported_example :
    (mid : AbstractState × Reporter) × (run_stmts sample sample_globals
        (21 ∷ 22 ∷ [])
        (start, no_reports)
      ≡ ok mid)
    × (out : Outcome) × (handle_stmt sample_globals sample 23 mid.0 mid.1 ≡ ok out)
    × ((b : BugData) → reported b out.2.bug_data_list ≡ reported b mid.1.bug_data_list)
logged-not_reported_example =
    logged-not_reported sample sample_globals sample_collected 1 field_used (21 ∷ 22 ∷ []) 23 start
      no_reports write_event logged_before (rw inside refl)

unlogged-reported_example :
    (mid : AbstractState × Reporter) × (run_stmts sample sample_globals
        (21 ∷ [])
        (start, no_reports)
      ≡ ok mid)
    × (out : Outcome) × (handle_stmt sample_globals sample 23 mid.0 mid.1 ≡ ok out)
    × ((member 1 mid.1.bugged_vars ≡ true)
        ⊎ (reported (get_not_logged 23 1) out.2.bug_data_list ≡ true))
unlogged-reported_example =
    unlogged-reported sample sample_globals sample_collected 1 field_used (21 ∷ []) 23 start
      no_reports write_event start-unlogged not_logged_before

relogged-reported_example :
    (mid : AbstractState × Reporter) × (run_stmts sample sample_globals
        (21 ∷ 22 ∷ [])
        (start, no_reports)
      ≡ ok mid)
    × (out : Outcome) × (handle_stmt sample_globals sample 22 mid.0 mid.1 ≡ ok out)
    × ((member 1 mid.1.bugged_vars ≡ true)
        ⊎ (reported (get_double_log_bug 22 (get 0 1 mid.1.last_location_map) 1) out.2.bug_data_list
            ≡ true))
relogged-reported_example =
    relogged-reported sample sample_globals sample_collected 1 field_used (21 ∷ 22 ∷ []) 22 start
      no_reports log_event logged_before

outside : depth_after (map event []) (value start 11).tx ≡ 0
unfolding depth_after get lookup
outside = refl

outside-reported_example :
    (mid : AbstractState × Reporter) × (run_stmts sample sample_globals [] (start, no_reports)
      ≡ ok mid)
    × (out : Outcome) × (handle_stmt sample_globals sample 22 mid.0 mid.1 ≡ ok out)
    × (member 1 out.2.bugged_vars ≡ true)
    × ((member 1 mid.1.bugged_vars ≡ true)
        ⊎ (reported (get_outside_tx 22 1) out.2.bug_data_list ≡ true))
outside-reported_example =
    outside-reported sample sample_globals sample_collected 1 field_used [] 22 start no_reports
      (inr log_event) (rw outside refl)

handle_transition-IsLogStep_example :
    (out : Outcome) × (handle_transition sample_globals 22
        (record { transfer_func = log_func; var = 1 })
        start
        no_reports
      ≡ ok out)
    × IsLogStep 11 22 log_func 1 start no_reports out
handle_transition-IsLogStep_example =
    handle_transition-IsLogStep sample_globals 11 tx_known 22 start no_reports
      (record { transfer_func = log_func; var = 1 })

-- One transaction has begun.
meet-is_in_tx_example :
    (out : LogLattice) × (meet (record { tx = 1; log = unseen; lattice_type = tx_value_type })
      ≡ ok out)
    × (is_in_tx out ≡ false)
meet-is_in_tx_example =
    meet-is_in_tx (record { tx = 1; log = unseen; lattice_type = tx_value_type }) (omega arith) refl
