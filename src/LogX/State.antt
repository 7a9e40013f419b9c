-- ===== src/LogX/State.antt =====
-- lib/logxchecker/state_machine: the log state of a field, the program state, and the transitions
-- of the log and of the transactions. The transaction counter is an `unsigned` of 32 bits.
use Prim.Native.String.{String}
use nvmordering.Base.{
  ℕ, ◌+◌, ◌-◌, ◌%◌, Bool, true, false, [], Option, none, some, if◌then◌else◌, ltb, Map, lookup,
  insert, Result, ok, err, fatal_error,
}
use nvmordering.Symbolic.Engine.{
  CheckerContext, BugType, double_log, not_log_before_write, access_outside_tx, add_transition,
  report_at_error_node,
}

-- The kind of a LogState.
pub data LogState : Type 0 where
  init logged written : LogState

unfoldable pub is_init : LogState → Bool
is_init k = elim k [ init ↦ true | _ ↦ false ]

unfoldable pub is_logged : LogState → Bool
is_logged k = elim k [ logged ↦ true | _ ↦ false ]

unfoldable pub is_written : LogState → Bool
is_written k = elim k [ written ↦ true | _ ↦ false ]

-- LogMap and TxCounter
pub record ProgramState : Type 0 where
  pub log_map : Map LogState
  pub tx_counter : ℕ

-- The state at the start of a path: both traits have their defaults.
abbrev pub initial_state : ProgramState
initial_state = record { log_map = []; tx_counter = 0 }

-- StateInfo. `state` is the variable of the handler that the source refers to.
pub record StateInfo : Type 0 where
  pub context : CheckerContext ProgramState
  pub state : ProgramState
  pub nd : ℕ

unfoldable pub report : BugType → String → StateInfo → StateInfo
unfolding report_at_error_node
report bug_ptr msg si = record si {
  context = report_at_error_node (record { nd = si.nd; msg = msg; bug_ptr = bug_ptr }) si.context;
}

unfoldable pub report_double_log_bug : StateInfo → StateInfo
unfolding report
report_double_log_bug si = report double_log "log twice:" si

unfoldable pub report_not_log_before_write_bug : StateInfo → StateInfo
unfolding report
report_not_log_before_write_bug si = report not_log_before_write "not logged before write:" si

unfoldable pub report_access_outside_tx_bug : StateInfo → StateInfo
unfolding report
report_access_outside_tx_bug si = report access_outside_tx "not logged before write:" si

unfoldable pub add_state_transition : StateInfo → StateInfo
unfolding add_transition
add_state_transition si = record si { context = add_transition si.state si.context }

-- writeData: the branches on the state of the field
unfoldable pub write_data_at : Option LogState → StateInfo → Result StateInfo
unfolding is_init is_logged is_written report_not_log_before_write_bug
write_data_at none si = ok (report_not_log_before_write_bug si)
write_data_at (some k) si =
    if is_init k
    then ok si
    else (if is_logged k then ok si else (if is_written k then ok si else err fatal_error))

unfoldable pub write_data : StateInfo → Result StateInfo
unfolding write_data_at lookup
write_data si = write_data_at (lookup si.nd si.state.log_map) si

unfoldable pub set_logged : StateInfo → StateInfo
unfolding insert
set_logged si = record si {
  state = record (si.state) { log_map = insert si.nd logged si.state.log_map };
}

unfoldable pub log_data_at : Option LogState → StateInfo → Result StateInfo
unfolding is_init is_logged is_written report_double_log_bug set_logged add_state_transition
log_data_at none si = ok (add_state_transition (set_logged si))
log_data_at (some k) si =
    if is_init k
    then ok si
    else (if is_logged k
        then ok (report_double_log_bug si)
        else (if is_written k then ok si else err fatal_error))

unfoldable pub log_data : StateInfo → Result StateInfo
unfolding log_data_at lookup
log_data si = log_data_at (lookup si.nd si.state.log_map) si

abbrev pub u32_mod : ℕ
u32_mod = 0x1_0000_0000

unfoldable pub in_tx : ProgramState → Bool
in_tx s = ltb 0 s.tx_counter

unfoldable pub check_tx : StateInfo → StateInfo
unfolding report_access_outside_tx_bug
check_tx si = if ltb si.state.tx_counter 1 then report_access_outside_tx_bug si else si

unfoldable pub count_beg : ProgramState → ProgramState
count_beg s = record s { tx_counter = (s.tx_counter + 1) % u32_mod }

unfoldable pub count_end : ProgramState → ProgramState
count_end s = record s { tx_counter = (s.tx_counter + u32_mod - 1) % u32_mod }

unfoldable pub beg_tx : ProgramState → CheckerContext ProgramState → CheckerContext ProgramState
unfolding count_beg add_transition
beg_tx s c = add_transition (count_beg s) c

unfoldable pub end_tx : ProgramState → CheckerContext ProgramState → CheckerContext ProgramState
unfolding count_end add_transition
end_tx s c = add_transition (count_end s) c
