-- ===== src/LogX/Tests.antt =====
-- The path-sensitive log checker on paths through a function that begins a transaction, logs a field
-- twice and writes it.
use nvmordering.Base.{
  Bool, true, false, List, [], ◌∷◌, ◌≡◌, ◌≢◌, refl, inl, ok, member, add, PtrSet,
}
use nvmordering.Symbolic.Engine.{
  Call, CheckerContext, context_at, successors, reports, access_outside_tx,
}
use nvmordering.Symbolic.Sample.{sample_memory, sample_decls}
use nvmordering.LogX.Identify.{Identify}
use nvmordering.LogX.Functions.{LogFncs}
use nvmordering.LogX.State.{ProgramState, initial_state, logged}
use nvmordering.LogX.Checker.{CallEvent}
use nvmordering.LogX.Actions.{
  Action, logs, writes, begins, nothing, IsStateOf, post_call, bind, run_callback, action, promised,
  count_begins, count_ends,
}
use nvmordering.LogX.Paths.{Explored, start, step, Explored-IsStateOf, run_callback-promised}

abbrev is_nil : PtrSet → Bool
is_nil [] = true
is_nil (x ∷ xs) = false

abbrev by_list : Identify PtrSet PtrSet
by_list = record {
  in_functions = λ s fd. member fd s;
  insert_fnc_if_known = add;
  empty = is_nil;
  is_used_var = λ s nd. member nd s;
  insert_var_if_known = add;
}

abbrev fncs : LogFncs PtrSet
fncs = record {
  analysis_fnc = 53 ∷ [];
  log_fnc = 50 ∷ [];
  tx_beg_fnc = 51 ∷ [];
  tx_end_fnc = 52 ∷ [];
  use_tx = true;
  check_tx = true;
}

-- An error node is given once in a callback.
abbrev gives_once : List (Call ProgramState) → Bool
gives_once [] = true
gives_once (c ∷ cs) = false

abbrev log_call : CallEvent
log_call = record { decl = 50; num_args = 1; arg_sval = λ i. 4 }

abbrev beg_call : CallEvent
beg_call = record { decl = 51; num_args = 0; arg_sval = λ i. 0 }

abbrev after_beg : ProgramState
after_beg = record { log_map = []; tx_counter = 1 }

abbrev after_log : ProgramState
after_log = record { log_map = (41, logged) ∷ []; tx_counter = 1 }

abbrev Leads : List Action → ProgramState → Type 0
Leads = Explored by_list sample_decls sample_memory 3 (41 ∷ []) fncs gives_once

beg_path : Leads (begins ∷ []) after_beg
unfolding action run_callback successors member
beg_path = step (post_call beg_call) _ start refl refl (inl refl)

log_path : Leads (logs 41 ∷ begins ∷ []) after_log
unfolding action run_callback successors member
log_path = step (post_call log_call) _ beg_path refl refl (inl refl)

Explored-IsStateOf_example : IsStateOf (logs 41 ∷ begins ∷ []) after_log
Explored-IsStateOf_example =
    Explored-IsStateOf by_list sample_decls sample_memory 3 (41 ∷ []) fncs gives_once
      (logs 41 ∷ begins ∷ []) after_log log_path

bind_acts : action by_list sample_decls sample_memory 3 (41 ∷ []) fncs (bind 4) ≡ ok (writes 41)
unfolding action member
bind_acts = refl

writes_ne_nothing : writes 41 ≢ nothing
writes_ne_nothing e = cc

run_callback-promised_example :
    run_callback by_list sample_decls sample_memory 3
      (41 ∷ [])
      fncs
      gives_once
      (bind 4)
      initial_state
    ≡ ok (promised true (writes 41) [] (context_at gives_once false 0 initial_state))
run_callback-promised_example =
    run_callback-promised by_list sample_decls sample_memory 3 (41 ∷ []) fncs gives_once []
      initial_state (bind 4) (writes 41) start bind_acts writes_ne_nothing

-- The calls of a write at the start of a path: the second report gets no error node.
first_write_calls :
    reports (promised true (writes 41) [] (context_at gives_once false 0 initial_state)).calls
    ≡ record { nd = 41; msg = "not logged before write:"; bug_ptr = access_outside_tx } ∷ []
unfolding promised reports count_begins count_ends
first_write_calls = refl

abbrev at_start : CheckerContext ProgramState
at_start = context_at gives_once true 53 initial_state
