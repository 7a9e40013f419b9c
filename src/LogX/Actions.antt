-- ===== src/LogX/Actions.antt =====
-- lib/logxchecker: what the callbacks on a path are about, and the program state that they amount to.
use nvmordering.Base.{
  ℕ, ◌+◌, ◌-◌, ◌*◌, ◌%◌, Bool, true, false, not, ◌||◌, ◌&&◌, if◌then◌else◌, ◌==◌, ltb, List, [],
  ◌∷◌, ◌++◌, none, some, lookup, Result, ok, fatal_error, guard, ◌>>=◌, ◌>>◌, ◌≡◌, insert,
}
use nvmordering.Symbolic.Engine.{
  CheckerContext, Call, BugReportData, double_log, not_log_before_write, access_outside_tx,
  context_at, add_transition, report_at_error_node,
}
use nvmordering.Symbolic.Memory.{Memory}
use nvmordering.Symbolic.Decls.{Decls, get_func_decl}
use nvmordering.Symbolic.Regions.{get_mem_field_decl_at, get_mem_log_field_decl}
use nvmordering.LogX.Identify.{Identify}
use nvmordering.LogX.Functions.{
  LogFncs, is_log_function, is_tx_beg_function, is_tx_end_function, is_used_var,
}
use nvmordering.LogX.State.{ProgramState, logged, u32_mod, write_data, log_data}
use nvmordering.LogX.Checker.{
  CallEvent, at_field, handle_tx_beg, handle_tx_end, check_begin_function, check_post_call,
  check_bind,
}

-- What a callback is about, read off its arguments alone.
pub data Action : Type 0 where
  logs writes : ℕ → Action
  begins ends nothing : Action

-- Whether a path logs a field, and how often it begins and ends a transaction.
unfoldable pub was_logged : ℕ → List Action → Bool
was_logged nd [] = false
was_logged nd (logs m ∷ acts) = m == nd || was_logged nd acts
was_logged nd (writes m ∷ acts) = was_logged nd acts
was_logged nd (begins ∷ acts) = was_logged nd acts
was_logged nd (ends ∷ acts) = was_logged nd acts
was_logged nd (nothing ∷ acts) = was_logged nd acts

unfoldable pub count_begins : List Action → ℕ
count_begins [] = 0
count_begins (begins ∷ acts) = 1 + count_begins acts
count_begins (logs m ∷ acts) = count_begins acts
count_begins (writes m ∷ acts) = count_begins acts
count_begins (ends ∷ acts) = count_begins acts
count_begins (nothing ∷ acts) = count_begins acts

unfoldable pub count_ends : List Action → ℕ
count_ends [] = 0
count_ends (ends ∷ acts) = 1 + count_ends acts
count_ends (begins ∷ acts) = count_ends acts
count_ends (logs m ∷ acts) = count_ends acts
count_ends (writes m ∷ acts) = count_ends acts
count_ends (nothing ∷ acts) = count_ends acts

-- The callbacks that clang makes along a path.
pub data Callback : Type 0 where
  post_call : CallEvent → Callback
  bind : ℕ → Callback
  begin_function : Bool → ℕ → Callback

-- begins - ends, modulo 2 ^ 32
abbrev pub depth_of : List Action → ℕ
depth_of acts = (count_begins acts + count_ends acts * 0xffff_ffff) % u32_mod

-- The program state that a sequence of actions stands for.
pub record IsStateOf (acts : List Action) (s : ProgramState) : Type 0 where
  pub fields : (nd : ℕ) → lookup nd s.log_map ≡ (if was_logged nd acts then some logged else none)
  pub counter : s.tx_counter ≡ depth_of acts

-- What the checker should do where a path makes an action: the bugs, in their order, and the state
-- that it goes on with where it makes one.
unfoldable pub outside_bug : Bool → ℕ → List Action → List BugReportData
outside_bug use_tx nd acts =
    if use_tx && (depth_of acts == 0)
    then record { nd = nd; msg = "not logged before write:"; bug_ptr = access_outside_tx } ∷ []
    else []

unfoldable pub bugs_of : Bool → Action → List Action → List BugReportData
unfolding outside_bug was_logged
bugs_of use_tx (logs nd) acts =
    outside_bug use_tx nd acts
    ++ (if was_logged nd acts
        then record { nd = nd; msg = "log twice:"; bug_ptr = double_log } ∷ []
        else [])
bugs_of use_tx (writes nd) acts =
    outside_bug use_tx nd acts
    ++ (if was_logged nd acts
        then []
        else record { nd = nd; msg = "not logged before write:"; bug_ptr = not_log_before_write }
          ∷ [])
bugs_of use_tx begins acts = []
bugs_of use_tx ends acts = []
bugs_of use_tx nothing acts = []

-- Reports at error nodes, one after the other.
unfoldable pub report_all :
    List BugReportData → CheckerContext ProgramState → CheckerContext ProgramState
unfolding report_at_error_node
report_all [] c = c
report_all (bug ∷ bugs) c = report_all bugs (report_at_error_node bug c)

-- Whether the path gets a new state, and that state.
unfoldable pub moves : Action → List Action → Bool
unfolding was_logged
moves (logs nd) acts = not (was_logged nd acts)
moves (writes nd) acts = false
moves begins acts = true
moves ends acts = true
moves nothing acts = false

unfoldable pub moved : Action → ProgramState → ProgramState
moved (logs nd) s = record s { log_map = insert nd logged s.log_map }
moved (writes nd) s = s
moved begins s = record s { tx_counter = (s.tx_counter + 1) % u32_mod }
moved ends s = record s { tx_counter = (s.tx_counter + u32_mod - 1) % u32_mod }
moved nothing s = s

-- The calls that an action should make after the actions before it.
unfoldable pub promised :
    Bool → Action → List Action → CheckerContext ProgramState → CheckerContext ProgramState
unfolding bugs_of report_all moves moved add_transition
promised use_tx a acts c =
    let c' = report_all (bugs_of use_tx a acts) c in
    if moves a acts then add_transition (moved a c.state) c' else c'

module _ {Fnc Var : Type 0} (identify : Identify Fnc Var) (decls : Decls) (mem : Memory) (fuel : ℕ)
    (log_vars : Var) (fncs : LogFncs Fnc) (gives : List (Call ProgramState) → Bool) where
  -- The callback at a node with the state `s`.
  unfoldable pub run_callback : Callback → ProgramState → Result (CheckerContext ProgramState)
  unfolding check_post_call check_bind check_begin_function
  run_callback (post_call call) s =
      check_post_call identify decls mem fuel log_vars fncs call (context_at gives false 0 s)
  run_callback (bind loc) s =
      check_bind identify decls mem fuel log_vars fncs loc (context_at gives false 0 s)
  run_callback (begin_function top d) s =
      ok (check_begin_function identify decls fncs (context_at gives top d s)).1

module _ {Fnc Var : Type 0} (identify : Identify Fnc Var) (decls : Decls) (mem : Memory) (fuel : ℕ)
    (log_vars : Var) (fncs : LogFncs Fnc) where
  unfoldable pub log_call_action : CallEvent → Result Action
  unfolding is_used_var get_mem_log_field_decl
  log_call_action call = do
    guard (not (ltb 2 call.num_args)) fatal_error
    nd ← get_mem_log_field_decl mem decls fuel (call.arg_sval 0)
    ok (if is_used_var identify log_vars nd then logs nd else nothing)

  unfoldable pub call_action : CallEvent → Result Action
  unfolding get_func_decl is_log_function is_tx_beg_function is_tx_end_function log_call_action
  call_action call =
      let fd = get_func_decl decls call.decl in
      if fd == 0
      then ok nothing
      else (if is_log_function identify fncs fd
          then log_call_action call
          else (if is_tx_beg_function identify fncs fd
              then ok begins
              else (if is_tx_end_function identify fncs fd then ok ends else ok nothing)))

  unfoldable pub action : Callback → Result Action
  unfolding call_action get_mem_field_decl_at is_used_var
  action (post_call call) = call_action call
  action (bind loc) = do
    nd ← get_mem_field_decl_at mem decls fuel loc
    ok (if is_used_var identify log_vars nd then writes nd else nothing)
  action (begin_function top d) = ok nothing

-- What the handlers do for an action, at a node.
unfoldable pub perform :
    {Fnc : Type 0}
    → LogFncs Fnc
    → Action
    → CheckerContext ProgramState
    → Result (CheckerContext ProgramState)
unfolding at_field log_data write_data handle_tx_beg handle_tx_end
perform fncs (logs nd) c = at_field fncs log_data nd c
perform fncs (writes nd) c = at_field fncs write_data nd c
perform fncs begins c = ok (handle_tx_beg c)
perform fncs ends c = ok (handle_tx_end c)
perform fncs nothing c = ok c
