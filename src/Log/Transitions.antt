-- ===== src/Log/Transitions.antt =====
-- lib/logchecker/analyzer/LogTransitions.h: what a statement does to the abstract state. A handler
-- takes the state and the reporter and returns both, with the flag that it returns.
pub mod Rule
pub mod Step
pub mod Runs
pub mod Rules
use nvmordering.Base.{ℕ, Bool, true, false, Result, ok, ◌>>=◌, fold_result, insert, get}
use nvmordering.Clang.{Ast}
use nvmordering.Globals.Units.{get_unit_variables}
use nvmordering.Log.Lattice.{
  LogLattice, default_lattice, get_begin_tx, get_end_tx, get_logged, get_init_tx, get_init_var,
}
use nvmordering.Log.Functions.{get_tx_function}
use nvmordering.Log.StmtParser.{
  Globals, TransitionInfo, TransferFunction, write_func, log_func, tx_begin_func, tx_end_func,
  parse_stmt,
}
use nvmordering.Log.Reporter.{
  AbstractState, Reporter, update_last_location, check_double_log_bug, check_not_logged_bug,
}

abbrev pub Outcome : Type 0
Outcome = Bool × AbstractState × Reporter

module _ (g : Globals) where
  unfoldable pub handle_write : ℕ → TransitionInfo → AbstractState → Reporter → Result Outcome
  handle_write s ti state r = do
    (state', r') ← check_not_logged_bug g ti.var s (state, r)
    ok (false, state', r')

  unfoldable pub handle_log : ℕ → TransitionInfo → AbstractState → Reporter → Result Outcome
  handle_log s ti state r = do
    (state', r') ← check_double_log_bug g ti.var s (state, r)
    let state'' = insert ti.var (get_logged (get default_lattice ti.var state')) state'
    ok (true, state'', update_last_location ti.var s r')

  unfoldable pub handle_tx_begin : ℕ → TransitionInfo → AbstractState → Reporter → Result Outcome
  handle_tx_begin s ti state r = do
    tx ← get_tx_function g.functions
    ok (true, insert tx (get_begin_tx (get default_lattice tx state)) state, r)

  unfoldable pub handle_tx_end : ℕ → TransitionInfo → AbstractState → Reporter → Result Outcome
  handle_tx_end s ti state r = do
    tx ← get_tx_function g.functions
    ok (true, insert tx (get_end_tx (get default_lattice tx state)) state, r)

  -- handleStmt(S, TI, state)
  unfoldable pub dispatch :
      TransferFunction → ℕ → TransitionInfo → AbstractState → Reporter → Result Outcome
  dispatch write_func s ti state r = handle_write s ti state r
  dispatch log_func s ti state r = handle_log s ti state r
  dispatch tx_begin_func s ti state r = handle_tx_begin s ti state r
  dispatch tx_end_func s ti state r = handle_tx_end s ti state r
  dispatch _ s ti state r = ok (false, state, r)

  unfoldable pub handle_transition : ℕ → TransitionInfo → AbstractState → Reporter → Result Outcome
  unfolding dispatch
  handle_transition s ti state r = dispatch ti.transfer_func s ti state r

  -- handleStmt(S, state)
  unfoldable pub handle_stmt : Ast → ℕ → AbstractState → Reporter → Result Outcome
  handle_stmt ast s state r = do ti ← parse_stmt ast g s; handle_transition s ti state r

  -- one round of the loop in `initLatticeValues`
  unfoldable pub init_lattice_value : ℕ → AbstractState → Result AbstractState
  init_lattice_value var state = do lv ← get_init_var; ok (insert var lv state)

  unfoldable pub init_lattice_values : AbstractState → Result AbstractState
  init_lattice_values state = do
    vars ← get_unit_variables g
    state' ← fold_result init_lattice_value vars state
    tx ← get_tx_function g.functions
    lv ← get_init_tx
    ok (insert tx lv state')
