-- ===== src/Flushed/Transitions.antt =====
-- lib/flushedchecker/analyzer/FlushedTransitions.h: what a statement does to the abstract state. A
-- handler takes the state and the reporter and returns both, with the flag that it returns.
pub mod Step
pub mod Rules
use nvmordering.Base.{
  ℕ, Bool, true, false, ◌||◌, if◌then◌else◌, Result, ok, ◌>>=◌, List, [], ◌∷◌, PtrSet, insert, get,
}
use nvmordering.Clang.{Ast}
use nvmordering.Globals.Units.{get_unit_variables}
use nvmordering.Flushed.Lattice.{
  FlushedLattice, new_lattice, get_write, get_flush, get_pfence, is_flush,
}
use nvmordering.Flushed.StmtParser.{
  Globals, TransitionInfo, TransferFunction, write_func, flush_func, flush_fence_func, pfence_func,
  field_access, tracked_variable_access, no_access, is_pfence, parse_stmt,
}
use nvmordering.Flushed.Reporter.{AbstractState, Reporter, check_bug, update_last_location}

abbrev pub Outcome : Type 0
Outcome = Bool × AbstractState × Reporter

-- both variables of `checkBug` are getTrackedVariable()
unfoldable pub handle_write : ℕ → TransitionInfo → AbstractState → Reporter → Outcome
handle_write s ti state r =
    let var = ti.tracked_variable in
    let checked = check_bug var var s (state, r) in
    elim ti.access_type [
      | field_access ↦ (true, checked.0, checked.1)
      | tracked_variable_access ↦ (
        true,
        insert var (get_write (get new_lattice var state)) state,
        update_last_location var s r,
      )
      | no_access ↦ (true, state, r)
    ]

-- The loop of `handleFence` over the entries, each of which it assigns in place.
unfoldable pub fence_all : ℕ → AbstractState → Reporter → Outcome
fence_all s [] r = (false, [], r)
fence_all s ((var, lv) ∷ rest) r =
    let changed = is_flush lv in
    let (changed', rest', r') =
      fence_all s rest (if changed then update_last_location var s r else r) in
    (changed || changed', (var, if changed then get_pfence lv else lv) ∷ rest', r')

unfoldable pub handle_fence : ℕ → TransitionInfo → AbstractState → Reporter → Outcome
handle_fence s ti state r = fence_all s state r

unfoldable pub handle_flush : ℕ → TransitionInfo → AbstractState → Reporter → Outcome
unfolding is_pfence
handle_flush s ti state r =
    let var = ti.tracked_variable in
    let lv = get new_lattice var state in
    elim ti.access_type [
      | tracked_variable_access ↦ (
        true,
        insert var (if is_pfence ti then get_pfence lv else get_flush lv) state,
        update_last_location var s r,
      )
      | _ ↦ (false, state, r)
    ]

unfoldable pub dispatch : TransferFunction → ℕ → TransitionInfo → AbstractState → Reporter → Outcome
dispatch write_func s ti state r = handle_write s ti state r
dispatch flush_func s ti state r = handle_flush s ti state r
dispatch flush_fence_func s ti state r = handle_flush s ti state r
dispatch pfence_func s ti state r = handle_fence s ti state r
dispatch _ s ti state r = (false, state, r)

-- handleStmt(S, TI, state)
unfoldable pub handle_transition : ℕ → TransitionInfo → AbstractState → Reporter → Outcome
unfolding dispatch
handle_transition s ti state r = dispatch ti.transfer_func s ti state r

-- handleStmt(S, state)
unfoldable pub handle_stmt : Ast → Globals → ℕ → AbstractState → Reporter → Outcome
handle_stmt ast g s state r = handle_transition s (parse_stmt ast g s) state r

-- The loop of `initLatticeValues`.
unfoldable pub init_all : PtrSet → AbstractState → AbstractState
init_all [] state = state
init_all (var ∷ vars) state = init_all vars (insert var new_lattice state)

unfoldable pub init_lattice_values : Globals → AbstractState → Result AbstractState
init_lattice_values g state = do vars ← get_unit_variables g; ok (init_all vars state)
