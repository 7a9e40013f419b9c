-- ===== src/Pair/Transitions.antt =====
-- lib/pairchecker/analyzer/PairTransitions.h: what a statement does to the abstract state. A
-- handler takes the state and the reporter and returns both, with the flag that it returns.
pub mod Values
pub mod Rule
pub mod Step
pub mod Runs
pub mod Life
pub mod Ordering
pub mod Start
use nvmordering.Base.{
  ℕ, Bool, true, false, ◌&&◌, ◌||◌, if◌then◌else◌, Result, ok, ◌>>=◌, ◌>>◌, fold_result, List, [],
  ◌∷◌, Map, insert, get, touch,
}
use nvmordering.Clang.{Ast}
use nvmordering.Globals.Units.{get_unit_variables}
use nvmordering.Pair.Lattice.{
  PairLattice, default_lattice, get_init, get_write, get_flush, get_pfence, get_vfence, has_dcl,
  has_scl, is_flush, is_write, is_write_dcl, is_write_flush_dcl,
}
use nvmordering.Pair.Variables.{get_dscl_info}
use nvmordering.Pair.StmtParser.{
  Globals, TransitionInfo, TransferFunction, write_func, flush_func, flush_fence_func, vfence_func,
  pfence_func, is_pfence, parse_stmt,
}
use nvmordering.Pair.Reporter.{AbstractState, Reporter, update_last_location, update_and_check}

abbrev pub Outcome : Type 0
Outcome = Bool × AbstractState × Reporter

-- What the loop body of `handleFence` makes of a value, and whether it changed it. The second test
-- reads the value that the first one wrote.
unfoldable pub fence_value : Bool → PairLattice → PairLattice × Bool
unfolding has_dcl is_flush get_pfence has_scl is_write get_vfence
fence_value pf lv =
    let first = pf && (has_dcl lv && is_flush lv) in
    let lv' = if first then get_pfence lv else lv in
    let second = has_scl lv' && is_write lv' in
    (if second then get_vfence lv' else lv', first || second)

-- The loop of `handleFence` over the entries, each of which it assigns in place.
unfoldable pub fence_all : ℕ → Bool → AbstractState → Reporter → Outcome
unfolding update_last_location
fence_all s pf [] r = (false, [], r)
fence_all s pf ((var, lv) ∷ rest) r =
    let (lv', changed) = fence_value pf lv in
    let (changed', rest', r') =
      fence_all s pf rest (if changed then update_last_location var s r else r) in
    (changed || changed', (var, lv') ∷ rest', r')

unfoldable pub handle_fence : ℕ → TransitionInfo → AbstractState → Reporter → Outcome
unfolding is_pfence
handle_fence s ti state r = fence_all s (is_pfence ti) state r

-- What `handleFlush` makes of the value, and whether it changed it.
unfoldable pub flush_value : Bool → PairLattice → PairLattice × Bool
unfolding has_dcl is_write_flush_dcl get_pfence is_write_dcl get_flush get_vfence
flush_value pf lv =
    if pf && (has_dcl lv && is_write_flush_dcl lv)
    then (get_vfence (get_pfence lv), true)
    else (let flushed = has_dcl lv && is_write_dcl lv in
        let lv' = if flushed then get_flush lv else lv in
        (if pf then get_vfence lv' else lv', flushed || pf))

unfoldable pub handle_flush : ℕ → TransitionInfo → AbstractState → Reporter → Outcome
unfolding is_pfence
handle_flush s ti state r =
    let var = ti.var in
    let (lv', changed) = flush_value (is_pfence ti) (get default_lattice var state) in
    (changed, insert var lv' state, if changed then update_last_location var s r else r)

module _ (g : Globals) where
  unfoldable pub handle_write : ℕ → TransitionInfo → AbstractState → Reporter → Result Outcome
  handle_write s ti state r = do
    let var = ti.var
    let state' = insert var (get_write (get default_lattice var state)) state
    (state'', r') ← update_and_check g var s (state', r)
    ok (true, state'', r')

  unfoldable pub dispatch :
      TransferFunction → ℕ → TransitionInfo → AbstractState → Reporter → Result Outcome
  dispatch write_func s ti state r = handle_write s ti state r
  dispatch flush_func s ti state r = ok (handle_flush s ti state r)
  dispatch flush_fence_func s ti state r = ok (handle_flush s ti state r)
  dispatch vfence_func s ti state r = ok (handle_fence s ti state r)
  dispatch pfence_func s ti state r = ok (handle_fence s ti state r)
  dispatch _ s ti state r = ok (false, state, r)

  -- handleStmt(S, TI, state)
  unfoldable pub handle_transition : ℕ → TransitionInfo → AbstractState → Reporter → Result Outcome
  unfolding dispatch
  handle_transition s ti state r = dispatch ti.transfer_func s ti state r

  -- handleStmt(S, state)
  unfoldable pub handle_stmt : Ast → ℕ → AbstractState → Reporter → Result Outcome
  handle_stmt ast s state r = do ti ← parse_stmt ast g s; handle_transition s ti state r

  -- one round of the loop in `initLatticeValues`
  unfoldable pub init_lattice_value : ℕ → AbstractState → Result AbstractState
  init_lattice_value used_var state = do
    dscl ← get_dscl_info g.variables used_var
    lv ← get_init dscl.is_dcl dscl.is_scl
    ok (insert used_var lv state)

  unfoldable pub init_lattice_values : AbstractState → Result AbstractState
  init_lattice_values state = do
    vars ← get_unit_variables g
    fold_result init_lattice_value vars state
