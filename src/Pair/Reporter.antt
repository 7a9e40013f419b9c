-- ===== src/Pair/Reporter.antt =====
-- lib/pairchecker/analyzer/PairBugReporter.h: the bugs that are found. The containers behind the
-- pointers `bugDataList`, `varToPair`, `lastLocationMap` and `buggedVars` are fields; `initUnit`
-- gives the last three anew, and the list of bugs grows over all units.
pub mod Partners
pub mod Checks
use nvmordering.Base.{
  ℕ, Bool, true, false, ◌==◌, if◌then◌else◌, Result, ok, assert_failed, guard, ◌>>=◌, ◌>>◌,
  fold_result, List, [], ◌∷◌, ◌++◌, Map, insert, get, touch, has_key, PtrSet, add, member,
}
use nvmordering.Globals.Units.{is_used_var_unit}
use nvmordering.Pair.Lattice.{PairLattice, default_lattice, is_write_flush}
use nvmordering.Pair.Variables.{get_pair_info_set, load_pair_info, get_pair_nd}
use nvmordering.Pair.StmtParser.{Globals}

pub record BugData : Type 0 where
  pub bug_stmt : ℕ
  pub pair_stmt : ℕ
  pub current_var : ℕ
  pub pair_var : ℕ

pub record Reporter : Type 0 where
  pub bug_data_list : List BugData
  pub var_to_pair : Map PtrSet
  pub last_location_map : Map ℕ
  pub bugged_vars : PtrSet

abbrev pub AbstractState : Type 0
AbstractState = Map PairLattice

unfoldable pub init_unit : Reporter → Reporter
init_unit r = record r { var_to_pair = []; last_location_map = []; bugged_vars = [] }

-- updateLastLocation(var, S)
unfoldable pub update_last_location : ℕ → ℕ → Reporter → Reporter
update_last_location var s r = record r { last_location_map = insert var s r.last_location_map }

unfoldable pub add_as_bug : ℕ → ℕ → ℕ → ℕ → Reporter → Reporter
add_as_bug bug_stmt pair_stmt current_var pair_var r = record r {
  bugged_vars = add pair_var (add current_var r.bugged_vars);
  bug_data_list =
      r.bug_data_list
      ++ record {
        bug_stmt = bug_stmt;
        pair_stmt = pair_stmt;
        current_var = current_var;
        pair_var = pair_var;
      }
        ∷ [];
}

module _ (g : Globals) where
  -- one round of the loop in `getPairSet`
  unfoldable pub add_pair : ℕ → ℕ → PtrSet → Result PtrSet
  add_pair nd pi pair_set = do
    info ← load_pair_info g.variables pi
    pair_nd ← get_pair_nd info nd
    used ← is_used_var_unit g pair_nd
    ok (if used then add pair_nd pair_set else pair_set)

  -- getPairSet: the fields of the unit that are in a pair with `nd`, kept in `varToPair`
  unfoldable pub get_pair_set : ℕ → Reporter → Result (PtrSet × Reporter)
  get_pair_set nd r = do
    infos ← get_pair_info_set g.variables nd
    pair_set ← fold_result (add_pair nd) infos (get [] nd r.var_to_pair)
    ok (pair_set, record r { var_to_pair = insert nd pair_set r.var_to_pair })

  -- one round of the loop in `checkBug`; `state[pairVar]` makes an entry where there is none
  unfoldable pub check_pair :
      ℕ → ℕ → ℕ → AbstractState × Reporter → Result (AbstractState × Reporter)
  check_pair current_var bug_stmt pair_var (state, r) =
      let state' = touch default_lattice pair_var state in
      if is_write_flush (get default_lattice pair_var state)
      then (do
        guard (has_key pair_var r.last_location_map) assert_failed
        let pair_stmt = get 0 pair_var r.last_location_map
        ok (state', add_as_bug bug_stmt pair_stmt current_var pair_var r))
      else ok (state', r)

  unfoldable pub check_bug : ℕ → ℕ → AbstractState × Reporter → Result (AbstractState × Reporter)
  check_bug current_var bug_stmt (state, r) =
      if member current_var r.bugged_vars then ok (state, r) else (do
        (pair_set, r') ← get_pair_set current_var r
        fold_result (check_pair current_var bug_stmt) pair_set (state, r'))

  -- updateLastLocation(var, S, state), the overload for a write
  unfoldable pub update_and_check :
      ℕ → ℕ → AbstractState × Reporter → Result (AbstractState × Reporter)
  update_and_check var s (state, r) = check_bug var s (state, update_last_location var s r)
