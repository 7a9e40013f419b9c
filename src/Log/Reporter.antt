-- ===== src/Log/Reporter.antt =====
-- lib/logchecker/analyzer/LogBugReporter.h: the bugs that are found. The containers behind the
-- pointers are fields; `initUnit` gives the last two anew.
use nvmordering.Base.{
  ℕ, not, if◌then◌else◌, Result, ok, ◌>>=◌, List, [], ◌∷◌, ◌++◌, Map, insert, get, touch, PtrSet,
  add, member,
}
use nvmordering.Log.Lattice.{LogLattice, default_lattice, is_logged, is_in_tx}
use nvmordering.Log.Functions.{get_tx_function}
use nvmordering.Log.StmtParser.{Globals}

pub data BugType : Type 0 where
  double_log outside_tx not_logged : BugType

-- `log_stmt` is null but for a double log
pub record BugData : Type 0 where
  pub bug_stmt : ℕ
  pub log_stmt : ℕ
  pub current_var : ℕ
  pub bug_type : BugType

abbrev pub get_double_log_bug : ℕ → ℕ → ℕ → BugData
get_double_log_bug bug_stmt log_stmt current_var = record {
  bug_stmt = bug_stmt;
  log_stmt = log_stmt;
  current_var = current_var;
  bug_type = double_log;
}

abbrev pub get_outside_tx : ℕ → ℕ → BugData
get_outside_tx bug_stmt current_var = record {
  bug_stmt = bug_stmt;
  log_stmt = 0;
  current_var = current_var;
  bug_type = outside_tx;
}

abbrev pub get_not_logged : ℕ → ℕ → BugData
get_not_logged bug_stmt current_var = record {
  bug_stmt = bug_stmt;
  log_stmt = 0;
  current_var = current_var;
  bug_type = not_logged;
}

pub record Reporter : Type 0 where
  pub bug_data_list : List BugData
  pub last_location_map : Map ℕ
  pub bugged_vars : PtrSet

abbrev pub AbstractState : Type 0
AbstractState = Map LogLattice

unfoldable pub init_unit : Reporter → Reporter
init_unit r = record r { last_location_map = []; bugged_vars = [] }

unfoldable pub update_last_location : ℕ → ℕ → Reporter → Reporter
update_last_location var s r = record r { last_location_map = insert var s r.last_location_map }

-- What the three checks do with a bug: `buggedVars->insert` and `push_back`.
unfoldable pub add_bug : BugData → Reporter → Reporter
add_bug bug r = record r {
  bugged_vars = add bug.current_var r.bugged_vars;
  bug_data_list = r.bug_data_list ++ bug ∷ [];
}

module _ (g : Globals) where
  -- A check returns the state, in which `state[...]` has made entries, and the reporter.
  unfoldable pub check_outside_tx_bug :
      ℕ → ℕ → AbstractState × Reporter → Result (AbstractState × Reporter)
  check_outside_tx_bug current_var bug_stmt (state, r) = do
    tx ← get_tx_function g.functions
    ok (
      touch default_lattice tx state,
      if is_in_tx (get default_lattice tx state)
          then r
          else add_bug (get_outside_tx bug_stmt current_var) r,
    )

  -- The part of checkDoubleLogBug behind the call of checkOutsideTxBug.
  unfoldable pub check_logged : ℕ → ℕ → AbstractState × Reporter → AbstractState × Reporter
  check_logged current_var bug_stmt (state, r) =
      let state' = touch default_lattice current_var state in
      if is_logged (get default_lattice current_var state)
      then (
        state',
        record (add_bug
            (get_double_log_bug bug_stmt (get 0 current_var r.last_location_map) current_var) r) {
              last_location_map = touch 0 current_var r.last_location_map;
            },
      )
      else (state', r)

  unfoldable pub check_double_log_bug :
      ℕ → ℕ → AbstractState × Reporter → Result (AbstractState × Reporter)
  check_double_log_bug current_var bug_stmt (state, r) =
      if member current_var r.bugged_vars
      then ok (state, r)
      else (check_outside_tx_bug current_var bug_stmt (state, r) >>= λ sr.
          ok (check_logged current_var bug_stmt sr))

  -- The part of checkNotLoggedBug behind the call of checkOutsideTxBug.
  unfoldable pub check_unlogged : ℕ → ℕ → AbstractState × Reporter → AbstractState × Reporter
  check_unlogged current_var bug_stmt (state, r) =
      let state' = touch default_lattice current_var state in
      if not (is_logged (get default_lattice current_var state))
      then (state', add_bug (get_not_logged bug_stmt current_var) r)
      else (state', r)

  unfoldable pub check_not_logged_bug :
      ℕ → ℕ → AbstractState × Reporter → Result (AbstractState × Reporter)
  check_not_logged_bug current_var bug_stmt (state, r) =
      if member current_var r.bugged_vars
      then ok (state, r)
      else (check_outside_tx_bug current_var bug_stmt (state, r) >>= λ sr.
          ok (check_unlogged current_var bug_stmt sr))
