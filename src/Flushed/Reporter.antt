-- ===== src/Flushed/Reporter.antt =====
-- lib/flushedchecker/analyzer/FlushedBugReporter.h: the bugs that are found. Nothing inserts into
-- `bugged_vars`.
use nvmordering.Base.{
  ℕ, not, if◌then◌else◌, List, [], ◌∷◌, ◌++◌, Map, insert, get, touch, has_key, PtrSet, member,
}
use nvmordering.Flushed.Lattice.{FlushedLattice, new_lattice, is_pfence}

pub record BugData : Type 0 where
  pub field_stmt : ℕ
  pub tracked_stmt : ℕ
  pub field_var : ℕ
  pub tracked_var : ℕ

pub record Reporter : Type 0 where
  pub bug_data_list : List BugData
  pub last_location_map : Map ℕ
  pub bugged_vars : PtrSet

abbrev pub AbstractState : Type 0
AbstractState = Map FlushedLattice

unfoldable pub init_unit : Reporter → Reporter
init_unit r = record r { last_location_map = []; bugged_vars = [] }

unfoldable pub update_last_location : ℕ → ℕ → Reporter → Reporter
update_last_location var s r = record r { last_location_map = insert var s r.last_location_map }

unfoldable pub add_as_bug : ℕ → ℕ → ℕ → ℕ → Reporter → Reporter
add_as_bug field_stmt tracked_stmt field_var tracked_var r = record r {
  bug_data_list =
      r.bug_data_list
      ++ record {
        field_stmt = field_stmt;
        tracked_stmt = tracked_stmt;
        field_var = field_var;
        tracked_var = tracked_var;
      }
        ∷ [];
}

-- null where the map has no entry
unfoldable pub get_last_location : ℕ → Reporter → ℕ
get_last_location var r =
    if has_key var r.last_location_map then get 0 var r.last_location_map else 0

unfoldable pub check_bug : ℕ → ℕ → ℕ → AbstractState × Reporter → AbstractState × Reporter
unfolding get_last_location add_as_bug
check_bug field_var tracked_var field_stmt (state, r) =
    if member field_var r.bugged_vars then (state, r) else (
      touch new_lattice tracked_var state,
      if not (is_pfence (get new_lattice tracked_var state))
          then add_as_bug field_stmt (get_last_location tracked_var r) field_var tracked_var r
          else r,
    )
