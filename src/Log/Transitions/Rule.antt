-- ===== src/Log/Transitions/Rule.antt =====
-- lib/logchecker/analyzer/LogTransitions.h: what one transition has to do, as a rule on the values and
-- the reports.
use nvmordering.Base.{
  ℕ, Bool, true, false, ◌&&◌, ◌||◌, not, ◌==◌, if◌then◌else◌, ◌≡◌, refl, List, [], ◌∷◌, ◌++◌, get,
  member, arith,
}
use nvmordering.Log.Lattice.{
  LogLattice, default_lattice, get_begin_tx, get_end_tx, get_logged, is_in_tx, is_logged,
}
use nvmordering.Log.StmtParser.{TransferFunction, write_func, log_func, tx_begin_func, tx_end_func}
use nvmordering.Log.Reporter.{
  AbstractState, BugData, BugType, Reporter, double_log, outside_tx, not_logged, get_double_log_bug,
  get_outside_tx, get_not_logged,
}
use nvmordering.Log.Transitions.{Outcome}

abbrev bug_no : BugType → ℕ
bug_no double_log = 0
bug_no outside_tx = 1
bug_no not_logged = 2

-- Whether two entries of the list of bugs are the same.
abbrev pub same_bug : BugData → BugData → Bool
same_bug a b =
    a.bug_stmt == b.bug_stmt
    && (a.log_stmt == b.log_stmt
        && (a.current_var == b.current_var && bug_no a.bug_type == bug_no b.bug_type))

unfoldable pub reported : BugData → List BugData → Bool
reported b [] = false
reported b (a ∷ bugs) = same_bug a b || reported b bugs

pub reported-append :
    (b : BugData) (bugs cs : List BugData)
    → reported b (bugs ++ cs) ≡ (reported b bugs || reported b cs)
unfolding reported
reported-append b [] cs = refl
reported-append b (a ∷ bugs) cs = ground (arith, reported-append b bugs cs)

abbrev pub value : AbstractState → ℕ → LogLattice
value state x = get default_lattice x state

-- What a transition makes of a value, its own variable's or the one of the transactions.
unfoldable pub value_after : TransferFunction → Bool → Bool → LogLattice → LogLattice
value_after log_func own tx v = if own then get_logged v else v
value_after tx_begin_func own tx v = if tx then get_begin_tx v else v
value_after tx_end_func own tx v = if tx then get_end_tx v else v
value_after _ own tx v = v

-- Whether a transition breaks a rule: a field is written or logged inside a transaction, written
-- when it is logged, and logged when it is not.
unfoldable pub is_bug : TransferFunction → Bool → Bool → Bool
is_bug write_func in_tx logged = not in_tx || not logged
is_bug log_func in_tx logged = not in_tx || logged
is_bug _ in_tx logged = false

-- The reports that a transition at `s` has to add, for a variable that is not flagged.
unfoldable pub is_report : TransferFunction → ℕ → ℕ → Bool → Bool → ℕ → BugData → Bool
is_report write_func s x in_tx logged location b =
    (not in_tx && same_bug (get_outside_tx s x) b)
    || (not logged && same_bug (get_not_logged s x) b)
is_report log_func s x in_tx logged location b =
    (not in_tx && same_bug (get_outside_tx s x) b)
    || (logged && same_bug (get_double_log_bug s location x) b)
is_report _ s x in_tx logged location b = false

abbrev is_log : TransferFunction → Bool
is_log log_func = true
is_log _ = false

pub record IsLogStep (tx s : ℕ) (f : TransferFunction) (x : ℕ) (state : AbstractState)
    (r : Reporter) (out : Outcome) : Type 0 where
  pub values : (j : ℕ) → value out.1 j ≡ value_after f (x == j) (tx == j) (value state j)
  pub reports :
      (b : BugData)
      → reported b out.2.bug_data_list ≡ (
          reported b r.bug_data_list
          || (not (member x r.bugged_vars)
              && is_report f s x
                  (is_in_tx (value state tx))
                  (is_logged (value state x))
                  (get 0 x r.last_location_map)
                  b))
  pub flagged :
      (y : ℕ)
      → member y out.2.bugged_vars ≡ (
          member y r.bugged_vars
          || (x == y && is_bug f (is_in_tx (value state tx)) (is_logged (value state x))))
  pub located :
      (y : ℕ)
      → get 0 y out.2.last_location_map
        ≡ (if is_log f && x == y then s else get 0 y r.last_location_map)
