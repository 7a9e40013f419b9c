-- ===== src/Log/Transitions/Step.antt =====
-- One transition of LogTransitions.h: the values, the reports, the flagged fields and the locations
-- of the log calls behind it.
use nvmordering.Base.{
  ℕ, true, false, ==_iff, if◌then◌else◌, ◌≡◌, refl, ok, [], ◌∷◌, get, get-insert, get-touch, insert,
  touch, member, member-add, arith, Bool-cases, inl, inr,
}
use nvmordering.Log.Lattice.{default_lattice, get_begin_tx, get_end_tx, get_logged, is_in_tx}
use nvmordering.Log.Functions.{get_tx_function}
use nvmordering.Log.StmtParser.{
  Globals, TransitionInfo, TransferFunction, write_func, log_func, tx_begin_func, tx_end_func,
  callee_func, no_func,
}
use nvmordering.Log.Reporter.{
  AbstractState, Reporter, get_double_log_bug, get_outside_tx, get_not_logged, add_bug,
  update_last_location, check_outside_tx_bug, check_logged, check_unlogged, check_double_log_bug,
  check_not_logged_bug,
}
use nvmordering.Log.Transitions.{
  Outcome, handle_write, handle_log, handle_tx_begin, handle_tx_end, dispatch, handle_transition,
}
use nvmordering.Log.Transitions.Rule.{
  reported, reported-append, value, value_after, is_bug, is_report, IsLogStep,
}

module _ (g : Globals) (tx : ℕ) (is_tx : get_tx_function g.functions ≡ ok tx) (s : ℕ)
    (state : AbstractState) (r : Reporter) where
  write-IsLogStep :
      (ti : TransitionInfo)
      → (out : Outcome) × (handle_write g s ti state r ≡ ok out)
        × IsLogStep tx s write_func ti.var state r out
  unfolding handle_write check_not_logged_bug check_outside_tx_bug check_unlogged value_after
      is_report is_bug reported member add_bug
  write-IsLogStep ti =
      let x = ti.var in
      elim (Bool-cases (member x r.bugged_vars)) [
        | inl old ↦ (
          (false, state, r),
          rw old refl,
          record {
            values = λ j. refl;
            reports = λ b. rw old (ground arith);
            flagged = λ y. ground (arith, ==_iff x y);
            located = λ y. refl;
          },
        )
        | inr new ↦
            let r1 = if is_in_tx (value state tx) then r else add_bug (get_outside_tx s x) r in
            let state1 = touch default_lattice tx state in
            let out = check_unlogged g x s (state1, r1) in
            (
              (false, out.0, out.1),
              rw (new, is_tx) refl,
              record {
                values = λ j. ground (
                  arith,
                  get-touch default_lattice j tx state,
                  get-touch default_lattice j x state1,
                );
                reports = λ b. ground (
                  arith,
                  get-touch default_lattice x tx state,
                  reported-append b r.bug_data_list (get_outside_tx s x ∷ []),
                  reported-append b r1.bug_data_list (get_not_logged s x ∷ []),
                );
                flagged = λ y. ground (
                  arith,
                  get-touch default_lattice x tx state,
                  member-add y x r.bugged_vars,
                  member-add y x r1.bugged_vars,
                );
                located = λ y. ground (arith, get-touch default_lattice x tx state);
              },
            )
      ]

  log-IsLogStep :
      (ti : TransitionInfo)
      → (out : Outcome) × (handle_log g s ti state r ≡ ok out)
        × IsLogStep tx s log_func ti.var state r out
  unfolding handle_log check_double_log_bug check_outside_tx_bug check_logged value_after is_report
      is_bug reported member add_bug update_last_location
  log-IsLogStep ti =
      let x = ti.var in
      elim (Bool-cases (member x r.bugged_vars)) [
        | inl old ↦ (
          (true, insert x (get_logged (value state x)) state, update_last_location x s r),
          rw old refl,
          record {
            values = λ j. ground (
              arith,
              get-insert default_lattice j x (get_logged (value state x)) state,
              ==_iff x j,
            );
            reports = λ b. rw old (ground arith);
            flagged = λ y. ground (arith, ==_iff x y);
            located = λ y. ground (arith, get-insert 0 y x s r.last_location_map);
          },
        )
        | inr new ↦
            let r1 = if is_in_tx (value state tx) then r else add_bug (get_outside_tx s x) r in
            let state1 = touch default_lattice tx state in
            let mid = check_logged g x s (state1, r1) in
            let touched = get-touch default_lattice x tx state in
            (
              (true, insert x (get_logged (value mid.0 x)) mid.0, update_last_location x s mid.1),
              rw (new, is_tx) refl,
              record {
                values = λ j. ground (
                  arith,
                  ==_iff x j,
                  get-insert default_lattice j x (get_logged (value mid.0 x)) mid.0,
                  get-touch default_lattice j tx state,
                  get-touch default_lattice j x state1,
                );
                reports = λ b. ground (
                  arith,
                  touched,
                  reported-append b r.bug_data_list (get_outside_tx s x ∷ []),
                  reported-append b r1.bug_data_list
                      (get_double_log_bug s (get 0 x r.last_location_map) x ∷ []),
                );
                flagged = λ y.
                    ground
                      (arith, touched, member-add y x r.bugged_vars, member-add y x r1.bugged_vars);
                located = λ y. ground (
                  arith,
                  touched,
                  get-insert 0 y x s mid.1.last_location_map,
                  get-touch 0 y x r.last_location_map,
                );
              },
            )
      ]

  begin-IsLogStep :
      (ti : TransitionInfo)
      → (out : Outcome) × (handle_tx_begin g s ti state r ≡ ok out)
        × IsLogStep tx s tx_begin_func ti.var state r out
  unfolding handle_tx_begin value_after is_report is_bug
  begin-IsLogStep ti = (
    (true, insert tx (get_begin_tx (value state tx)) state, r),
    rw is_tx refl,
    record {
      values = λ j. ground (
        arith,
        get-insert default_lattice j tx (get_begin_tx (value state tx)) state,
        ==_iff tx j,
      );
      reports = λ b. ground arith;
      flagged = λ y. ground arith;
      located = λ y. refl;
    },
  )

  end-IsLogStep :
      (ti : TransitionInfo)
      → (out : Outcome) × (handle_tx_end g s ti state r ≡ ok out)
        × IsLogStep tx s tx_end_func ti.var state r out
  unfolding handle_tx_end value_after is_report is_bug
  end-IsLogStep ti = (
    (true, insert tx (get_end_tx (value state tx)) state, r),
    rw is_tx refl,
    record {
      values = λ j.
          ground (
            arith,
            get-insert default_lattice j tx (get_end_tx (value state tx)) state,
            ==_iff tx j,
          );
      reports = λ b. ground arith;
      flagged = λ y. ground arith;
      located = λ y. refl;
    },
  )

  dispatch-IsLogStep :
      (f : TransferFunction) (ti : TransitionInfo)
      → (out : Outcome) × (dispatch g f s ti state r ≡ ok out) × IsLogStep tx s f ti.var state r out
  unfolding dispatch value_after is_report is_bug
  dispatch-IsLogStep write_func ti = write-IsLogStep ti
  dispatch-IsLogStep log_func ti = log-IsLogStep ti
  dispatch-IsLogStep tx_begin_func ti = begin-IsLogStep ti
  dispatch-IsLogStep tx_end_func ti = end-IsLogStep ti
  dispatch-IsLogStep callee_func ti = (
    (false, state, r),
    refl,
    record {
      values = λ j. refl;
      reports = λ b. ground arith;
      flagged = λ y. ground arith;
      located = λ y. refl;
    },
  )
  dispatch-IsLogStep no_func ti = (
    (false, state, r),
    refl,
    record {
      values = λ j. refl;
      reports = λ b. ground arith;
      flagged = λ y. ground arith;
      located = λ y. refl;
    },
  )

  -- Where a function begins transactions, a transition never ends in a fault. It changes the values
  -- as `value_after` says, reports what `is_report` says of a variable that is not flagged and
  -- nothing else, flags its variable if a rule is broken, and only a log call moves a location.
  pub handle_transition-IsLogStep :
      (ti : TransitionInfo)
      → (out : Outcome) × (handle_transition g s ti state r ≡ ok out)
        × IsLogStep tx s ti.transfer_func ti.var state r out
  unfolding handle_transition
  handle_transition-IsLogStep ti = dispatch-IsLogStep ti.transfer_func ti
