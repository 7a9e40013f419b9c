-- ===== src/Log/Transitions/Rules.antt =====
-- The rules of the log checker on straight-line code.
use nvmordering.Base.{ℕ, true, false, ◌≡◌, ◌≢◌, ◌⊎◌, inl, inr, ok, List, map, get, member, arith}
use nvmordering.Clang.{Ast}
use nvmordering.Log.Lattice.{signed_lt, is_in_tx, is_logged}
use nvmordering.Log.Functions.{is_used_var}
use nvmordering.Log.StmtParser.{Globals, write_func, log_func}
use nvmordering.Log.Reporter.{
  AbstractState, BugData, Reporter, get_not_logged, get_double_log_bug, get_outside_tx,
}
use nvmordering.Log.Transitions.{Outcome, handle_stmt}
use nvmordering.Log.Transitions.Rule.{value, reported, is_report, is_bug, same_bug}
use nvmordering.Log.Transitions.Runs.{
  IsCollected, transition_of, run_stmts, depth_after, logged_in, run_stmts_lem,
  handle_stmt-IsLogStep,
}

same_bug_refl : (b : BugData) → same_bug b b ≡ true
same_bug_refl b = ground arith

field_is_no_tx :
    (g : Globals) (c : IsCollected g) (x : ℕ) → is_used_var g.variables x ≡ true → x ≢ c.tx
field_is_no_tx g c x used e = cc (e, used, c.no_field)

module _ (ast : Ast) (g : Globals) (c : IsCollected g) (x : ℕ)
    (used : is_used_var g.variables x ≡ true) (ss : List ℕ) (s : ℕ) (state : AbstractState)
    (r : Reporter) where
  -- A write of a field that was logged on the line before it, inside a transaction, ends without a
  -- fault and reports nothing.
  pub logged-not_reported :
      transition_of ast g s ≡ record { transfer_func = write_func; var = x }
      → logged_in x (map (transition_of ast g) ss) ≡ true
      → signed_lt 0 (depth_after (map (transition_of ast g) ss) (value state c.tx).tx) ≡ true
      → (mid : AbstractState × Reporter) × (run_stmts ast g ss (state, r) ≡ ok mid)
        × (out : Outcome) × (handle_stmt g ast s mid.0 mid.1 ≡ ok out)
        × ((b : BugData) → reported b out.2.bug_data_list ≡ reported b mid.1.bug_data_list)
  unfolding is_in_tx is_report
  logged-not_reported w logs inside =
      let (mid, runs, depth, log) = run_stmts_lem ast g c ss state r in
      let (out, steps, step) = handle_stmt-IsLogStep ast g c s mid.0 mid.1 in
      let nx = field_is_no_tx g c x used in
      (mid, runs, out, steps, λ b. ground (arith, rw w at step.reports b, depth, log x nx))

  -- A write of a field that is not logged before it ends without a fault, and it is reported as
  -- such, unless the field is flagged by then.
  pub unlogged-reported :
      transition_of ast g s ≡ record { transfer_func = write_func; var = x }
      → is_logged (value state x) ≡ false
      → logged_in x (map (transition_of ast g) ss) ≡ false
      → (mid : AbstractState × Reporter) × (run_stmts ast g ss (state, r) ≡ ok mid)
        × (out : Outcome) × (handle_stmt g ast s mid.0 mid.1 ≡ ok out)
        × ((member x mid.1.bugged_vars ≡ true)
            ⊎ (reported (get_not_logged s x) out.2.bug_data_list ≡ true))
  unfolding is_report
  unlogged-reported w start logs =
      let (mid, runs, depth, log) = run_stmts_lem ast g c ss state r in
      let (out, steps, step) = handle_stmt-IsLogStep ast g c s mid.0 mid.1 in
      let nx = field_is_no_tx g c x used in
      (mid, runs, out, steps, ground (arith, (rw w at step.reports (get_not_logged s x)), log x nx))

  -- A second log call of a field ends without a fault, and it is reported with the location of the
  -- last one, unless the field is flagged by then.
  pub relogged-reported :
      transition_of ast g s ≡ record { transfer_func = log_func; var = x }
      → logged_in x (map (transition_of ast g) ss) ≡ true
      → (mid : AbstractState × Reporter) × (run_stmts ast g ss (state, r) ≡ ok mid)
        × (out : Outcome) × (handle_stmt g ast s mid.0 mid.1 ≡ ok out)
        × ((member x mid.1.bugged_vars ≡ true)
            ⊎ (reported
                  (get_double_log_bug s (get 0 x mid.1.last_location_map) x)
                  out.2.bug_data_list
                ≡ true))
  unfolding is_report
  relogged-reported w logs =
      let (mid, runs, depth, log) = run_stmts_lem ast g c ss state r in
      let (out, steps, step) = handle_stmt-IsLogStep ast g c s mid.0 mid.1 in
      let nx = field_is_no_tx g c x used in
      let b = get_double_log_bug s (get 0 x mid.1.last_location_map) x in
      (mid, runs, out, steps, ground (arith, (rw w at step.reports b), log x nx))

  -- A write or a log call outside a transaction ends without a fault, and it is reported as such
  -- and flags the field, unless the field is flagged by then.
  pub outside-reported :
      (transition_of ast g s ≡ record { transfer_func = write_func; var = x })
        ⊎ (transition_of ast g s ≡ record { transfer_func = log_func; var = x })
      → signed_lt 0 (depth_after (map (transition_of ast g) ss) (value state c.tx).tx) ≡ false
      → (mid : AbstractState × Reporter) × (run_stmts ast g ss (state, r) ≡ ok mid)
        × (out : Outcome) × (handle_stmt g ast s mid.0 mid.1 ≡ ok out)
        × (member x out.2.bugged_vars ≡ true)
        × ((member x mid.1.bugged_vars ≡ true)
            ⊎ (reported (get_outside_tx s x) out.2.bug_data_list ≡ true))
  unfolding is_in_tx is_report is_bug
  outside-reported w outside =
      let (mid, runs, depth, log) = run_stmts_lem ast g c ss state r in
      let (out, steps, step) = handle_stmt-IsLogStep ast g c s mid.0 mid.1 in
      (
        mid,
        runs,
        out,
        steps,
        elim w [
          | inl e ↦ ground (arith, (rw e at step.flagged x), depth)
          | inr e ↦ ground (arith, (rw e at step.flagged x), depth)
        ],
        elim w [
          | inl e ↦ ground (arith, (rw e at step.reports (get_outside_tx s x)), depth)
          | inr e ↦ ground (arith, (rw e at step.reports (get_outside_tx s x)), depth)
        ],
      )
