-- ===== src/LogX/Modes.antt =====
-- lib/logxchecker: the transaction mode and the transaction counter.
use nvmordering.Base.{ℕ, ◌<◌, if◌then◌else◌, ◌≡◌, arith}
use nvmordering.Symbolic.Engine.{CheckerContext}
use nvmordering.Symbolic.Decls.{Decls}
use nvmordering.LogX.Identify.{Identify}
use nvmordering.LogX.Functions.{LogFncs, insert_fnc, is_tx_enabled}
use nvmordering.LogX.State.{
  ProgramState, StateInfo, u32_mod, in_tx, check_tx, count_beg, count_end,
  report_access_outside_tx_bug,
}
use nvmordering.LogX.Checker.{check_begin_function, decide_tx_mode}

-- Ending a transaction undoes its beginning, and beginning one undoes an end, for every value of
-- the 32-bit counter: 0 and the largest value are no exceptions.
pub count_end-count_beg :
    (s : ProgramState)
    → s.tx_counter < u32_mod
    → (count_end (count_beg s) ≡ s) × (count_beg (count_end s) ≡ s)
unfolding count_end count_beg
count_end-count_beg s h = ground arith

-- The check reports exactly where the counter is 0.
pub check_tx_lem :
    (si : StateInfo)
    → check_tx si ≡ (if in_tx si.state then si else report_access_outside_tx_bug si)
unfolding check_tx in_tx
check_tx_lem si = ground arith

module _ {Fnc Var : Type 0} (identify : Identify Fnc Var) (decls : Decls) where
  -- The transaction mode is decided where the analysis of a function begins for the first time. A
  -- later beginning leaves the functions as they are; and where a function has been inserted in
  -- between, which may fill an empty set, the mode is still the old one.
  pub check_begin_function_once :
      (fd : ℕ) (fncs : LogFncs Fnc) (c1 c2 : CheckerContext ProgramState)
      → ((check_begin_function identify decls (check_begin_function identify decls fncs c1).0 c2).0
          ≡ (check_begin_function identify decls fncs c1).0)
        × (is_tx_enabled
              (check_begin_function identify decls
                (insert_fnc identify fd (check_begin_function identify decls fncs c1).0)
                c2).0
            ≡ is_tx_enabled (check_begin_function identify decls fncs c1).0)
  unfolding check_begin_function decide_tx_mode insert_fnc is_tx_enabled
  check_begin_function_once fd fncs c1 c2 = ground arith
