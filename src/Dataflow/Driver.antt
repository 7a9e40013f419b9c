-- ===== src/Dataflow/Driver.antt =====
-- include/analysis_util/MainAnalyzer.h: the analysis of each unit, one behind the other. What the
-- reporter has found goes from unit to unit in the manager; the results of a unit do not.
use nvmordering.Base.{ℕ, Result, ok, ◌>>=◌, fold_result}
use nvmordering.Clang.{Ast, Cfg}
use nvmordering.Dataflow.Manager.{Manager}
use nvmordering.Dataflow.Contexts.{ContextMaps}
use nvmordering.Dataflow.Analysis.{compute_dataflow}

module _ {ℓ κ} {R C S : Type 0} {V : Type ℓ} {M : Type κ} (maps : ContextMaps R C S) (ast : Ast)
    (cfg : Cfg) (m : Manager V M) (rounds depth turns : ℕ) where
  -- doDataflowFD, up to its report of the bugs
  unfoldable pub do_dataflow_fd : ℕ → M → Result M
  do_dataflow_fd fd manager = do
    st ← compute_dataflow maps ast cfg m rounds depth turns fd manager
    ok st.manager

  -- one round of the loop in `doDataflowTUD`
  unfoldable pub do_unit : ℕ → M → Result M
  do_unit fd manager = do manager' ← m.init_unit fd manager; do_dataflow_fd fd manager'

  unfoldable pub do_dataflow_tud : M → Result M
  do_dataflow_tud manager = fold_result do_unit (m.get_analyzed_functions manager) manager
