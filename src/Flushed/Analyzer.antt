-- ===== src/Flushed/Analyzer.antt =====
-- lib/flushedchecker/analyzer/FlushedAnalyzer.h: the dataflow analysis with the parts of the checker, which
-- DataflowManager.h puts together and MainAnalyzer.h runs on a translation unit.
use nvmordering.Base.{ℕ, Result, ok, ◌>>=◌, List, []}
use nvmordering.Clang.{Ast, Cfg, Visit}
use nvmordering.Globals.Units.{set_active_unit, get_ce_if_analyzed_function}
use nvmordering.Globals.Functions.Direct.{is_skip_function}
use nvmordering.Dataflow.Manager.{Manager}
use nvmordering.Dataflow.Contexts.{ContextMaps}
use nvmordering.Dataflow.Driver.{do_dataflow_tud}
use nvmordering.Flushed.Lattice.{FlushedLattice, new_lattice, eq_lattice, meet}
use nvmordering.Flushed.StmtParser.{Globals}
use nvmordering.Flushed.Reporter.{Reporter, init_unit}
use nvmordering.Flushed.Transitions.{handle_stmt, init_lattice_values}
use nvmordering.Flushed.GlobalParser.{parse}

abbrev pub FlushedState : Type 0
FlushedState = Globals × Reporter

abbrev pub flushed_manager : Ast → Manager FlushedLattice FlushedState
flushed_manager ast = record {
  default_value = new_lattice;
  meet = λ v. ok (meet v);
  eq_value = λ v x. ok (eq_lattice v x);
  init_unit = λ fd (g, r). set_active_unit fd g >>= λ g'. ok (g', init_unit r);
  init_lattice_values = λ state (g, r). init_lattice_values g state;
  get_analyzed_functions = λ (g, r). g.functions.analyzed_fnc.functions;
  handle_stmt =
      λ s state (g, r). let out = handle_stmt ast g s state r in ok (out.0, out.1, (g, out.2));
  get_ce_if_analyzed_function =
      λ (g, r) s. get_ce_if_analyzed_function ast (is_skip_function g.functions) s;
}

-- The reporter that the constructor makes; its maps are made by `initUnit`.
abbrev pub new_reporter : Reporter
new_reporter = record { bug_data_list = []; last_location_map = []; bugged_vars = [] }

-- analyzeTUD
unfoldable pub analyze_flushed :
    {R C S : Type 0}
    → ContextMaps R C S
    → Ast
    → Cfg
    → ℕ
    → ℕ
    → ℕ
    → ℕ
    → List Visit
    → Result FlushedState
analyze_flushed maps ast cfg fuel rounds depth turns visits = do
  g ← parse ast fuel visits
  do_dataflow_tud maps ast cfg (flushed_manager ast) rounds depth turns (g, new_reporter)
