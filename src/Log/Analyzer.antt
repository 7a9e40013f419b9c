-- ===== src/Log/Analyzer.antt =====
-- lib/logchecker/analyzer/LogAnalyzer.h: the dataflow analysis with the parts of the checker, which
-- DataflowManager.h puts together and MainAnalyzer.h runs on a translation unit.
use nvmordering.Base.{ℕ, Result, ok, ◌>>=◌, List, []}
use nvmordering.Clang.{Ast, Cfg, Visit}
use nvmordering.Globals.Units.{set_active_unit, get_ce_if_analyzed_function}
use nvmordering.Log.Functions.{is_skip_function}
use nvmordering.Dataflow.Manager.{Manager}
use nvmordering.Dataflow.Contexts.{ContextMaps}
use nvmordering.Dataflow.Driver.{do_dataflow_tud}
use nvmordering.Log.Lattice.{LogLattice, default_lattice, eq_lattice, meet}
use nvmordering.Log.StmtParser.{Globals}
use nvmordering.Log.Reporter.{Reporter, init_unit}
use nvmordering.Log.Transitions.{handle_stmt, init_lattice_values}
use nvmordering.Log.GlobalParser.{parse}

abbrev pub LogState : Type 0
LogState = Globals × Reporter

abbrev pub log_manager : Ast → Manager LogLattice LogState
log_manager ast = record {
  default_value = default_lattice;
  meet = meet;
  eq_value = eq_lattice;
  init_unit = λ fd (g, r). set_active_unit fd g >>= λ g'. ok (g', init_unit r);
  init_lattice_values = λ state (g, r). init_lattice_values g state;
  get_analyzed_functions = λ (g, r). g.functions.analyzed_fnc.functions;
  handle_stmt =
      λ s state (g, r). handle_stmt g ast s state r >>= λ out. ok (out.0, out.1, (g, out.2));
  get_ce_if_analyzed_function =
      λ (g, r) s. get_ce_if_analyzed_function ast (is_skip_function g.functions) s;
}

-- The reporter that the constructor makes; its maps are made by `initUnit`.
abbrev pub new_reporter : Reporter
new_reporter = record { bug_data_list = []; last_location_map = []; bugged_vars = [] }

-- analyzeTUD
unfoldable pub analyze_log :
    {R C S : Type 0} → ContextMaps R C S → Ast → Cfg → ℕ → ℕ → ℕ → ℕ → List Visit → Result LogState
analyze_log maps ast cfg fuel rounds depth turns visits = do
  g ← parse ast fuel visits
  do_dataflow_tud maps ast cfg (log_manager ast) rounds depth turns (g, new_reporter)
