-- ===== src/Pair/Analyzer.antt =====
-- lib/pairchecker/analyzer/PairAnalyzer.h: the dataflow analysis with the parts of the pair checker,
-- which DataflowManager.h puts together and MainAnalyzer.h runs on a translation unit.
use nvmordering.Base.{ℕ, Result, ok, ◌>>=◌, List, []}
use nvmordering.Clang.{Ast, Cfg, Visit}
use nvmordering.AutoCl.{Layout}
use nvmordering.Globals.Functions.Direct.{is_skip_function}
use nvmordering.Globals.Units.{set_active_unit, get_ce_if_analyzed_function}
use nvmordering.Dataflow.Manager.{Manager}
use nvmordering.Dataflow.Contexts.{ContextMaps}
use nvmordering.Dataflow.Driver.{do_dataflow_tud}
use nvmordering.Pair.Lattice.{PairLattice, default_lattice, eq_lattice, meet}
use nvmordering.Pair.StmtParser.{Globals}
use nvmordering.Pair.Reporter.{Reporter, init_unit}
use nvmordering.Pair.Transitions.{handle_stmt, init_lattice_values}
use nvmordering.Pair.GlobalParser.{parse}

abbrev pub PairState : Type 0
PairState = Globals × Reporter

abbrev pub pair_manager : Ast → Manager PairLattice PairState
pair_manager ast = record {
  default_value = default_lattice;
  meet = meet;
  eq_value = λ v x. ok (eq_lattice v x);
  init_unit = λ fd (g, r). set_active_unit fd g >>= λ g'. ok (g', init_unit r);
  init_lattice_values = λ state (g, r). init_lattice_values g state;
  get_analyzed_functions = λ (g, r). g.functions.analyzed_fnc.functions;
  handle_stmt =
      λ s state (g, r). handle_stmt g ast s state r >>= λ out. ok (out.0, out.1, (g, out.2));
  get_ce_if_analyzed_function =
      λ (g, r) s. get_ce_if_analyzed_function ast (is_skip_function g.functions) s;
}

-- The reporter that the constructor makes; its maps are made by `initUnit`.
abbrev pub new_reporter : Reporter
new_reporter = record {
  bug_data_list = [];
  var_to_pair = [];
  last_location_map = [];
  bugged_vars = [];
}

-- analyzeTUD
unfoldable pub analyze_tud :
    {R C S : Type 0}
    → ContextMaps R C S
    → Ast
    → Cfg
    → Layout
    → ℕ
    → ℕ
    → ℕ
    → ℕ
    → List Visit
    → Result PairState
analyze_tud maps ast cfg l fuel rounds depth turns visits = do
  p ← parse ast l fuel visits
  do_dataflow_tud maps ast cfg (pair_manager ast) rounds depth turns (p.globals, new_reporter)
