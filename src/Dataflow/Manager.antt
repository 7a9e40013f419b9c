-- ===== src/Dataflow/Manager.antt =====
-- include/dataflow_util/DataflowManager.h: what the analysis needs of a checker. `M` is the state of
-- a manager, its globals and its reporter; a handler takes it and returns it.
use nvmordering.Base.{ℕ, Bool, Result, List, Map}

pub record Manager {ℓ κ} (V : Type ℓ) (M : Type κ) : Type (ℓ ⊔ κ) where
  pub default_value : V
  pub meet : V → Result V
  pub eq_value : V → V → Result Bool
  pub init_unit : ℕ → M → Result M
  pub init_lattice_values : Map V → M → Result (Map V)
  pub get_analyzed_functions : M → List ℕ
  pub handle_stmt : ℕ → Map V → M → Result (Bool × Map V × M)
  pub get_ce_if_analyzed_function : M → ℕ → ℕ
