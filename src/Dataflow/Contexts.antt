-- ===== src/Dataflow/Contexts.antt =====
-- include/dataflow_util/DataflowAnalysis.h: functions in contexts, the containers that have contexts
-- as keys, and worklists. A worklist is a stack, the last element first.
use nvmordering.Base.{ℕ, Bool, List, [], ◌∷◌, Map}
use nvmordering.Dataflow.Location.{PlContext}

abbrev pub FunctionContext : Type 0
FunctionContext = ℕ × PlContext

abbrev pub FunctionResults {ℓ} : Type ℓ → Type ℓ
FunctionResults V = Map (Map V)

-- What std::map and std::set do with contexts as keys: `operator<` of PlContext is no strict weak
-- order, so the standard says nothing of where they find a key, and the analysis takes the containers
-- as a parameter. `Results` is the search tree of `allResults`, `Callers` that of `callers`, and
-- `Contexts` a set. A map finds the number of the node that `m[k]` refers to, which is a new one where
-- it finds none, and gives the tree after that.
pub record ContextMaps (Results Callers Contexts : Type 0) : Type 0 where
  pub no_results : Results
  pub find_results : PlContext → Results → ℕ × Results
  pub no_callers : Callers
  pub find_callers : FunctionContext → Callers → ℕ × Callers
  pub no_contexts : Contexts
  pub contains : FunctionContext → Contexts → Bool
  pub insert_context : FunctionContext → Contexts → Contexts
  pub erase_context : FunctionContext → Contexts → Contexts
  pub elements : Contexts → List FunctionContext  -- from begin to end

abbrev pub ContextWorklist : Type 0
ContextWorklist = List FunctionContext

abbrev pub push_all : List ℕ → List ℕ → List ℕ
push_all [] work = work
push_all (b ∷ bs) work = push_all bs (b ∷ work)

abbrev pub push_contexts : List FunctionContext → ContextWorklist → ContextWorklist
push_contexts [] work = work
push_contexts (c ∷ cs) work = push_contexts cs (c ∷ work)
