-- ===== src/Dataflow/Store.antt =====
-- include/dataflow_util/DataflowAnalysis.h: the members of the analysis, and the references into its maps.
use nvmordering.Base.{ℕ, [], Map, insert, get}
use nvmordering.Dataflow.Location.{PlContext}
use nvmordering.Dataflow.Contexts.{
  FunctionContext, FunctionResults, ContextMaps, ContextWorklist, push_contexts,
}

-- `all_results` is the search tree of allResults and `results` what its nodes hold, by their numbers: a
-- reference to the results of a context is such a number. So it is with `callers` and `caller_sets`.
pub record Store {ℓ κ} (R C S : Type 0) (V : Type ℓ) (M : Type κ) : Type (ℓ ⊔ κ) where
  pub all_results : R
  pub results : Map (FunctionResults V)
  pub context_work : ContextWorklist
  pub callers : C
  pub caller_sets : Map S
  pub active : S
  pub manager : M

-- The results that a reference refers to.
unfoldable pub results_at {ℓ κ} :
    {R C S : Type 0} {V : Type ℓ} {M : Type κ} → ℕ → Store R C S V M → FunctionResults V
results_at n st = get [] n st.results

-- A change of the results that a reference refers to.
unfoldable pub update_results {ℓ κ} :
    {R C S : Type 0} {V : Type ℓ} {M : Type κ}
    → ℕ
    → (FunctionResults V → FunctionResults V)
    → Store R C S V M
    → Store R C S V M
update_results n f st = record st { results = insert n (f (get [] n st.results)) st.results }

module _ {ℓ κ} {R C S : Type 0} {V : Type ℓ} {M : Type κ} (maps : ContextMaps R C S) where
  -- `allResults[context]`: the reference, and the store after the search.
  unfoldable pub find_results : PlContext → Store R C S V M → ℕ × Store R C S V M
  find_results c st =
      let (n, tree) = maps.find_results c st.all_results in (n, record st { all_results = tree })

  -- `callers[toCall].insert(toUpdate)`
  unfoldable pub add_caller : FunctionContext → FunctionContext → Store R C S V M → Store R C S V M
  add_caller to_call to_update st =
      let (n, tree) = maps.find_callers to_call st.callers in
      record st {
        callers = tree;
        caller_sets =
            insert n (maps.insert_context to_update (get maps.no_contexts n st.caller_sets))
              st.caller_sets;
      }

  -- The loop over `callers[{function, context}]`.
  unfoldable pub queue_callers : FunctionContext → Store R C S V M → Store R C S V M
  queue_callers k st =
      let (n, tree) = maps.find_callers k st.callers in
      record st {
        callers = tree;
        context_work =
            push_contexts (maps.elements (get maps.no_contexts n st.caller_sets)) st.context_work;
      }

-- The members before the constructor pushes the top function.
abbrev pub start_store {ℓ κ} :
    {R C S : Type 0} {V : Type ℓ} {M : Type κ} → ContextMaps R C S → M → Store R C S V M
start_store maps manager = record {
  all_results = maps.no_results;
  results = [];
  context_work = [];
  callers = maps.no_callers;
  caller_sets = [];
  active = maps.no_contexts;
  manager = manager;
}
