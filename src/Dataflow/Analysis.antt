-- ===== src/Dataflow/Analysis.antt =====
-- include/dataflow_util/DataflowAnalysis.h: the analysis. `Store` is its members with the state of
-- the manager, and the containers with contexts as keys are a parameter. The worklists are stacks,
-- the last element first. `depth` bounds how deep calls nest, and `rounds` how often a loop over a
-- worklist goes round; the source has neither bound.
pub mod Keeps
pub mod Callers
use nvmordering.Base.{
  ℕ, zero, suc, Bool, true, false, ◌&&◌, ◌||◌, not, ◌==◌, if◌then◌else◌, Result, ok, err,
  assert_failed, out_of_fuel, guard, ◌>>=◌, ◌>>◌, fold_result, Option, none, some, List, [], ◌∷◌,
  ◌++◌, Map, insert, lookup, get, touch, has_key,
}
use nvmordering.Clang.{Ast, Cfg}
use nvmordering.Dataflow.Location.{
  PlContext, call_context, eq_context, top_context, get_entry_block, get_function_entry_key,
  get_function_exit_key, get_stmt_key, get_entry_key, get_exit_key,
}
use nvmordering.Dataflow.Manager.{Manager}
use nvmordering.Dataflow.Merge.{merge_in_state, eq_state, size}
use nvmordering.Dataflow.Contexts.{
  FunctionContext, FunctionResults, ContextMaps, ContextWorklist, push_all, push_contexts,
}
use nvmordering.Dataflow.Store.{
  Store, results_at, update_results, find_results, add_caller, queue_callers, start_store,
}

module _ {ℓ κ} {R C S : Type 0} {V : Type ℓ} {M : Type κ} (maps : ContextMaps R C S) (ast : Ast)
    (cfg : Cfg) (m : Manager V M) where
  unfoldable pub init_top_entry_values : ℕ → ℕ → Store R C S V M → Result (Store R C S V M)
  init_top_entry_values function n st = do
    entry ← get_entry_block cfg function
    state ← m.init_lattice_values (get [] entry.ptr (results_at n st)) st.manager
    ok (update_results n (insert entry.ptr state) st)

  unfoldable pub init_callee_entry_values : ℕ → ℕ → Store R C S V M → Result (Store R C S V M)
  init_callee_entry_values function n st = do
    entry ← get_entry_block cfg function
    key ← get_function_entry_key cfg function
    ok (update_results n (insert entry.ptr (get [] key.ptr (results_at n st))) st)

  -- getFunctionResults: the reference, and the store after it
  unfoldable pub get_function_results :
      ℕ → PlContext → Store R C S V M → Result (ℕ × Store R C S V M)
  get_function_results function c st = do
    let (n, st') = find_results maps c st
    key ← get_function_entry_key cfg function
    st'' ←
        if not (has_key key.ptr (results_at n st'))
        then init_top_entry_values function n st'
        else init_callee_entry_values function n st'
    ok (n, st'')

  -- one round of the loop in `mergePrevStates`
  unfoldable pub merge_predecessor : FunctionResults V → ℕ → Map V → Result (Map V)
  merge_predecessor results pred merged = do
    exit ← get_exit_key cfg pred
    if has_key exit.ptr results
        then merge_in_state m merged (get [] exit.ptr results)
        else ok merged

  unfoldable pub merge_prev_states : ℕ → FunctionResults V → Result (Map V)
  merge_prev_states block results = do
    merged ← merge_in_state m [] (get [] block results)
    fold_result (merge_predecessor results) (cfg.predecessors block) merged

  -- analyzeCall, where `compute` is `computeDataflow` of a function in a context
  unfoldable pub analyze_call :
      (ℕ → PlContext → Store R C S V M → Result (Store R C S V M))
      → ℕ
      → Map V
      → ℕ
      → PlContext
      → Store R C S V M
      → Result (Bool × Map V × Store R C S V M)
  analyze_call compute ce state caller c st =
      let new_context = call_context c ce in
      let callee = ast.direct_callee ce in
      let to_call : FunctionContext = (callee, new_context) in
      if callee == 0 then ok (false, state, st) else (do
        entry ← get_function_entry_key cfg callee
        exit ← get_function_exit_key cfg callee
        let (n, st0) = find_results maps new_context st
        let st1 = update_results n (touch [] entry.ptr) st0
        same_entry ←
            if maps.contains to_call st1.active
            then ok true
            else eq_state m state (get [] entry.ptr (results_at n st1))
        if same_entry then ok (false, state, st1) else (do
          st2 ← compute callee new_context (update_results n (insert entry.ptr state) st1)
          let st3 = update_results n (touch [] exit.ptr) st2
          let exit_state = get [] exit.ptr (results_at n st3)
          same_exit ← eq_state m state exit_state
          if same_exit
              then ok (false, state, st3)
              else ok (true, exit_state, add_caller maps to_call (caller, c) st3)))

  unfoldable pub apply_transfer :
      ℕ → Map V → Store R C S V M → Result (Bool × Map V × Store R C S V M)
  apply_transfer s state st = do
    (changed, state', manager) ← m.handle_stmt s state st.manager
    ok (changed, state', record st { manager = manager })

  unfoldable pub analyze_stmt :
      (ℕ → PlContext → Store R C S V M → Result (Store R C S V M))
      → ℕ
      → Map V
      → ℕ
      → PlContext
      → Store R C S V M
      → Result (Bool × Map V × Store R C S V M)
  analyze_stmt compute s state caller c st =
      let ce = m.get_ce_if_analyzed_function st.manager s in
      if ce == 0 then apply_transfer s state st else analyze_call compute ce state caller c st

  -- The loop of `analyzeStmts` over the elements of a block.
  unfoldable pub analyze_stmts :
      (ℕ → PlContext → Store R C S V M → Result (Store R C S V M))
      → List (Option ℕ)
      → Map V
      → ℕ
      → PlContext
      → ℕ
      → Store R C S V M
      → Result (Map V × Store R C S V M)
  analyze_stmts compute [] state caller c n st = ok (state, st)
  analyze_stmts compute (none ∷ elements) state caller c n st =
      analyze_stmts compute elements state caller c n st
  analyze_stmts compute (some s ∷ elements) state caller c n st = do
    guard (not (s == 0)) assert_failed
    (changed, state', st') ← analyze_stmt compute s state caller c st
    key ← get_stmt_key cfg s
    analyze_stmts compute elements state' caller c n
        (if changed then update_results n (insert key.ptr state') st' else st')

  abbrev pub empty_state : Map V → Bool
  empty_state [] = true
  empty_state (e ∷ es) = false

  -- One round of the loop in `computeDataflow`: the blocks to push, and the store.
  unfoldable pub analyze_block :
      (ℕ → PlContext → Store R C S V M → Result (Store R C S V M))
      → ℕ
      → ℕ
      → PlContext
      → ℕ
      → Store R C S V M
      → Result (List ℕ × Store R C S V M)
  analyze_block compute block function c n st = do
    entry ← get_entry_key cfg block
    exit ← get_exit_key cfg block
    let st1 = update_results n (λ r. touch [] exit.ptr (touch [] entry.ptr r)) st
    let results = results_at n st1
    let old_exit = get [] exit.ptr results
    state ← merge_prev_states entry.ptr results
    same_entry ← eq_state m state (get [] entry.ptr results)
    if same_entry && not (empty_state state) then ok ([], st1) else (do
      (state', st2) ←
          analyze_stmts compute (cfg.elements block) state function c n
            (update_results n (insert entry.ptr state) st1)
      same_exit ← eq_state m state' old_exit
      ok (
          if same_exit
          then ([], st2)
          else (cfg.successors block, update_results n (insert exit.ptr state') st2)))

  -- The loop over the blocks.
  unfoldable pub analyze_blocks :
      (ℕ → PlContext → Store R C S V M → Result (Store R C S V M))
      → ℕ
      → List ℕ
      → ℕ
      → PlContext
      → ℕ
      → Store R C S V M
      → Result (Store R C S V M)
  analyze_blocks compute rounds [] function c n st = ok st
  analyze_blocks compute zero (block ∷ work) function c n st = err out_of_fuel
  analyze_blocks compute (suc rounds) (block ∷ work) function c n st =
      analyze_block compute block function c n st >>= λ next.
      analyze_blocks compute rounds (push_all next.0 work) function c n next.1

  -- `operator==` of the results
  unfoldable pub eq_results : FunctionResults V → FunctionResults V → Result Bool
  eq_results ((i, v) ∷ xs) ((j, w) ∷ ys) = (if i == j then eq_state m v w else ok false) >>= λ same.
      if same then eq_results xs ys else ok false
  eq_results [] [] = ok true
  eq_results _ _ = ok false

  -- The end of `computeDataflow`: `n` is the reference `results`, and `k` is `oldResults`.
  unfoldable pub update_callers : ℕ → PlContext → ℕ → Store R C S V M → Result (Store R C S V M)
  update_callers function c n st = do
    let (k, st1) = find_results maps c st
    same ← eq_results (results_at k st1) (results_at n st1)
    let st2 =
        if same
        then st1
        else queue_callers maps (function, c) (update_results k (λ r. results_at n st1) st1)
    ok (record st2 { active = maps.erase_context (function, c) st2.active })

  -- computeDataflow(function, context)
  unfoldable pub compute_function :
      ℕ → ℕ → ℕ → PlContext → Store R C S V M → Result (Store R C S V M)
  compute_function rounds zero function c st = err out_of_fuel
  compute_function rounds (suc depth) function c st = do
    (n, st') ←
        get_function_results function c
          (record st { active = maps.insert_context (function, c) st.active })
    st'' ←
        analyze_blocks (compute_function rounds depth) rounds (push_all (cfg.blocks function) [])
          function c n st'
    update_callers function c n st''

  -- The loop of `computeDataflow()` over the contexts.
  unfoldable pub compute_contexts : ℕ → ℕ → ℕ → Store R C S V M → Result (Store R C S V M)
  compute_contexts rounds depth zero st = elim st.context_work [
    | [] ↦ ok st
    | w ∷ ws ↦ err out_of_fuel
  ]
  compute_contexts rounds depth (suc turns) st = elim st.context_work [
    | [] ↦ ok st
    | (function, c) ∷ work ↦
        compute_function rounds depth function c (record st { context_work = work })
        >>= compute_contexts rounds depth turns
  ]

  -- DataflowAnalysis(function, manager) and computeDataflow()
  unfoldable pub compute_dataflow : ℕ → ℕ → ℕ → ℕ → M → Result (Store R C S V M)
  compute_dataflow rounds depth turns function manager =
      compute_contexts rounds depth turns
        (record (start_store maps manager) { context_work = (function, top_context) ∷ [] })
