-- ===== src/Dataflow/Analysis/Callers.antt =====
-- The worklist of contexts in DataflowAnalysis.h, where the comparison of values holds for each
-- value and itself.
use nvmordering.Base.{ℕ, zero, suc, true, ==-refl, ◌≡◌, refl, Result, ok, err, ◌>>=◌, [], ◌∷◌, Map}
use nvmordering.Clang.{Ast, Cfg}
use nvmordering.Dataflow.Location.{PlContext, top_context}
use nvmordering.Dataflow.Manager.{Manager}
use nvmordering.Dataflow.Merge.{eq_state, eq_entries, size}
use nvmordering.Dataflow.Analysis.{
  get_function_results, analyze_blocks, eq_results, update_callers, compute_function,
  compute_contexts, compute_dataflow,
}
use nvmordering.Dataflow.Store.{Store, start_store, results_at, find_results}
use nvmordering.Dataflow.Contexts.{FunctionResults, ContextMaps, ContextWorklist, push_all}
use nvmordering.Dataflow.Analysis.Keeps.{
  Keeps, IsMap, Unchanged, Referred, ok-Keeps, bind-Keeps, get_function_results-Keeps,
  analyze_blocks-Keeps,
}

module _ {ℓ κ} {V : Type ℓ} {M : Type κ} (m : Manager V M)
    (same : (v : V) → m.eq_value v v ≡ ok true) where
  eq_entries-same : (xs : Map V) → eq_entries m xs xs ≡ ok true
  unfolding eq_entries
  eq_entries-same [] = refl
  eq_entries-same ((k, v) ∷ xs) = rw (==-refl k, same v) (eq_entries-same xs)

  eq_state-same : (xs : Map V) → eq_state m xs xs ≡ ok true
  unfolding eq_state
  eq_state-same xs = rw (==-refl (size m xs)) (eq_entries-same xs)

  eq_results-same :
      {R C S : Type 0} (maps : ContextMaps R C S) (ast : Ast) (cfg : Cfg) (xs : FunctionResults V)
      → eq_results maps ast cfg m xs xs ≡ ok true
  unfolding eq_results
  eq_results-same maps ast cfg [] = refl
  eq_results-same maps ast cfg ((k, v) ∷ xs) =
      rw (==-refl k, eq_state-same v) (eq_results-same maps ast cfg xs)

module _ {ℓ κ} {R C S : Type 0} {V : Type ℓ} {M : Type κ} (maps : ContextMaps R C S)
    (is_map : IsMap maps) (ast : Ast) (cfg : Cfg) (m : Manager V M)
    (same : (v : V) → m.eq_value v v ≡ ok true) where
  -- Where the search finds the node that the analysis has filled, no caller is queued.
  update_callers-same :
      (function : ℕ) (c : PlContext) (n : ℕ) (st : Store R C S V M)
      → maps.find_results c st.all_results ≡ (n, st.all_results)
      → update_callers maps ast cfg m function c n st
        ≡ ok (record st { active = maps.erase_context (function, c) st.active })
  unfolding update_callers find_results
  update_callers-same function c n st e =
      rw (e, eq_results-same m same maps ast cfg (results_at n st)) refl

  module _ (rounds : ℕ) where
    compute_function-Keeps :
        (W : ContextWorklist) (depth : ℕ) (Q : R → Type 0)
        → ((c : PlContext) (r : R) → Q r → Q (maps.find_results c r).1)
        → (function : ℕ) (c : PlContext) (st : Store R C S V M) → Unchanged W Q st
        → Keeps (Unchanged W Q) (compute_function maps ast cfg m rounds depth function c st)
    unfolding compute_function
    compute_function-Keeps W zero Q stable function c st h = record { kept = λ b e. cc }
    compute_function-Keeps W (suc depth) Q stable function c st h =
        let st1 = record st { active = maps.insert_context (function, c) st.active } in
        bind-Keeps (Referred maps ast cfg m W Q stable c) (Unchanged W Q)
          (get_function_results maps ast cfg m function c st1) _
          (get_function_results-Keeps maps ast cfg m W Q stable is_map function c st1 h)
          (λ out h2.
            let n = out.0 in
            let P : R → Type 0 = λ r. Q r × (maps.find_results c r ≡ (n, r)) in
            let kept : (d : PlContext) (r : R) → P r → P (maps.find_results d r).1 =
              λ d r (q, e). (stable d r q, is_map.unmoved c d n r e) in
            bind-Keeps (Unchanged W P) (Unchanged W Q)
              (analyze_blocks maps ast cfg m (compute_function maps ast cfg m rounds depth) rounds
                (push_all (cfg.blocks function) []) function c n out.1)
              _
              (analyze_blocks-Keeps maps ast cfg m W P kept
                (compute_function maps ast cfg m rounds depth)
                (compute_function-Keeps W depth P kept) rounds (push_all (cfg.blocks function) [])
                function c n out.1 (h2.0.0, (h2.0.1, h2.1)))
              (λ st3 h3.
                rw (update_callers-same function c n st3 h3.1.1)
                  (ok-Keeps (Unchanged W Q) _ (h3.0, h3.1.0))))

    compute_contexts-done :
        (depth turns : ℕ) (st : Store R C S V M)
        → st.context_work ≡ []
        → compute_contexts maps ast cfg m rounds depth turns st ≡ ok st
    unfolding compute_contexts
    compute_contexts-done depth zero st h = rw h refl
    compute_contexts-done depth (suc turns) st h = rw h refl

    -- Where each value equals itself, and a search of `allResults` finds a context again that it has
    -- found before, as std::map promises for a strict weak order, which the order of PlContext is
    -- not: the analysis of a unit is over after one turn of the loop over the contexts, whatever
    -- the callers that it has noted. Its result is that of the one analysis of the unit's function,
    -- and it ends exactly if that does.
    pub compute_dataflow-one_turn :
        (depth turns function : ℕ) (manager : M)
        → compute_dataflow maps ast cfg m rounds depth (suc turns) function manager
          ≡ compute_function maps ast cfg m rounds depth function top_context
              (start_store maps manager)
    unfolding compute_dataflow compute_contexts
    compute_dataflow-one_turn depth turns function manager =
        finish
          (compute_function maps ast cfg m rounds depth function top_context
            (start_store maps manager))
          (compute_function-Keeps [] depth (λ r. Unit) (λ c r u. tt) function top_context
            (start_store maps manager) (refl, tt))
      where
        finish :
            (r : Result (Store R C S V M))
            → Keeps (Unchanged [] (λ t. Unit)) r
            → (r >>= compute_contexts maps ast cfg m rounds depth turns) ≡ r
        finish (ok st) k = compute_contexts-done depth turns st (k.kept st refl).0
        finish (err fault) k = refl
