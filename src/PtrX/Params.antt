-- ===== src/PtrX/Params.antt =====
-- lib/ptrxchecker/PtrChecker.cpp: checkBeginFunction, which makes the parameters of a function dirty.
use nvmordering.Base.{
  ℕ, Bool, true, false, if◌then◌else◌, List, [], ◌∷◌, ◌++◌, ok, fold_result, ◌≡◌, ◌≢◌, inl, inr,
  refl, arith, ap, sym, ◌∙◌,
}
use mathlib.Core.List.{append-nil, append_assoc}
use nvmordering.Symbolic.Engine.{
  CheckerContext, Call, add_new_state, push, transitions, context_at, transitions-append,
}
use nvmordering.Symbolic.Memory.{Memory}
use nvmordering.Symbolic.Decls.{Decls, get_func_decl}
use nvmordering.Symbolic.Regions.{get_top_base_mem_reg_unsafe}
use nvmordering.PtrX.State.{PtrState, same_state, write_ptr_region}
use nvmordering.PtrX.Taint.{SymbolOf}
use nvmordering.PtrX.Walkers.{Identify}
use nvmordering.PtrX.Checker.{dirty_param, check_begin_function}

-- The states that differ from the first one, each with one write.
unfoldable pub new_states : PtrState → (ℕ → PtrState) → List ℕ → List PtrState
new_states s after [] = []
new_states s after (loc ∷ locs) =
    if same_state (after loc) s
    then new_states s after locs
    else after loc ∷ new_states s after locs

module _ (mem : Memory) (fuel : ℕ) (s : PtrState) (top : ℕ → ℕ) (after : ℕ → PtrState) where
  -- What the loop finds for a parameter's value: its top region, and the state with that written.
  pub record IsWrite (loc : ℕ) : Type 0 where
    pub has_top : get_top_base_mem_reg_unsafe mem fuel loc ≡ ok (top loc)
    pub not_null : top loc ≢ 0
    pub write : write_ptr_region mem fuel s (top loc) ≡ ok (after loc)

  dirty_param_lem :
      (loc : ℕ) (c : CheckerContext PtrState)
      → IsWrite loc
      → dirty_param mem fuel s loc c ≡ ok (add_new_state same_state s (after loc) c)
  unfolding dirty_param
  dirty_param_lem loc c w = ground (arith, w.has_top, w.not_null, w.write)

  add_new_state-transitions :
      (loc : ℕ) (c : CheckerContext PtrState)
      → transitions (add_new_state same_state s (after loc) c).calls
        ≡ transitions c.calls ++ new_states s after (loc ∷ [])
  unfolding add_new_state push new_states transitions
  add_new_state-transitions loc c = ground (
    arith,
    transitions-append c.calls (Call.transition_call (after loc) ∷ []),
    append-nil (transitions c.calls),
  )

  new_states_cons :
      (loc : ℕ) (locs : List ℕ)
      → new_states s after (loc ∷ []) ++ new_states s after locs ≡ new_states s after (loc ∷ locs)
  unfolding new_states
  new_states_cons loc locs = ground arith

  pub dirty_params_from :
      (locs : List ℕ) (c : CheckerContext PtrState)
      → ((loc : ℕ) → SymbolOf loc locs → IsWrite loc)
      → (c' : CheckerContext PtrState) × (fold_result (dirty_param mem fuel s) locs c ≡ ok c')
        × (transitions c'.calls ≡ transitions c.calls ++ new_states s after locs)
  unfolding fold_result new_states
  dirty_params_from [] c h = (c, refl, sym (append-nil (transitions c.calls)))
  dirty_params_from (loc ∷ locs) c h =
      let c1 = add_new_state same_state s (after loc) c in
      let (c', e, t) = dirty_params_from locs c1 (λ l m. h l (inr m)) in
      (
        c',
        rw (dirty_param_lem loc c (h loc (inl refl))) e,
        t
            ∙ ap (λ l. l ++ new_states s after locs) (add_new_state-transitions loc c)
            ∙ append_assoc (transitions c.calls) (new_states s after (loc ∷ []))
                (new_states s after locs)
            ∙ ap (λ l. transitions c.calls ++ l) (new_states_cons loc locs),
      )

-- Where the analysis of a function begins in the top frame and the function is not skipped, and each
-- parameter has a region that a write succeeds for, the states that the callback adds are, in the
-- order of the parameters, the state at the beginning with the write of one parameter, those that
-- are equal to that state left out: no state has the writes of two parameters.
pub check_begin_function-new_states :
    {Fnc Var : Type 0} (identify : Identify Fnc Var) (fncs : Fnc) (mem : Memory) (fuel : ℕ)
    (decls : Decls) (param_locs : ℕ → List ℕ) (gives : List (Call PtrState) → Bool) (d : ℕ)
    (s : PtrState) (top : ℕ → ℕ) (after : ℕ → PtrState)
    → identify.is_skip_frame fncs d ≡ false
    → get_func_decl decls d ≢ 0
    → ((loc : ℕ)
        → SymbolOf loc (param_locs (get_func_decl decls d))
        → IsWrite mem fuel s top after loc)
    → (c : CheckerContext PtrState) × (check_begin_function identify fncs mem fuel decls param_locs
          (context_at gives true d s)
        ≡ ok c)
      × (transitions c.calls ≡ new_states s after (param_locs (get_func_decl decls d)))
unfolding check_begin_function transitions
check_begin_function-new_states identify fncs mem fuel decls param_locs gives d s top after k n h =
    let (c, e, t) =
      dirty_params_from mem fuel s top after (param_locs (get_func_decl decls d))
        (context_at gives true d s) h in
    (c, ground (arith, k, e), t)
