-- ===== src/Dataflow/Analysis/Keeps.antt =====
-- What the functions of DataflowAnalysis.h below `computeDataflow` keep of the worklist of contexts and
-- of the search tree of `allResults`, where the analysis of a callee keeps it.
use nvmordering.Base.{
  ℕ, zero, suc, Bool, true, false, ◌&&◌, not, guard, assert_failed, ◌==◌, if◌then◌else◌, ◌≡◌,
  Result, ok, ok-injective, ◌>>=◌, >>=-eq-ok, Option, none, some, List, [], ◌∷◌, Map, Bool-cases,
  inl, inr, insert, get, touch, has_key, subst,
}
use nvmordering.Clang.{Ast, Cfg}
use nvmordering.Dataflow.Location.{
  PlContext, call_context, get_entry_block, get_function_entry_key, get_function_exit_key,
  get_stmt_key, get_entry_key, get_exit_key,
}
use nvmordering.Dataflow.Manager.{Manager}
use nvmordering.Dataflow.Merge.{eq_state}
use nvmordering.Dataflow.Analysis.{
  init_top_entry_values, init_callee_entry_values, get_function_results, merge_prev_states,
  analyze_call, apply_transfer, analyze_stmt, analyze_stmts, analyze_block, analyze_blocks,
  empty_state,
}
use nvmordering.Dataflow.Store.{Store, results_at, update_results, find_results, add_caller}
use nvmordering.Dataflow.Contexts.{ContextMaps, ContextWorklist, push_all}

-- A result that meets `p`, if there is one.
pub record Keeps {ℓ} {A : Type ℓ} (p : A → Type 0) (r : Result A) : Type ℓ where
  pub kept : (a : A) → r ≡ ok a → p a

module _ {ℓ} {A : Type ℓ} where
  pub ok-Keeps : (p : A → Type 0) (a : A) → p a → Keeps p (ok a)
  ok-Keeps p a h = record { kept = λ b e. subst p (ok-injective e) h }

  pub if-Keeps :
      (p : A → Type 0) (test : Bool) (r s : Result A)
      → Keeps p r
      → Keeps p s
      → Keeps p (if test then r else s)
  if-Keeps p test r s h h' = elim (Bool-cases test) [ inl e ↦ rw e h | inr e ↦ rw e h' ]

module _ {ℓ κ} {A : Type ℓ} {B : Type κ} where
  pub bind-Keeps :
      (p : A → Type 0) (q : B → Type 0) (r : Result A) (k : A → Result B)
      → Keeps p r
      → ((a : A) → p a → Keeps q (k a))
      → Keeps q (r >>= k)
  bind-Keeps p q r k h next = record {
    kept = λ b e. let (a, e1, e2) = >>=-eq-ok r k e in (next a (h.kept a e1)).kept b e2;
  }

  -- A step that gives no store.
  pub plain-Keeps :
      (q : B → Type 0) (r : Result A) (k : A → Result B)
      → ((a : A) → Keeps q (k a))
      → Keeps q (r >>= k)
  plain-Keeps q r k next = record {
    kept = λ b e. let (a, e1, e2) = >>=-eq-ok r k e in (next a).kept b e2;
  }

-- What std::map documents of a search, where its order is a strict weak one: a key that was searched
-- by `m[k]` is there, and later searches do not move it.
pub record IsMap {R C S : Type 0} (maps : ContextMaps R C S) : Type 0 where
  pub found :
      (c : PlContext) (r : R)
      → maps.find_results c (maps.find_results c r).1 ≡ maps.find_results c r
  pub unmoved :
      (c d : PlContext) (n : ℕ) (r : R)
      → maps.find_results c r ≡ (n, r)
      → maps.find_results c (maps.find_results d r).1 ≡ (n, (maps.find_results d r).1)

-- The worklist is `W`, and the search tree meets `Q`.
abbrev pub Unchanged {ℓ κ} :
    {R C S : Type 0} {V : Type ℓ} {M : Type κ}
    → ContextWorklist
    → (R → Type 0)
    → Store R C S V M
    → Type 0
Unchanged W Q st = (st.context_work ≡ W) × Q st.all_results

module _ {ℓ κ} {R C S : Type 0} {V : Type ℓ} {M : Type κ} (maps : ContextMaps R C S) (ast : Ast)
    (cfg : Cfg) (m : Manager V M) (W : ContextWorklist) (Q : R → Type 0)
    (stable : (c : PlContext) (r : R) → Q r → Q (maps.find_results c r).1) where
  abbrev Work : Store R C S V M → Type 0
  Work st = Unchanged W Q st

  abbrev FlaggedWork : Bool × Map V × Store R C S V M → Type 0
  FlaggedWork out = Work out.2

  -- The reference that getFunctionResults gives is the one that is found again.
  abbrev pub Referred : PlContext → ℕ × Store R C S V M → Type 0
  Referred c out = Work out.1 × (maps.find_results c out.1.all_results ≡ (out.0, out.1.all_results))

  pub get_function_results-Keeps :
      (is_map : IsMap maps) (function : ℕ) (c : PlContext) (st : Store R C S V M)
      → Work st
      → Keeps (Referred c) (get_function_results maps ast cfg m function c st)
  unfolding get_function_results init_top_entry_values init_callee_entry_values update_results
      find_results
  get_function_results-Keeps is_map function c st h =
      let p : ℕ × Store R C S V M → Type 0 = Referred c in
      let q : Store R C S V M → Type 0 = λ st'.
        Work st'
        × (maps.find_results c st'.all_results
            ≡ ((maps.find_results c st.all_results).0, st'.all_results)) in
      let st' = (find_results maps c st).1 in
      let n = (find_results maps c st).0 in
      let good : q st' = ((h.0, stable c st.all_results h.1), is_map.found c st.all_results) in
      plain-Keeps p (get_function_entry_key cfg function) _ (λ key.
        bind-Keeps q p
          (if not (has_key key.ptr (results_at n st'))
            then init_top_entry_values maps ast cfg m function n st'
            else init_callee_entry_values maps ast cfg m function n st')
          _
          (if-Keeps q (not (has_key key.ptr (results_at n st'))) _ _
            (plain-Keeps q (get_entry_block cfg function) _ (λ entry.
              plain-Keeps q
                (m.init_lattice_values (get [] entry.ptr (results_at n st')) st'.manager) _
                (λ state. ok-Keeps q _ good)))
            (plain-Keeps q (get_entry_block cfg function) _ (λ entry.
              plain-Keeps q (get_function_entry_key cfg function) _ (λ key'. ok-Keeps q _ good))))
          (λ st'' g. ok-Keeps p _ g))

  module _ (compute : ℕ → PlContext → Store R C S V M → Result (Store R C S V M))
      (keeps : (f : ℕ) (c : PlContext) (st : Store R C S V M)
        → Work st
        → Keeps Work (compute f c st)) where
    analyze_call-Keeps :
        (ce : ℕ) (state : Map V) (caller : ℕ) (c : PlContext) (st : Store R C S V M)
        → Work st
        → Keeps FlaggedWork (analyze_call maps ast cfg m compute ce state caller c st)
    unfolding analyze_call update_results find_results add_caller
    analyze_call-Keeps ce state caller c st h =
        let new_context = call_context c ce in
        let callee = ast.direct_callee ce in
        let n = (find_results maps new_context st).0 in
        let st0 = (find_results maps new_context st).1 in
        let h0 : Work st0 = (h.0, stable new_context st.all_results h.1) in
        if-Keeps FlaggedWork (callee == 0) _ _ (ok-Keeps FlaggedWork _ h) (
          plain-Keeps FlaggedWork (get_function_entry_key cfg callee) _ (λ entry.
            plain-Keeps FlaggedWork (get_function_exit_key cfg callee) _ (λ exit.
              let st1 = update_results n (touch [] entry.ptr) st0 in
              plain-Keeps FlaggedWork
                (if maps.contains (callee, new_context) st1.active
                  then ok true
                  else eq_state m state (get [] entry.ptr (results_at n st1)))
                _
                (λ same_entry. if-Keeps FlaggedWork same_entry _ _ (ok-Keeps FlaggedWork _ h0) (
                  bind-Keeps Work FlaggedWork
                    (compute callee new_context (update_results n (insert entry.ptr state) st1)) _
                    (keeps callee new_context _ h0)
                    (λ st2 h2.
                      let st3 = update_results n (touch [] exit.ptr) st2 in
                      plain-Keeps FlaggedWork
                        (eq_state m state (get [] exit.ptr (results_at n st3))) _
                        (λ same_exit.
                          if-Keeps FlaggedWork same_exit _ _ (ok-Keeps FlaggedWork _ h2)
                            (ok-Keeps FlaggedWork _ h2))))))))

    analyze_stmt-Keeps :
        (s : ℕ) (state : Map V) (caller : ℕ) (c : PlContext) (st : Store R C S V M)
        → Work st
        → Keeps FlaggedWork (analyze_stmt maps ast cfg m compute s state caller c st)
    unfolding analyze_stmt apply_transfer
    analyze_stmt-Keeps s state caller c st h =
        let ce = m.get_ce_if_analyzed_function st.manager s in
        if-Keeps FlaggedWork (ce == 0) _ _
          (plain-Keeps FlaggedWork (m.handle_stmt s state st.manager) _
            (λ out. ok-Keeps FlaggedWork _ h))
          (analyze_call-Keeps ce state caller c st h)

    analyze_stmts-Keeps :
        (elements : List (Option ℕ)) (state : Map V) (caller : ℕ) (c : PlContext) (n : ℕ)
        (st : Store R C S V M)
        → Work st
        → Keeps
            (λ out. Work out.1)
            (analyze_stmts maps ast cfg m compute elements state caller c n st)
    unfolding analyze_stmts update_results
    analyze_stmts-Keeps [] state caller c n st h = ok-Keeps (λ out. Work out.1) (state, st) h
    analyze_stmts-Keeps (none ∷ elements) state caller c n st h =
        analyze_stmts-Keeps elements state caller c n st h
    analyze_stmts-Keeps (some s ∷ elements) state caller c n st h =
        plain-Keeps (λ out. Work out.1) (guard (not (s == 0)) assert_failed) _
          (λ u.
            bind-Keeps FlaggedWork (λ out. Work out.1)
              (analyze_stmt maps ast cfg m compute s state caller c st) _
              (analyze_stmt-Keeps s state caller c st h)
              (λ out h1.
                plain-Keeps (λ out. Work out.1) (get_stmt_key cfg s) _
                  (λ key.
                    analyze_stmts-Keeps elements out.1 caller c n
                      (if out.0 then update_results n (insert key.ptr out.1) out.2 else out.2)
                      (updated out.0 key.ptr out.1 out.2 h1))))
      where
        updated :
            (changed : Bool) (key : ℕ) (state' : Map V) (st' : Store R C S V M)
            → Work st'
            → Work (if changed then update_results n (insert key state') st' else st')
        updated true key state' st' h' = h'
        updated false key state' st' h' = h'

    analyze_block-Keeps :
        (block function : ℕ) (c : PlContext) (n : ℕ) (st : Store R C S V M)
        → Work st
        → Keeps (λ out. Work out.1) (analyze_block maps ast cfg m compute block function c n st)
    unfolding analyze_block update_results
    analyze_block-Keeps block function c n st h =
        let q : List ℕ × Store R C S V M → Type 0 = λ out. Work out.1 in
        plain-Keeps q (get_entry_key cfg block) _ (λ entry.
          plain-Keeps q (get_exit_key cfg block) _ (λ exit.
            let st1 = update_results n (λ r. touch [] exit.ptr (touch [] entry.ptr r)) st in
            let results = results_at n st1 in
            plain-Keeps q (merge_prev_states maps ast cfg m entry.ptr results) _ (λ state.
              plain-Keeps q (eq_state m state (get [] entry.ptr results)) _ (λ same_entry.
                if-Keeps q (same_entry && not (empty_state maps ast cfg m state)) _ _
                  (ok-Keeps q _ h)
                  (bind-Keeps (λ out. Work out.1) q
                    (analyze_stmts maps ast cfg m compute (cfg.elements block) state function c n
                      (update_results n (insert entry.ptr state) st1))
                    _ (analyze_stmts-Keeps (cfg.elements block) state function c n _ h)
                    (λ out h1.
                      plain-Keeps q (eq_state m out.0 (get [] exit.ptr results)) _ (λ same_exit.
                        record { kept = λ b e. pushed same_exit exit.ptr out.0 out.1 b h1 e })))))))
      where
        pushed :
            (same_exit : Bool) (key : ℕ) (state' : Map V) (st2 : Store R C S V M)
            (b : List ℕ × Store R C S V M)
            → Work st2
            → ok (
                if same_exit
                then ([], st2)
                else (cfg.successors block, update_results n (insert key state') st2))
              ≡ ok b
            → Work b.1
        pushed true key state' st2 b h' e =
            subst (λ (x : List ℕ × Store R C S V M). Work x.1) (ok-injective e) h'
        pushed false key state' st2 b h' e =
            subst (λ (x : List ℕ × Store R C S V M). Work x.1) (ok-injective e) h'

    pub analyze_blocks-Keeps :
        (rounds : ℕ) (blocks : List ℕ) (function : ℕ) (c : PlContext) (n : ℕ) (st : Store R C S V M)
        → Work st
        → Keeps Work (analyze_blocks maps ast cfg m compute rounds blocks function c n st)
    unfolding analyze_blocks
    analyze_blocks-Keeps rounds [] function c n st h = ok-Keeps Work st h
    analyze_blocks-Keeps zero (block ∷ blocks) function c n st h = record { kept = λ b e. cc }
    analyze_blocks-Keeps (suc rounds) (block ∷ blocks) function c n st h =
        bind-Keeps (λ out. Work out.1) Work
          (analyze_block maps ast cfg m compute block function c n st) _
          (analyze_block-Keeps block function c n st h)
          (λ next h1. analyze_blocks-Keeps rounds (push_all next.0 blocks) function c n next.1 h1)
