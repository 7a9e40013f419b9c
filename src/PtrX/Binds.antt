-- ===== src/PtrX/Binds.antt =====
-- lib/ptrxchecker/PtrChecker.cpp: checkBind, which reports the store of a written pointer in an
-- annotated field and makes what it stores through dirty.
use nvmordering.Base.{
  ℕ, ◌<◌, Bool, true, false, not, ◌&&◌, ◌==◌, if◌then◌else◌, List, [], ◌∷◌, Result, ok, ◌≡◌, ◌≢◌,
  inl, inr, refl, arith, Bool-cases, ◌∙◌,
}
use nvmordering.Clang.{Ast}
use nvmordering.Symbolic.Engine.{
  CheckerContext, Call, add_new_state, report_at_error_node, push, successors, reports, context_at,
}
use nvmordering.Symbolic.Memory.{Memory}
use nvmordering.Symbolic.Decls.{Decls}
use nvmordering.Symbolic.Regions.{
  get_top_base_mem_reg_unsafe, get_top_base_mem_reg_l_or_r, get_mem_field_decl_at,
}
use nvmordering.PtrX.State.{PtrState, same_state, write_ptr_region}
use nvmordering.PtrX.Written.{Target, region, is_ptr_written}
use nvmordering.PtrX.Taint.{Written, IsRanked, Decides, says_yes, says_no}
use nvmordering.PtrX.Decided.{is_ptr_written-Decides}
use nvmordering.PtrX.Walkers.{Identify, is_alloc_used}
use nvmordering.PtrX.Checker.{not_flushed, check_tainted, taint_written, check_bind}
use nvmordering.PtrX.Callbacks.{new_state_successors}

answer_of :
    {P : Type 0} {r : Result Bool}
    → Decides P r
    → (b : Bool) × (r ≡ ok b) × (b ≡ true → P) × (P → b ≡ true)
answer_of (says_yes p) = (true, refl, λ e. p, λ q. refl)
answer_of (says_no n) = (false, refl, λ e. cc, λ q. absurd (n q))

reason_to_bug :
    (u : Bool) (mr : ℕ) (b : Bool)
    → u ≡ true
    → mr ≢ 0
    → b ≡ true
    → (u && (not (mr == 0) && b)) ≡ true
reason_to_bug u mr b hu n hb = ground arith

no_reason :
    (u : Bool) (mr : ℕ) (b : Bool)
    → (u ≡ true → mr ≢ 0 → b ≡ true → ⊥)
    → (u && (not (mr == 0) && b)) ≡ false
no_reason u mr b f = elim (Bool-cases (u && (not (mr == 0) && b))) [
  | inl e ↦ absurd (f (ground arith) (ground arith) (ground arith))
  | inr e ↦ e
]

module _ {Fnc Var : Type 0} (identify : Identify Fnc Var) (vars : Var) (mem : Memory) (fuel : ℕ)
    (decls : Decls) (gives : List (Call PtrState) → Bool) (top : Bool) (d : ℕ) (s : PtrState) where
  abbrev start_context : CheckerContext PtrState
  start_context = context_at gives top d s

  -- The context after the test for a written pointer.
  abbrev tested : Bool → CheckerContext PtrState
  unfolding report_at_error_node
  tested bug = if bug then report_at_error_node not_flushed start_context else start_context

  check_tainted_lem :
      (loc val fd mr : ℕ) (b : Bool)
      → get_mem_field_decl_at mem decls fuel loc ≡ ok fd
      → get_top_base_mem_reg_unsafe mem fuel val ≡ ok mr
      → is_ptr_written mem fuel s (region mr) ≡ ok b
      → check_tainted identify vars mem fuel decls loc val start_context
        ≡ ok (tested (identify.is_used_var vars fd && (not (mr == 0) && b)))
  unfolding check_tainted tested
  check_tainted_lem loc val fd mr b e f g = ground arith

  taint_written_lem :
      (loc val mw : ℕ) (alloc bug : Bool) (s' : PtrState)
      → get_top_base_mem_reg_l_or_r mem fuel loc val (not alloc) ≡ ok mw
      → write_ptr_region mem fuel s mw ≡ ok s'
      → taint_written identify vars mem fuel loc val alloc (tested bug)
        ≡ ok (if mw == 0 then tested bug else add_new_state same_state s s' (tested bug))
  unfolding taint_written tested
  taint_written_lem loc val mw alloc bug s' e f = ground arith

  abbrev bound : ℕ → Bool → PtrState → CheckerContext PtrState
  bound mw bug s' = if mw == 0 then tested bug else add_new_state same_state s s' (tested bug)

  reports_bound :
      (mw : ℕ) (bug : Bool) (s' : PtrState)
      → reports (bound mw bug s').calls
        ≡ (if bug then (if gives [] then not_flushed ∷ [] else []) else [])
  unfolding tested add_new_state push reports
  reports_bound mw bug s' = ground arith

  successors_bound :
      (mw : ℕ) (s' : PtrState)
      → write_ptr_region mem fuel s mw ≡ ok s'
      → successors (bound mw false s') ≡ s' ∷ []
  unfolding tested write_ptr_region successors
  successors_bound mw s' e = elim (Bool-cases (mw == 0)) [
    | inl null ↦ ground arith
    | inr valid ↦ rw valid (new_state_successors gives top d s s')
  ]

  module _ (rank : Target → ℕ) (ranked : IsRanked mem rank) where
    -- A bind of `val` to `loc`, where the lookups of its field, its regions and its allocation end,
    -- the fuel is above the rank of the region that is read, and the write of the region that is
    -- written gives a state. It returns. It reports a pointer that is not flushed, if clang gives an
    -- error node, where the field is annotated, there is a region that is read, and this region is
    -- written by the rules. Otherwise it reports nothing, and the path goes on with the state of
    -- the write and with no other.
    pub check_bind-Written :
        (ast : Ast) (is_new_expr : ℕ → Bool) (traverse : ℕ → List ℕ) (loc val st fd mr mw : ℕ)
        (alloc : Bool) (s' : PtrState)
        → is_alloc_used ast is_new_expr traverse st ≡ ok alloc
        → get_mem_field_decl_at mem decls fuel loc ≡ ok fd
        → get_top_base_mem_reg_unsafe mem fuel val ≡ ok mr
        → rank (region mr) < fuel
        → get_top_base_mem_reg_l_or_r mem fuel loc val (not alloc) ≡ ok mw
        → write_ptr_region mem fuel s mw ≡ ok s'
        → (c : CheckerContext PtrState) × (check_bind identify vars mem fuel decls ast is_new_expr
              traverse loc val st start_context
            ≡ ok c)
          × ((identify.is_used_var vars fd ≡ true) × (mr ≢ 0) × Written mem s (region mr)
              → reports c.calls ≡ (if gives [] then not_flushed ∷ [] else []))
          × (¬ ((identify.is_used_var vars fd ≡ true) × (mr ≢ 0) × Written mem s (region mr))
              → (reports c.calls ≡ []) × (successors c ≡ s' ∷ []))
    unfolding check_bind
    check_bind-Written ast is_new_expr traverse loc val st fd mr mw alloc s' ea ef em small ew es =
        let (b, eb, yes_, has) =
          answer_of (is_ptr_written-Decides mem s rank ranked fuel (region mr) small) in
        let bug : Bool = identify.is_used_var vars fd && (not (mr == 0) && b) in
        (
          bound mw bug s',
          rw ea (
              rw (check_tainted_lem loc val fd mr b ef em eb)
                (taint_written_lem loc val mw alloc bug s' ew es)),
          λ h.
              reports_bound mw bug s'
              ∙ rw (reason_to_bug (identify.is_used_var vars fd) mr b h.0 h.1 (has h.2)) refl,
          λ lacks.
              let clean : bug ≡ false =
                no_reason (identify.is_used_var vars fd) mr b (λ u n t. lacks (u, n, yes_ t)) in
              (reports_bound mw bug s' ∙ rw clean refl, rw clean (successors_bound mw s' es)),
        )
