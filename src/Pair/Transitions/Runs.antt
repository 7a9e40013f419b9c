-- ===== src/Pair/Transitions/Runs.antt =====
-- A straight line of statements under PairTransitions.h, against the life of a field.
use nvmordering.Base.{
  ℕ, Bool, true, false, not, ◌==◌, if◌then◌else◌, ◌≡◌, ◌≢◌, refl, ◌∙◌, ap, Result, ok, err, ◌>>=◌,
  fold_result, Bool-cases, inl, inr, zero, suc, List, [], ◌∷◌, map, arith,
}
use nvmordering.Clang.{Ast, same_kind, binary_operator, call_expr}
use nvmordering.Globals.Functions.Direct.{
  is_flush_fence_function, is_flush_opt_function, is_pfence_function, is_vfence_function,
}
use nvmordering.Pair.Lattice.{PairLattice, Dcl, dcl_type, has_dcl, get_write, scl_no}
use nvmordering.Pair.Variables.{is_used_var}
use nvmordering.Pair.StmtParser.{
  Globals, TransitionInfo, TransferFunction, write_func, no_transition, new_transition, parse_write,
  parse_flush, parse_fence, parse_call, parse_stmt, get_fence_function,
}
use nvmordering.Pair.Reporter.{AbstractState, Reporter}
use nvmordering.Pair.Reporter.Partners.{IsCollected}
use nvmordering.Pair.Transitions.{Outcome, fence_value, flush_value, handle_stmt}
use nvmordering.Pair.Transitions.Values.{value, dcl_after}
use nvmordering.Pair.Transitions.Step.{handle_transition-IsStep}
use nvmordering.Pair.Transitions.Rule.{IsSound, IsParsed, IsStep, value_after}

-- The transition that a statement is, by the parser.
abbrev pub or_none : Result TransitionInfo → TransitionInfo
or_none (ok ti) = ti
or_none (err _) = no_transition

unfoldable pub transition_of : Ast → Globals → ℕ → TransitionInfo
transition_of ast g s = or_none (parse_stmt ast g s)

-- A parse that does not fault, and makes a write transition only of a used variable.
abbrev Parses : Globals → Result TransitionInfo → Type 0
Parses g m = (ti : TransitionInfo) × (m ≡ ok ti) × IsParsed g ti

module _ (ast : Ast) (g : Globals) (z : is_used_var g.variables 0 ≡ false) where
  new_transition-Parses :
      (f : TransferFunction) (var : ℕ)
      → is_used_var g.variables var ≡ true
      → Parses g (new_transition f var)
  unfolding new_transition
  new_transition-Parses f zero used = cc (z, used)
  new_transition-Parses f (suc n) used =
      (record { transfer_func = f; var = suc n }, ground arith, λ e. used)

  idle-Parses : (ti : TransitionInfo) → ti.transfer_func ≢ write_func → Parses g (ok ti)
  idle-Parses ti h = (ti, refl, λ e. absurd (h e))

  skip-Parses : Parses g (ok no_transition)
  skip-Parses = idle-Parses no_transition (λ e. cc)

  used-Parses :
      (f : TransferFunction) (vd : ℕ)
      → Parses g
          (if not (is_used_var g.variables vd) then ok no_transition else new_transition f vd)
  used-Parses f vd = elim (Bool-cases (is_used_var g.variables vd)) [
    | inl used ↦ rw used (new_transition-Parses f vd used)
    | inr unused ↦ rw unused (skip-Parses)
  ]

  fence-Parses : (ce : ℕ) (pf : Bool) → Parses g (parse_fence ast g ce pf)
  unfolding parse_fence get_fence_function
  fence-Parses ce pf = idle-Parses _ (ground arith)

  parse_call-Parses : (ce : ℕ) → Parses g (parse_call ast g ce)
  unfolding parse_call parse_flush
  parse_call-Parses ce =
      let fs = g.functions in
      let fd = ast.direct_callee ce in
      elim (Bool-cases (fd == 0)) [
        | inl e ↦ rw e skip-Parses
        | inr e ↦ rw e (elim (Bool-cases (is_flush_fence_function fs fd)) [
          | inl e ↦ rw e (used-Parses _ _)
          | inr e ↦ rw e (elim (Bool-cases (is_flush_opt_function fs fd)) [
            | inl e ↦ rw e (used-Parses _ _)
            | inr e ↦ rw e (elim (Bool-cases (is_pfence_function fs fd)) [
              | inl e ↦ rw e (fence-Parses ce true)
              | inr e ↦ rw e (elim (Bool-cases (is_vfence_function fs fd)) [
                | inl e ↦ rw e (fence-Parses ce false)
                | inr e ↦ rw e skip-Parses
              ])
            ])
          ])
        ])
      ]

  parse_stmt-Parses : (s : ℕ) → Parses g (parse_stmt ast g s)
  unfolding parse_stmt parse_write
  parse_stmt-Parses s = elim (Bool-cases (same_kind (ast.kind s) binary_operator)) [
    | inl e ↦ rw e (used-Parses _ _)
    | inr e ↦ rw e (elim (Bool-cases (same_kind (ast.kind s) call_expr)) [
      | inl e ↦ rw e (parse_call-Parses s)
      | inr e ↦ rw e skip-Parses
    ])
  ]

  -- The parser does not fault where the null pointer is no variable, and a write is of a used one.
  pub parse_stmt-IsParsed :
      (s : ℕ)
      → (parse_stmt ast g s ≡ ok (transition_of ast g s)) × IsParsed g (transition_of ast g s)
  unfolding transition_of
  parse_stmt-IsParsed s = let (ti, e, p) = parse_stmt-Parses s in rw e (refl, p)

-- One statement of a straight line, the flag left out.
unfoldable pub stmt_step :
    Ast → Globals → ℕ → AbstractState × Reporter → Result (AbstractState × Reporter)
stmt_step ast g s (state, r) = handle_stmt g ast s state r >>= λ out. ok (out.1, out.2)

unfoldable pub run_stmts :
    Ast → Globals → List ℕ → AbstractState × Reporter → Result (AbstractState × Reporter)
run_stmts ast g = fold_result (stmt_step ast g)

-- The life of `x` over a list of transitions.
unfoldable pub life : ℕ → List TransitionInfo → Dcl → Dcl
life x [] d = d
life x (ti ∷ tis) d = life x tis (dcl_after (ti.var == x) ti.transfer_func d)

-- A transition changes the part across cache lines as the life says, and no value's type.
pub value_after-dcl :
    (f : TransferFunction) (own : Bool) (v : PairLattice)
    → has_dcl v ≡ true
    → (value_after f own v).dcl ≡ dcl_after own f v.dcl
unfolding value_after dcl_after fence_value flush_value get_write
value_after-dcl write_func own v h = ground arith
value_after-dcl _ own v h = ground arith

pub value_after-type :
    (f : TransferFunction) (own : Bool) (v : PairLattice)
    → (value_after f own v).lattice_type ≡ v.lattice_type
unfolding value_after fence_value flush_value get_write
value_after-type write_func own v = ground arith
value_after-type _ own v = ground arith

pub value_after-has_dcl :
    (f : TransferFunction) (own : Bool) (v : PairLattice)
    → has_dcl v ≡ true
    → has_dcl (value_after f own v) ≡ true
unfolding has_dcl
value_after-has_dcl f own v h = rw (value_after-type f own v) h

-- A value of a field that is only in pairs across cache lines.
pub record IsAcross (v : PairLattice) : Type 0 where
  pub type : v.lattice_type ≡ dcl_type
  pub no_write : (scl_no v.scl == 0) ≡ false

pub value_after-IsAcross :
    (f : TransferFunction) (own : Bool) (v : PairLattice)
    → IsAcross v
    → IsAcross (value_after f own v)
unfolding value_after fence_value flush_value get_write
value_after-IsAcross write_func own v h = ground arith
value_after-IsAcross _ own v h = ground arith

module _ (ast : Ast) (g : Globals) (c : IsCollected g) where
  -- `handleStmt` on a statement: the parser and the transition together.
  pub handle_stmt-IsStep :
      (s : ℕ) (state : AbstractState) (r : Reporter)
      → IsSound g c.unit state r
      → let ti = transition_of ast g s in
        (out : Outcome) × (handle_stmt g ast s state r ≡ ok out)
        × IsStep g c.unit s ti.transfer_func ti.var state r out
  unfolding handle_stmt
  handle_stmt-IsStep s state r i =
      let (parses, p) = parse_stmt-IsParsed ast g c.linked.no_null s in
      rw parses (handle_transition-IsStep g c s state r i (transition_of ast g s) p)

  -- A straight line never ends in a fault, and each field lives as the transitions say.
  pub run_stmts_lem :
      (ss : List ℕ) (state : AbstractState) (r : Reporter)
      → IsSound g c.unit state r
      → (out : AbstractState × Reporter) × (run_stmts ast g ss (state, r) ≡ ok out)
        × IsSound g c.unit out.0 out.1
        × ((x : ℕ)
            → has_dcl (value state x) ≡ true
            → ((value out.0 x).dcl ≡ life x (map (transition_of ast g) ss) (value state x).dcl)
              × (has_dcl (value out.0 x) ≡ true))
        × ((x : ℕ) → IsAcross (value state x) → IsAcross (value out.0 x))
  unfolding run_stmts fold_result stmt_step life
  run_stmts_lem [] state r i = ((state, r), refl, i, λ x h. (refl, h), λ x h. h)
  run_stmts_lem (s ∷ ss) state r i =
      let ti = transition_of ast g s in
      let (mid, steps, step) = handle_stmt-IsStep s state r i in
      let (out, runs, sound, lives, across) = run_stmts_lem ss mid.1 mid.2 step.sound in
      (
        out,
        rw steps runs,
        sound,
        λ x h.
            let (l, k) = lives x (
              rw (step.values x)
                (value_after-has_dcl ti.transfer_func (ti.var == x) (value state x) h)) in
            (
              l
                  ∙ ap (life x (map (transition_of ast g) ss)) (
                      ap (λ (v : PairLattice). v.dcl) (step.values x)
                      ∙ value_after-dcl ti.transfer_func (ti.var == x) (value state x) h),
              k,
            ),
        λ x h. across x (
            rw (step.values x)
              (value_after-IsAcross ti.transfer_func (ti.var == x) (value state x) h)),
      )
