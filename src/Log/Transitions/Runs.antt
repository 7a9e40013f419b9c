-- ===== src/Log/Transitions/Runs.antt =====
-- A straight line of statements under LogTransitions.h, and the rules of the log checker on it.
use nvmordering.Base.{
  ℕ, zero, suc, Bool, true, false, ◌||◌, not, ◌==◌, if◌then◌else◌, ◌≡◌, ◌≢◌, inl, inr, refl, ◌∙◌,
  ap, Result, ok, err, ◌>>=◌, fold_result, List, [], ◌∷◌, map, Bool-cases, arith,
}
use nvmordering.Clang.{Ast, same_kind, binary_operator, call_expr}
use nvmordering.Log.Lattice.{LogLattice, inc, dec, get_begin_tx, get_end_tx, get_logged, is_logged}
use nvmordering.Log.Functions.{
  get_tx_function, is_used_var, is_log_function, is_tx_begin_function, is_tx_end_function,
}
use nvmordering.Log.StmtParser.{
  Globals, TransitionInfo, TransferFunction, log_func, tx_begin_func, tx_end_func, no_func,
  plain_transition, new_transition, parse_write, parse_log, parse_call, parse_stmt,
}
use nvmordering.Log.Reporter.{AbstractState, Reporter}
use nvmordering.Log.Transitions.{Outcome, handle_stmt}
use nvmordering.Log.Transitions.Step.{handle_transition-IsLogStep}
use nvmordering.Log.Transitions.Rule.{IsLogStep, value, value_after}

-- What the transitions need of the globals: a function begins transactions, and it and the null
-- pointer are no fields.
pub record IsCollected (g : Globals) : Type 0 where
  pub tx : ℕ
  pub is_tx : get_tx_function g.functions ≡ ok tx
  pub no_null : is_used_var g.variables 0 ≡ false
  pub no_field : is_used_var g.variables tx ≡ false

-- The transition that a statement is, by the parser.
abbrev or_none : Result TransitionInfo → TransitionInfo
or_none (ok ti) = ti
or_none (err _) = plain_transition no_func

unfoldable pub transition_of : Ast → Globals → ℕ → TransitionInfo
transition_of ast g s = or_none (parse_stmt ast g s)

-- A parse that does not fault.
abbrev Parses : Result TransitionInfo → Type 0
Parses m = (ti : TransitionInfo) × (m ≡ ok ti)

module _ (ast : Ast) (g : Globals) (z : is_used_var g.variables 0 ≡ false) where
  new_transition-Parses :
      (f : TransferFunction) (var : ℕ)
      → is_used_var g.variables var ≡ true
      → Parses (new_transition f var)
  unfolding new_transition
  new_transition-Parses f zero used = cc (z, used)
  new_transition-Parses f (suc n) used = (record { transfer_func = f; var = suc n }, ground arith)

  plain-Parses : (f : TransferFunction) → Parses (ok (plain_transition f))
  plain-Parses f = (plain_transition f, refl)

  used-Parses :
      (f : TransferFunction) (vd : ℕ)
      → Parses (
          if not (is_used_var g.variables vd)
          then ok (plain_transition no_func)
          else new_transition f vd)
  used-Parses f vd = elim (Bool-cases (is_used_var g.variables vd)) [
    | inl used ↦ rw used (new_transition-Parses f vd used)
    | inr unused ↦ rw unused (plain-Parses no_func)
  ]

  parse_call-Parses : (ce : ℕ) → Parses (parse_call ast g ce)
  unfolding parse_call parse_log
  parse_call-Parses ce =
      let fs = g.functions in
      let fd = ast.direct_callee ce in
      elim (Bool-cases (fd == 0)) [
        | inl e ↦ rw e (plain-Parses no_func)
        | inr e ↦ rw e (elim (Bool-cases (is_log_function fs fd)) [
          | inl e ↦ rw e (used-Parses _ _)
          | inr e ↦ rw e (elim (Bool-cases (is_tx_begin_function fs fd)) [
            | inl e ↦ rw e (plain-Parses tx_begin_func)
            | inr e ↦ rw e (elim (Bool-cases (is_tx_end_function fs fd)) [
              | inl e ↦ rw e (plain-Parses tx_end_func)
              | inr e ↦ rw e (plain-Parses no_func)
            ])
          ])
        ])
      ]

  parse_stmt-Parses : (s : ℕ) → Parses (parse_stmt ast g s)
  unfolding parse_stmt parse_write
  parse_stmt-Parses s = elim (Bool-cases (same_kind (ast.kind s) binary_operator)) [
    | inl e ↦ rw e (used-Parses _ _)
    | inr e ↦ rw e (elim (Bool-cases (same_kind (ast.kind s) call_expr)) [
      | inl e ↦ rw e (parse_call-Parses s)
      | inr e ↦ rw e (plain-Parses no_func)
    ])
  ]

  parse_stmt-total : (s : ℕ) → parse_stmt ast g s ≡ ok (transition_of ast g s)
  unfolding transition_of
  parse_stmt-total s = let (ti, e) = parse_stmt-Parses s in rw e refl

-- One statement of a straight line, the flag left out.
unfoldable pub run_stmt :
    Ast → Globals → ℕ → AbstractState × Reporter → Result (AbstractState × Reporter)
run_stmt ast g s (state, r) = handle_stmt g ast s state r >>= λ out. ok (out.1, out.2)

unfoldable pub run_stmts :
    Ast → Globals → List ℕ → AbstractState × Reporter → Result (AbstractState × Reporter)
run_stmts ast g = fold_result (run_stmt ast g)

-- The depth of transactions behind a list of transitions, and whether one of them logs `x`.
unfoldable pub depth_after : List TransitionInfo → ℕ → ℕ
depth_after [] n = n
depth_after (ti ∷ tis) n =
    depth_after tis (elim ti.transfer_func [ tx_begin_func ↦ inc n | tx_end_func ↦ dec n | _ ↦ n ])

abbrev is_log_of : ℕ → TransitionInfo → Bool
is_log_of x ti = elim ti.transfer_func [ log_func ↦ ti.var == x | _ ↦ false ]

unfoldable pub logged_in : ℕ → List TransitionInfo → Bool
logged_in x [] = false
logged_in x (ti ∷ tis) = is_log_of x ti || logged_in x tis

after-tx :
    (f : TransferFunction) (own : Bool) (v : LogLattice)
    → (value_after f own true v).tx
      ≡ (elim f [ tx_begin_func ↦ inc v.tx | tx_end_func ↦ dec v.tx | _ ↦ v.tx ])
unfolding value_after get_begin_tx get_end_tx get_logged
after-tx log_func own v = ground arith
after-tx tx_begin_func own v = refl
after-tx tx_end_func own v = refl
after-tx _ own v = refl

after-logged :
    (f : TransferFunction) (own : Bool) (v : LogLattice)
    → is_logged (value_after f own false v)
      ≡ (is_logged v || (elim f [ log_func ↦ own | _ ↦ false ]))
unfolding value_after get_logged is_logged
after-logged log_func own v = ground arith
after-logged tx_begin_func own v = ground arith
after-logged tx_end_func own v = ground arith
after-logged _ own v = ground arith

module _ (ast : Ast) (g : Globals) (c : IsCollected g) where
  -- `handleStmt` on a statement: the parser and the transition together.
  pub handle_stmt-IsLogStep :
      (s : ℕ) (state : AbstractState) (r : Reporter)
      → let ti = transition_of ast g s in
        (out : Outcome) × (handle_stmt g ast s state r ≡ ok out)
        × IsLogStep c.tx s ti.transfer_func ti.var state r out
  unfolding handle_stmt
  handle_stmt-IsLogStep s state r =
      rw (parse_stmt-total ast g c.no_null s)
        (handle_transition-IsLogStep g c.tx c.is_tx s state r (transition_of ast g s))

  -- A straight line never ends in a fault. The depth of transactions counts the calls that begin
  -- and end one, and a field is logged behind it if it was before or if a call logs it.
  pub run_stmts_lem :
      (ss : List ℕ) (state : AbstractState) (r : Reporter)
      → (out : AbstractState × Reporter) × (run_stmts ast g ss (state, r) ≡ ok out)
        × ((value out.0 c.tx).tx ≡ depth_after (map (transition_of ast g) ss) (value state c.tx).tx)
        × ((x : ℕ)
            → x ≢ c.tx
            → is_logged (value out.0 x)
              ≡ (is_logged (value state x) || logged_in x (map (transition_of ast g) ss)))
  unfolding run_stmts fold_result run_stmt depth_after logged_in
  run_stmts_lem [] state r = ((state, r), refl, refl, λ x nx. ground arith)
  run_stmts_lem (s ∷ ss) state r =
      let ti = transition_of ast g s in
      let (mid, steps, step) = handle_stmt-IsLogStep s state r in
      let (out, runs, depth, logs) = run_stmts_lem ss mid.1 mid.2 in
      let own = ti.var == c.tx in
      (
        out,
        rw steps runs,
        depth
            ∙ ap (depth_after (map (transition_of ast g) ss)) (
                ground (arith, step.values c.tx, after-tx ti.transfer_func own (value state c.tx))),
        λ x nx. ground (
          arith,
          logs x nx,
          step.values x,
          after-logged ti.transfer_func (ti.var == x) (value state x),
        ),
      )
