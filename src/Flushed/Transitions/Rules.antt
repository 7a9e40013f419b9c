-- ===== src/Flushed/Transitions/Rules.antt =====
-- The rule of the flush checker on straight-line code.
use nvmordering.Base.{
  ℕ, Bool, true, false, ◌&&◌, ◌||◌, not, ◌==◌, ◌≡◌, refl, ◌∙◌, ap, List, [], ◌∷◌, map, member,
  arith,
}
use nvmordering.Clang.{Ast}
use nvmordering.Flushed.Lattice.{Dcl, dcl_no}
use nvmordering.Flushed.StmtParser.{
  Globals, TransitionInfo, AccessType, tracked_variable_access, write_func, flush_func,
  flush_fence_func, pfence_func, parse_stmt, get_field_fti, get_tracked_variable_fti,
}
use nvmordering.Flushed.Reporter.{AbstractState, BugData, Reporter, get_last_location}
use nvmordering.Flushed.Transitions.{handle_stmt}
use nvmordering.Flushed.Transitions.Step.{
  bug_of, dcl_after, handle_transition-IsFlushStep, is_report, reported, same_bug, value,
}

-- A straight line of statements.
unfoldable pub run_stmts :
    Ast → Globals → List ℕ → AbstractState → Reporter → AbstractState × Reporter
run_stmts ast g [] state r = (state, r)
run_stmts ast g (s ∷ ss) state r =
    let out = handle_stmt ast g s state r in run_stmts ast g ss out.1 out.2

-- The life of `x` over a list of transitions.
unfoldable pub life : ℕ → List TransitionInfo → Dcl → Dcl
life x [] d = d
life x (ti ∷ tis) d =
    life x tis (dcl_after ti.transfer_func ti.access_type (ti.tracked_variable == x) d)

-- The transitions that end the way of `x` to memory, and the assignments to `x` and its flushes.
abbrev pub is_fence_of : ℕ → TransitionInfo → Bool
is_fence_of x ti = elim ti.transfer_func [
  | pfence_func ↦ true
  | flush_fence_func ↦ ti.tracked_variable == x
  | _ ↦ false
]

-- Whether the variable itself is written or flushed, and not a field that it is written into.
abbrev pub is_to_itself : AccessType → Bool
is_to_itself tracked_variable_access = true
is_to_itself _ = false

abbrev pub is_change_of : ℕ → TransitionInfo → Bool
is_change_of x ti = elim ti.transfer_func [
  | write_func ↦ is_to_itself ti.access_type && ti.tracked_variable == x
  | flush_func ↦ is_to_itself ti.access_type && ti.tracked_variable == x
  | _ ↦ false
]

abbrev pub Never : (TransitionInfo → Bool) → List TransitionInfo → Type 0
Never test [] = Unit
Never test (ti ∷ tis) = (test ti ≡ false) × Never test tis

abbrev is_committed : Dcl → Bool
is_committed d = dcl_no d == 2

after-uncommitted :
    (x : ℕ) (ti : TransitionInfo) (d : Dcl)
    → is_fence_of x ti ≡ false
    → is_committed d ≡ false
    → is_committed (dcl_after ti.transfer_func ti.access_type (ti.tracked_variable == x) d) ≡ false
unfolding dcl_after
after-uncommitted x ti d n h = ground arith

life-uncommitted :
    (x : ℕ) (tis : List TransitionInfo) (d : Dcl)
    → Never (is_fence_of x) tis
    → is_committed d ≡ false
    → is_committed (life x tis d) ≡ false
unfolding life
life-uncommitted x [] d n h = h
life-uncommitted x (ti ∷ tis) d (n, ns) h =
    life-uncommitted x tis _ ns (after-uncommitted x ti d n h)

after-committed :
    (x : ℕ) (ti : TransitionInfo) (d : Dcl)
    → is_change_of x ti ≡ false
    → is_committed d ≡ true
    → is_committed (dcl_after ti.transfer_func ti.access_type (ti.tracked_variable == x) d) ≡ true
unfolding dcl_after
after-committed x ti d n h = ground arith

life-committed :
    (x : ℕ) (tis : List TransitionInfo) (d : Dcl)
    → Never (is_change_of x) tis
    → is_committed d ≡ true
    → is_committed (life x tis d) ≡ true
unfolding life
life-committed x [] d n h = h
life-committed x (ti ∷ tis) d (n, ns) h = life-committed x tis _ ns (after-committed x ti d n h)

module _ (ast : Ast) (g : Globals) where
  run_stmts-value :
      (x : ℕ) (ss : List ℕ) (state : AbstractState) (r : Reporter)
      → (value (run_stmts ast g ss state r).0 x
          ≡ life x (map (parse_stmt ast g) ss) (value state x))
        × ((run_stmts ast g ss state r).1.bugged_vars ≡ r.bugged_vars)
  unfolding run_stmts life handle_stmt
  run_stmts-value x [] state r = (refl, refl)
  run_stmts-value x (s ∷ ss) state r =
      let out = handle_stmt ast g s state r in
      let step = handle_transition-IsFlushStep s (parse_stmt ast g s) state r in
      let (lives, flags) = run_stmts-value x ss out.1 out.2 in
      (lives ∙ ap (life x (map (parse_stmt ast g) ss)) (step.values x), flags ∙ step.flagged)

  -- The reports of a write of `x` into the field `f` behind a straight line.
  field_write :
      (x f : ℕ) (ss : List ℕ) (s : ℕ) (state : AbstractState) (r : Reporter)
      → member x r.bugged_vars ≡ false
      → parse_stmt ast g s ≡ get_field_fti write_func f x
      → let mid = run_stmts ast g ss state r in
        (b : BugData)
        → reported b (handle_stmt ast g s mid.0 mid.1).2.bug_data_list ≡ (
            reported b mid.1.bug_data_list
            || (not (is_committed (life x (map (parse_stmt ast g) ss) (value state x)))
                && same_bug (bug_of s (get_last_location x mid.1) x) b))
  unfolding handle_stmt is_report
  field_write x f ss s state r new w b =
      let mid = run_stmts ast g ss state r in
      let step = handle_transition-IsFlushStep s (parse_stmt ast g s) mid.0 mid.1 in
      ground (arith, (rw w at step.reports b), w, run_stmts-value x ss state r)

  -- If a variable is assigned, and behind that no fence and no flush of it that is one comes on a
  -- straight line, then its write into a field is reported, at its last location.
  pub unfenced-reported :
      (x f s1 : ℕ) (ss : List ℕ) (s : ℕ) (state : AbstractState) (r : Reporter)
      → member x r.bugged_vars ≡ false
      → parse_stmt ast g s1 ≡ get_tracked_variable_fti write_func x
      → Never (is_fence_of x) (map (parse_stmt ast g) ss)
      → parse_stmt ast g s ≡ get_field_fti write_func f x
      → let mid = run_stmts ast g (s1 ∷ ss) state r in
        reported
          (bug_of s (get_last_location x mid.1) x)
          (handle_stmt ast g s mid.0 mid.1).2.bug_data_list
        ≡ true
  unfolding life dcl_after
  unfenced-reported x f s1 ss s state r new w1 quiet w =
      let mid = run_stmts ast g (s1 ∷ ss) state r in
      let b = bug_of s (get_last_location x mid.1) x in
      let start =
        dcl_after (parse_stmt ast g s1).transfer_func (parse_stmt ast g s1).access_type
          ((parse_stmt ast g s1).tracked_variable == x) (value state x) in
      let dirty : is_committed start ≡ false = rw w1 (ground arith) in
      ground (
        arith,
        field_write x f (s1 ∷ ss) s state r new w b,
        life-uncommitted x (map (parse_stmt ast g) ss) start quiet dirty,
      )

  -- If a variable that is not flagged is flushed by a flush that is a fence, and behind that it is
  -- neither assigned nor flushed by a flush that is no fence on a straight line, which may write it
  -- into fields, then its write into a field adds no report.
  pub persisted-not_reported :
      (x f s1 : ℕ) (ss : List ℕ) (s : ℕ) (state : AbstractState) (r : Reporter)
      → member x r.bugged_vars ≡ false
      → parse_stmt ast g s1 ≡ get_tracked_variable_fti flush_fence_func x
      → Never (is_change_of x) (map (parse_stmt ast g) ss)
      → parse_stmt ast g s ≡ get_field_fti write_func f x
      → (b : BugData)
      → let mid = run_stmts ast g (s1 ∷ ss) state r in
        reported b (handle_stmt ast g s mid.0 mid.1).2.bug_data_list
        ≡ reported b mid.1.bug_data_list
  unfolding life dcl_after
  persisted-not_reported x f s1 ss s state r new w1 quiet w b =
      let start =
        dcl_after (parse_stmt ast g s1).transfer_func (parse_stmt ast g s1).access_type
          ((parse_stmt ast g s1).tracked_variable == x) (value state x) in
      let clean : is_committed start ≡ true = rw w1 (ground arith) in
      ground (
        arith,
        field_write x f (s1 ∷ ss) s state r new w b,
        life-committed x (map (parse_stmt ast g) ss) start quiet clean,
      )
