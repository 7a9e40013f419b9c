-- ===== src/Pair/Transitions/Ordering.antt =====
-- The rule that the pair checker is for, on straight-line code: a field is committed, flushed and
-- then fenced, before the other field of its pair is written.
use nvmordering.Base.{
  ℕ, true, false, ◌&&◌, ◌||◌, not, ◌==◌, ◌≡◌, ◌⊎◌, refl, ◌∙◌, ap, ok, List, [], ◌∷◌, ◌++◌, map, get,
  get-insert, member, arith,
}
use nvmordering.Clang.{Ast}
use nvmordering.Pair.Lattice.{default_lattice, has_dcl, get_write, is_write_flush}
use nvmordering.Pair.StmtParser.{Globals, TransitionInfo, write_func}
use nvmordering.Pair.Reporter.{AbstractState, BugData, Reporter, update_last_location}
use nvmordering.Pair.Reporter.Partners.{IsCollected, is_partner}
use nvmordering.Pair.Reporter.Checks.{reported, uncommitted, is_new_bug, bug_of, same_bug}
use nvmordering.Pair.Transitions.{Outcome, handle_stmt}
use nvmordering.Pair.Transitions.Values.{value}
use nvmordering.Pair.Transitions.Rule.{IsSound, is_report}
use nvmordering.Pair.Transitions.Runs.{
  transition_of, run_stmts, run_stmts_lem, handle_stmt-IsStep, life, IsAcross,
}
use nvmordering.Pair.Transitions.Life.{
  Never, is_write_of, is_flush_of, is_fence_of, is_pfence_stmt, is_pending, life_written,
  life_committed,
}

map-append : (f : ℕ → TransitionInfo) (xs ys : List ℕ) → map f (xs ++ ys) ≡ map f xs ++ map f ys
map-append f [] ys = refl
map-append f (x ∷ xs) ys = ap (◌∷◌ (f x)) (map-append f xs ys)

-- What a write of `y` reports of another field `x`.
report_of_write :
    (g : Globals) (unit s y x : ℕ) (state : AbstractState) (r : Reporter) (b : BugData)
    → (y == x) ≡ false
    → b.pair_var ≡ x
    → is_report g unit s write_func y state r b ≡ (
        not (member y r.bugged_vars)
        && (is_partner g unit y x
            && (uncommitted state x && same_bug (bug_of s y x r.last_location_map) b)))
unfolding is_report is_new_bug uncommitted update_last_location
report_of_write g unit s y x state r b ne e = ground (
  arith,
  get-insert default_lattice x y (get_write (get default_lattice y state)) state,
  get-insert 0 x y s r.last_location_map,
)

uncommitted-pending :
    (state : AbstractState) (x : ℕ)
    → is_pending (value state x).dcl ≡ true
    → uncommitted state x ≡ true
unfolding uncommitted is_write_flush
uncommitted-pending state x h = ground arith

committed-across :
    (state : AbstractState) (x : ℕ)
    → IsAcross (value state x)
    → is_pending (value state x).dcl ≡ false
    → uncommitted state x ≡ false
unfolding uncommitted is_write_flush
committed-across state x a h = ground arith

across_has_dcl :
    (state : AbstractState) (x : ℕ) → IsAcross (value state x) → has_dcl (value state x) ≡ true
unfolding has_dcl
across_has_dcl state x a = ground arith

module _ (ast : Ast) (g : Globals) (c : IsCollected g) (x : ℕ) where
  -- The end of both theorems: a straight line, and a write of `y` behind it.
  write_after_run :
      (ss : List ℕ) (s y : ℕ) (state : AbstractState) (r : Reporter)
      → IsSound g c.unit state r
      → transition_of ast g s ≡ record { transfer_func = write_func; var = y }
      → (y == x) ≡ false
      → (mid : AbstractState × Reporter) × (run_stmts ast g ss (state, r) ≡ ok mid)
        × (has_dcl (value state x) ≡ true
            → (value mid.0 x).dcl ≡ life x (map (transition_of ast g) ss) (value state x).dcl)
        × (IsAcross (value state x) → IsAcross (value mid.0 x))
        × ((out : Outcome) × (handle_stmt g ast s mid.0 mid.1 ≡ ok out)
            × ((b : BugData)
                → b.pair_var ≡ x
                → reported b out.2.bug_data_list ≡ (
                    reported b mid.1.bug_data_list
                    || (not (member y mid.1.bugged_vars)
                        && (is_partner g c.unit y x
                            && (uncommitted mid.0 x
                                && same_bug (bug_of s y x mid.1.last_location_map) b))))))
  write_after_run ss s y state r i w ne =
      let (mid, runs, sound, lives, across) = run_stmts_lem ast g c ss state r i in
      let (out, steps, step) = handle_stmt-IsStep ast g c s mid.0 mid.1 sound in
      (
        mid,
        runs,
        λ h. (lives x h).0,
        across x,
        (
          out,
          steps,
          λ b e.
              (rw w at step.reports b)
              ∙ ap (λ t. reported b mid.1.bug_data_list || t)
                  (report_of_write g c.unit s y x mid.0 mid.1 b ne e),
        ),
      )

  -- In a state that the reporter can rely on: if a field `x` that has pairs across lines is written,
  -- and after it either never flushed or never fenced on a straight line, and then a partner `y` of
  -- it in the active unit is written, another field than `x`, the checker runs without a fault, and
  -- either `y` has been reported on before or the write of `y` is reported with `x`, at the last
  -- location of `x`.
  pub uncommitted-reported :
      (s1 : ℕ) (ss : List ℕ) (s y : ℕ) (state : AbstractState) (r : Reporter)
      → IsSound g c.unit state r
      → has_dcl (value state x) ≡ true
      → transition_of ast g s1 ≡ record { transfer_func = write_func; var = x }
      → Never (is_flush_of x) (map (transition_of ast g) ss)
        ⊎ Never (is_fence_of x) (map (transition_of ast g) ss)
      → transition_of ast g s ≡ record { transfer_func = write_func; var = y }
      → (y == x) ≡ false
      → is_partner g c.unit y x ≡ true
      → (mid : AbstractState × Reporter) × (run_stmts ast g (s1 ∷ ss) (state, r) ≡ ok mid)
        × (out : Outcome) × (handle_stmt g ast s mid.0 mid.1 ≡ ok out)
        × ((member y mid.1.bugged_vars ≡ true)
            ⊎ (reported (bug_of s y x mid.1.last_location_map) out.2.bug_data_list ≡ true))
  unfolding life
  uncommitted-reported s1 ss s y state r i d w1 quiet w ne partner =
      let tis = map (transition_of ast g) ss in
      let (mid, runs, lives, _, (out, steps, law)) = write_after_run (s1 ∷ ss) s y state r i w ne in
      let pending : is_pending (value mid.0 x).dcl ≡ true = rw (lives d) (
        life_written x (transition_of ast g s1) (map (transition_of ast g) ss) (value state x).dcl
          w1 quiet) in
      (
        mid,
        runs,
        out,
        steps,
        ground (
          arith,
          uncommitted-pending mid.0 x pending,
          law (bug_of s y x mid.1.last_location_map) refl,
        ),
      )

  -- If `x` is flushed, then not written, then a fence comes, and `x` is not written again, the
  -- checker runs without a fault and a write of any other field reports nothing about `x`.
  pub committed-not_reported :
      (s1 : ℕ) (ss1 : List ℕ) (s2 : ℕ) (ss2 : List ℕ) (s y : ℕ) (state : AbstractState)
      (r : Reporter)
      → IsSound g c.unit state r
      → IsAcross (value state x)
      → is_flush_of x (transition_of ast g s1) ≡ true
      → Never (is_write_of x) (map (transition_of ast g) ss1)
      → is_pfence_stmt (transition_of ast g s2) ≡ true
      → Never (is_write_of x) (map (transition_of ast g) ss2)
      → transition_of ast g s ≡ record { transfer_func = write_func; var = y }
      → (y == x) ≡ false
      → (mid : AbstractState × Reporter) × (run_stmts ast g (s1 ∷ ss1 ++ s2 ∷ ss2) (state, r)
          ≡ ok mid)
        × (out : Outcome) × (handle_stmt g ast s mid.0 mid.1 ≡ ok out)
        × ((b : BugData)
            → b.pair_var ≡ x
            → reported b out.2.bug_data_list ≡ reported b mid.1.bug_data_list)
  committed-not_reported s1 ss1 s2 ss2 s y state r i a f n1 p n2 w ne =
      let (mid, runs, lives, across, (out, steps, law)) =
        write_after_run (s1 ∷ ss1 ++ s2 ∷ ss2) s y state r i w ne in
      let committed : is_pending (value mid.0 x).dcl ≡ false =
        rw
          (lives (across_has_dcl state x a), map-append (transition_of ast g) (s1 ∷ ss1) (s2 ∷ ss2))
          (life_committed x (transition_of ast g s1) (map (transition_of ast g) ss1)
            (transition_of ast g s2) (map (transition_of ast g) ss2) (value state x).dcl f n1 p
            n2) in
      (
        mid,
        runs,
        out,
        steps,
        λ b e. ground (arith, committed-across mid.0 x (across a) committed, law b e),
      )
