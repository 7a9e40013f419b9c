-- ===== src/Pair/Tests/Checks.antt =====
-- The reporter and the single transitions of the pair checker on the sample.
use nvmordering.Base.{
  ℕ, ok, ◌≡◌, ◌||◌, refl, true, [], ◌∷◌, get, lookup, has_key, member, insert, arith, map,
}
use nvmordering.Pair.Lattice.{
  PairLattice, default_lattice, dcl_type, write_dcl, unseen_dcl, unseen_scl, is_write_flush,
  has_dcl,
}
use nvmordering.Pair.Variables.{is_used_var}
use nvmordering.Pair.StmtParser.{write_func}
use nvmordering.Pair.Reporter.{AbstractState, Reporter, BugData, check_bug, get_pair_set}
use nvmordering.Pair.Reporter.Partners.{IsCached, get_pair_set_lem, is_partner}
use nvmordering.Pair.Reporter.Checks.{IsLocated, reported, uncommitted, is_new_bug, check_bug_lem}
use nvmordering.Pair.Transitions.{Outcome, handle_transition}
use nvmordering.Pair.Transitions.Values.{value}
use nvmordering.Pair.Transitions.Step.{handle_transition-IsStep}
use nvmordering.Pair.Transitions.Rule.{IsSound, IsStep}
use nvmordering.Pair.Transitions.Runs.{IsAcross, run_stmts, run_stmts_lem, transition_of, life}
use nvmordering.Pair.Sample.{sample}
use nvmordering.Pair.Tests.{sample_globals}
use nvmordering.Pair.Tests.Runs.{sample_collected, start, no_reports, start-IsSound}

abbrev dirty : PairLattice
dirty = record { dcl = write_dcl; scl = unseen_scl; lattice_type = dcl_type }

-- `data` has been written, at the statement 21.
abbrev written : AbstractState
written = (1, dirty) ∷ (2, record dirty { dcl = unseen_dcl }) ∷ []

abbrev after_write : Reporter
after_write = record no_reports { last_location_map = (1, 21) ∷ [] }

check_used : is_used_var sample_globals.variables 2 ≡ true
unfolding is_used_var has_key lookup
check_used = refl

written-IsLocated : IsLocated written after_write.last_location_map
unfolding uncommitted get lookup is_write_flush has_key default_lattice
written-IsLocated y u = ground arith

empty-IsCached : IsCached sample_globals 10 []
unfolding get lookup member
empty-IsCached nd y h = ground arith

check_bug_lem_example :
    (out : AbstractState × Reporter) × (check_bug sample_globals 2 24 (written, after_write)
      ≡ ok out)
    × ((j : ℕ) → get default_lattice j out.0 ≡ get default_lattice j written)
    × (out.1.last_location_map ≡ after_write.last_location_map)
    × IsCached sample_globals 10 out.1.var_to_pair
    × ((b : BugData)
        → reported b out.1.bug_data_list ≡ (
            reported b after_write.bug_data_list
            || is_new_bug sample_globals 10 2 24 written after_write b))
check_bug_lem_example =
    check_bug_lem sample_globals sample_collected 2 24 written after_write check_used
      written-IsLocated empty-IsCached

get_pair_set_lem_example :
    (out : _) × (get_pair_set sample_globals 2 no_reports
      ≡ ok (out, record no_reports { var_to_pair = insert 2 out no_reports.var_to_pair }))
    × ((y : ℕ) → member y out ≡ is_partner sample_globals 10 2 y)
    × IsCached sample_globals 10 (insert 2 out no_reports.var_to_pair)
get_pair_set_lem_example =
    get_pair_set_lem sample_globals sample_collected 2 no_reports check_used empty-IsCached

handle_transition-IsStep_example :
    (out : Outcome) × (handle_transition sample_globals 24
        (record { transfer_func = write_func; var = 2 })
        start
        no_reports
      ≡ ok out)
    × IsStep sample_globals 10 24 write_func 2 start no_reports out
handle_transition-IsStep_example =
    handle_transition-IsStep sample_globals sample_collected 24 start no_reports start-IsSound
      (record { transfer_func = write_func; var = 2 }) (λ e. check_used)

run_stmts_lem_example :
    (out : AbstractState × Reporter) × (run_stmts sample sample_globals
        (21 ∷ 22 ∷ 23 ∷ 24 ∷ [])
        (start, no_reports)
      ≡ ok out)
    × IsSound sample_globals 10 out.0 out.1
    × ((x : ℕ)
        → has_dcl (value start x) ≡ true
        → ((value out.0 x).dcl
            ≡ life x
                (map (transition_of sample sample_globals) (21 ∷ 22 ∷ 23 ∷ 24 ∷ []))
                (value start x).dcl)
          × (has_dcl (value out.0 x) ≡ true))
    × ((x : ℕ) → IsAcross (value start x) → IsAcross (value out.0 x))
run_stmts_lem_example =
    run_stmts_lem sample sample_globals sample_collected (21 ∷ 22 ∷ 23 ∷ 24 ∷ []) start no_reports
      start-IsSound
