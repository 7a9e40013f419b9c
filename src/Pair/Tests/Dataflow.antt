-- ===== src/Pair/Tests/Dataflow.antt =====
-- The merge and the loop over contexts of the dataflow analysis, with the pair checker.
use nvmordering.Base.{
  ℕ, true, ◌≡◌, refl, ok, [], ◌∷◌, Map, lookup, has_key, ap, if◌then◌else◌, arith,
}
use nvmordering.Dataflow.Location.{top_context}
use nvmordering.Dataflow.Merge.{merge_in_state}
use nvmordering.Dataflow.Merge.Order.{merge_in_state-overwrites}
use nvmordering.Dataflow.Analysis.{compute_dataflow, compute_function}
use nvmordering.Dataflow.Store.{start_store}
use nvmordering.Dataflow.ListMaps.{list_maps, list_maps-IsMap}
use nvmordering.Dataflow.Analysis.Callers.{compute_dataflow-one_turn}
use nvmordering.Pair.Lattice.{PairLattice, dcl_type, write_dcl, pfence, unseen_scl, eq_lattice}
use nvmordering.Pair.Lattice.Meet.{meet-IsProper, eq_lattice_iff}
use nvmordering.Pair.Analyzer.{pair_manager}
use nvmordering.Pair.Sample.{sample}
use nvmordering.Pair.Tests.{sample_globals}
use nvmordering.Pair.Tests.Runs.{no_reports}
use nvmordering.Pair.Tests.Analysis.{sample_cfg}

abbrev dirty : PairLattice
dirty = record { dcl = write_dcl; scl = unseen_scl; lattice_type = dcl_type }

abbrev committed : PairLattice
committed = record { dcl = pfence; scl = unseen_scl; lattice_type = dcl_type }

-- A predecessor where the field is committed wins over an earlier one where it is dirty.
merge_in_state-overwrites_example :
    (merged : Map PairLattice) × (merge_in_state
        (pair_manager sample)
        ((1, dirty) ∷ [])
        ((1, committed) ∷ [])
      ≡ ok merged)
    × ((j : ℕ)
        → lookup j merged ≡ (
            if has_key j ((1, committed) ∷ [])
            then lookup j ((1, committed) ∷ [])
            else lookup j ((1, dirty) ∷ [])))
merge_in_state-overwrites_example =
    merge_in_state-overwrites (pair_manager sample) ((1, dirty) ∷ []) ((1, committed) ∷ []) (tt, tt)
      (meet-IsProper committed (λ e. refl, λ e. ground arith, omega arith), tt)

eq_lattice_self : (v : PairLattice) → eq_lattice v v ≡ true
eq_lattice_self v = (eq_lattice_iff v v).1 refl

compute_dataflow-one_turn_example :
    compute_dataflow list_maps sample
      (sample_cfg (21 ∷ 22 ∷ []))
      (pair_manager sample)
      20
      2
      2
      10
      (sample_globals, no_reports)
    ≡ compute_function list_maps sample
        (sample_cfg (21 ∷ 22 ∷ []))
        (pair_manager sample)
        20
        2
        10
        top_context
        (start_store list_maps (sample_globals, no_reports))
compute_dataflow-one_turn_example =
    compute_dataflow-one_turn list_maps list_maps-IsMap sample (sample_cfg (21 ∷ 22 ∷ []))
      (pair_manager sample) (λ v. ap ok (eq_lattice_self v)) 20 2 1 10 (sample_globals, no_reports)
