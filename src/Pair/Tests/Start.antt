-- ===== src/Pair/Tests/Start.antt =====
-- The state that the sample's unit starts with.
use nvmordering.Base.{ℕ, true, false, ◌≡◌, refl, ok, [], get, lookup, has_key}
use nvmordering.Globals.Units.{empty_unit}
use nvmordering.Pair.Lattice.{has_dcl, has_scl}
use nvmordering.Pair.Variables.{is_used_var, no_dscl}
use nvmordering.Pair.Reporter.{AbstractState}
use nvmordering.Pair.Reporter.Partners.{in_unit}
use nvmordering.Pair.Reporter.Checks.{uncommitted}
use nvmordering.Pair.Transitions.{init_lattice_values}
use nvmordering.Pair.Transitions.Values.{value}
use nvmordering.Pair.Transitions.Start.{AllUsed, init_lattice_values_lem}
use nvmordering.Pair.Tests.{sample_globals}
use nvmordering.Pair.Tests.Runs.{sample_collected}

sample-AllUsed :
    AllUsed sample_globals.variables
      (get empty_unit 10 sample_globals.function_unit_map).unit_variables
unfolding get lookup is_used_var has_key
sample-AllUsed = (refl, (refl, tt))

init_lattice_values_lem_example :
    (out : AbstractState) × (init_lattice_values sample_globals [] ≡ ok out)
    × ((y : ℕ)
        → in_unit sample_globals 10 y ≡ true
        → (has_dcl (value out y) ≡ (get no_dscl y sample_globals.variables.used_vars).is_dcl)
          × (has_scl (value out y) ≡ (get no_dscl y sample_globals.variables.used_vars).is_scl))
    × ((y : ℕ) → uncommitted out y ≡ false)
init_lattice_values_lem_example =
    init_lattice_values_lem sample_globals sample_collected sample-AllUsed
