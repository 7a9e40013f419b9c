-- ===== src/Pair/Transitions/Start.antt =====
-- The state that `initLatticeValues` of PairTransitions.h gives a unit.
use nvmordering.Base.{
  ℕ, true, false, ◌&&◌, ◌||◌, ◌==◌, ==_iff, if◌then◌else◌, ◌≡◌, refl, ok, fold_result, List, [],
  ◌∷◌, get, lookup, get-insert, insert, member, arith, subst, Bool-cases, inl, inr,
}
use nvmordering.Globals.Units.{active, empty_unit, get_unit_variables}
use nvmordering.Pair.Lattice.{
  PairLattice, LatticeType, unseen_dcl, unseen_scl, dcl_type, scl_type, both_type, default_lattice,
  get_init, has_dcl, has_scl, is_write_flush, new_lattice,
}
use nvmordering.Pair.Variables.{DsclInfo, PairVariables, no_dscl, get_dscl_info, is_used_var}
use nvmordering.Pair.Variables.Links.{IsLinked}
use nvmordering.Pair.StmtParser.{Globals}
use nvmordering.Pair.Reporter.{AbstractState}
use nvmordering.Pair.Reporter.Partners.{IsCollected, in_unit}
use nvmordering.Pair.Reporter.Checks.{uncommitted}
use nvmordering.Pair.Transitions.{init_lattice_value, init_lattice_values}
use nvmordering.Pair.Transitions.Values.{value}

-- The variables of a list are fields of pairs.
abbrev pub AllUsed : PairVariables → List ℕ → Type 0
AllUsed vs [] = Unit
AllUsed vs (y ∷ ys) = (is_used_var vs y ≡ true) × AllUsed vs ys

abbrev type_of : DsclInfo → LatticeType
type_of d = if d.is_dcl && d.is_scl then both_type else (if d.is_dcl then dcl_type else scl_type)

-- The value that a field starts with: nothing seen, in the parts that its pairs ask for.
abbrev pub fresh : PairVariables → ℕ → PairLattice
fresh vs y = record {
  dcl = unseen_dcl;
  scl = unseen_scl;
  lattice_type = type_of (get no_dscl y vs.used_vars);
}

module _ (g : Globals) (linked : IsLinked g.variables) where
  init_lattice_value_lem :
      (y : ℕ) (state : AbstractState)
      → is_used_var g.variables y ≡ true
      → init_lattice_value g y state ≡ ok (insert y (fresh g.variables y) state)
  unfolding init_lattice_value get_dscl_info is_used_var get_init new_lattice
  init_lattice_value_lem y state used = ground (arith, linked.kinds y used)

  init_loop :
      (ys : List ℕ) (state : AbstractState)
      → AllUsed g.variables ys
      → (out : AbstractState) × (fold_result (init_lattice_value g) ys state ≡ ok out)
        × ((j : ℕ) → value out j ≡ (if member j ys then fresh g.variables j else value state j))
  unfolding fold_result member
  init_loop [] state h = (state, refl, λ j. refl)
  init_loop (y ∷ ys) state (used, h) =
      let state' = insert y (fresh g.variables y) state in
      let (out, runs, law) = init_loop ys state' h in
      (
        out,
        rw (init_lattice_value_lem y state used) runs,
        λ j. elim (Bool-cases (y == j)) [
          | inl e ↦
              ground (
                arith,
                law j,
                ==_iff y j,
                get-insert default_lattice j y (fresh g.variables y) state,
              )
          | inr e ↦
              ground (arith, law j, get-insert default_lattice j y (fresh g.variables y) state)
        ],
      )

-- A field of the list is of a kind.
used_kinds :
    {vs : PairVariables}
    → IsLinked vs
    → (ys : List ℕ) → AllUsed vs ys
    → (y : ℕ) → member y ys ≡ true
    → ((get no_dscl y vs.used_vars).is_dcl || (get no_dscl y vs.used_vars).is_scl) ≡ true
unfolding member
used_kinds l [] h y m = cc
used_kinds {vs} l (x ∷ xs) (used, h) y m = elim (Bool-cases (x == y)) [
  | inl e ↦
      subst
        (λ z. ((get no_dscl z vs.used_vars).is_dcl || (get no_dscl z vs.used_vars).is_scl) ≡ true)
        ((==_iff x y).0 e) (l.kinds x used)
  | inr e ↦ used_kinds l xs h y (rw e at m)
]

nothing_seen : (y : ℕ) → value [] y ≡ default_lattice
unfolding get lookup
nothing_seen y = refl

active_variables :
    (g : Globals) (c : IsCollected g)
    → get_unit_variables g ≡ ok (get empty_unit c.unit g.function_unit_map).unit_variables
unfolding get_unit_variables active
active_variables g c = ground (arith, c.is_active)

-- Where the tables are linked and the active unit holds fields of pairs only, `initLatticeValues`
-- ends without a fault: each field of the unit has the parts that its pairs ask for, and no variable
-- is uncommitted.
pub init_lattice_values_lem :
    (g : Globals) (c : IsCollected g)
    → AllUsed g.variables (get empty_unit c.unit g.function_unit_map).unit_variables
    → (out : AbstractState) × (init_lattice_values g [] ≡ ok out)
      × ((y : ℕ)
          → in_unit g c.unit y ≡ true
          → (has_dcl (value out y) ≡ (get no_dscl y g.variables.used_vars).is_dcl)
            × (has_scl (value out y) ≡ (get no_dscl y g.variables.used_vars).is_scl))
      × ((y : ℕ) → uncommitted out y ≡ false)
unfolding init_lattice_values in_unit uncommitted is_write_flush has_dcl has_scl default_lattice
init_lattice_values_lem g c used =
    let ys = (get empty_unit c.unit g.function_unit_map).unit_variables in
    let (out, runs, law) = init_loop g c.linked ys [] used in
    (
      out,
      rw (active_variables g c) runs,
      λ y h. ground (arith, law y, used_kinds c.linked ys used y h),
      λ y. ground (arith, law y, nothing_seen y),
    )
