-- ===== src/Pair/Lattice/Meet.antt =====
-- What `meet` and `operator==` of PairLattice.h do.
use nvmordering.Base.{true, ◌≡◌, ◌↔◌, ◌≤◌, ◌<◌, ok, arith}
use nvmordering.Pair.Lattice.{
  PairLattice, dcl_type, scl_type, both_type, dcl_no, scl_no, type_no, meet, meet_value, eq_lattice,
  unseen_dcl, unseen_scl,
}

-- A value that holds nothing in the parts that its type does not have.
abbrev pub IsProper : PairLattice → Type 0
IsProper v =
    (v.lattice_type ≡ dcl_type → v.scl ≡ unseen_scl)
    × (v.lattice_type ≡ scl_type → v.dcl ≡ unseen_dcl)
    × (type_no v.lattice_type < 3)

-- `operator==` decides equality.
pub eq_lattice_iff : (v x : PairLattice) → (eq_lattice v x ≡ true) ↔ (v ≡ x)
unfolding eq_lattice
eq_lattice_iff v x = ground arith

-- `meet` gives a proper value back unchanged.
pub meet-IsProper : (v : PairLattice) → IsProper v → meet v ≡ ok v
unfolding meet
meet-IsProper v p = ground arith

-- `meetValue` gives the lower of both in each part of a value of both types, and keeps the receiver's type.
pub meet_value_lower :
    (self val : PairLattice)
    → val.lattice_type ≡ both_type
    → (dcl_no (meet_value self val).dcl ≤ dcl_no self.dcl)
      × (dcl_no (meet_value self val).dcl ≤ dcl_no val.dcl)
      × (scl_no (meet_value self val).scl ≤ scl_no self.scl)
      × (scl_no (meet_value self val).scl ≤ scl_no val.scl)
unfolding meet_value
meet_value_lower self val b = ground arith
