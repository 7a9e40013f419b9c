-- ===== src/Flushed/Lattice.antt =====
-- lib/flushedchecker/analyzer/FlushedLattice.h: how far a variable is on its way to memory. The base
-- class DclValue is one field.
use nvmordering.Base.{ℕ, Bool, ltb, ◌==◌, if◌then◌else◌}

pub data Dcl : Type 0 where
  write flush pfence unseen : Dcl

abbrev pub dcl_no : Dcl → ℕ
dcl_no write = 0
dcl_no flush = 1
dcl_no pfence = 2
dcl_no unseen = 3

pub record FlushedLattice : Type 0 where
  pub dcl : Dcl

-- FlushedLattice(), which is also getInit()
abbrev pub new_lattice : FlushedLattice
new_lattice = record { dcl = unseen }

unfoldable pub meet_value : FlushedLattice → FlushedLattice → FlushedLattice
meet_value self val =
    if ltb (dcl_no val.dcl) (dcl_no self.dcl) then record { dcl = val.dcl } else self

-- `meet` is a static function of one argument
unfoldable pub meet : FlushedLattice → FlushedLattice
unfolding meet_value
meet value = meet_value new_lattice value

abbrev pub get_write : FlushedLattice → FlushedLattice
get_write val = record val { dcl = write }

abbrev pub get_flush : FlushedLattice → FlushedLattice
get_flush val = record val { dcl = flush }

abbrev pub get_pfence : FlushedLattice → FlushedLattice
get_pfence val = record val { dcl = pfence }

abbrev pub is_flush : FlushedLattice → Bool
is_flush v = dcl_no v.dcl == dcl_no flush

abbrev pub is_pfence : FlushedLattice → Bool
is_pfence v = dcl_no v.dcl == dcl_no pfence

-- `operator==`
unfoldable pub eq_lattice : FlushedLattice → FlushedLattice → Bool
eq_lattice v x = dcl_no v.dcl == dcl_no x.dcl
