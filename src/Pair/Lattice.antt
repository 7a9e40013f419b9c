-- ===== src/Pair/Lattice.antt =====
-- lib/pairchecker/analyzer/PairLattice.h: what is known of one variable. The base classes DclValue
-- and SclValue are two fields. An enumeration is compared by its numbers, as the casts do it.
pub mod Meet
use nvmordering.Base.{
  ℕ, Bool, true, false, ◌&&◌, ◌||◌, not, ltb, ◌==◌, if◌then◌else◌, Result, ok, guard, assert_failed,
  ◌>>=◌, ◌>>◌,
}

-- across cache lines: a write reaches memory by a flush and a fence
pub data Dcl : Type 0 where
  write_dcl flush pfence unseen_dcl : Dcl

-- in one cache line: a fence keeps two writes in order
pub data Scl : Type 0 where
  write_scl vfence unseen_scl : Scl

pub data LatticeType : Type 0 where
  dcl_type scl_type both_type none_type : LatticeType

abbrev pub dcl_no : Dcl → ℕ
dcl_no write_dcl = 0
dcl_no flush = 1
dcl_no pfence = 2
dcl_no unseen_dcl = 3

abbrev pub scl_no : Scl → ℕ
scl_no write_scl = 0
scl_no vfence = 1
scl_no unseen_scl = 2

abbrev pub type_no : LatticeType → ℕ
type_no dcl_type = 0
type_no scl_type = 1
type_no both_type = 2
type_no none_type = 3

pub record PairLattice : Type 0 where
  pub dcl : Dcl
  pub scl : Scl
  pub lattice_type : LatticeType

-- PairLattice(LatticeType)
unfoldable pub new_lattice : LatticeType → Result PairLattice
new_lattice type = do
  guard (ltb (type_no type) (type_no none_type)) assert_failed
  ok (record { dcl = unseen_dcl; scl = unseen_scl; lattice_type = type })

-- PairLattice(): the value that a map's `operator[]` starts with
unfoldable pub default_lattice : PairLattice
default_lattice = record { dcl = unseen_dcl; scl = unseen_scl; lattice_type = none_type }

unfoldable pub get_init : Bool → Bool → Result PairLattice
unfolding new_lattice
get_init is_dcl is_scl = do
  guard (is_dcl || is_scl) assert_failed
  if is_dcl && is_scl
      then new_lattice both_type
      else (if is_dcl then new_lattice dcl_type else new_lattice scl_type)

unfoldable pub get_write : PairLattice → PairLattice
get_write val =
    let type = val.lattice_type in
    record val {
      scl = if type_no type == type_no dcl_type then val.scl else write_scl;
      dcl = if type_no type == type_no scl_type then val.dcl else write_dcl;
    }

unfoldable pub get_flush : PairLattice → PairLattice
get_flush val = record val { dcl = flush }

unfoldable pub get_pfence : PairLattice → PairLattice
get_pfence val = record val { dcl = pfence }

unfoldable pub get_vfence : PairLattice → PairLattice
get_vfence val = record val { scl = vfence }

-- meetValue: the receiver `self` takes the lower of the two, in the parts that `val` has
unfoldable pub meet_value : PairLattice → PairLattice → PairLattice
meet_value self val =
    let type = val.lattice_type in
    record self {
      scl =
          if type_no type == type_no dcl_type
          then self.scl
          else (if ltb (scl_no self.scl) (scl_no val.scl) then self.scl else val.scl);
      dcl =
          if type_no type == type_no scl_type
          then self.dcl
          else (if ltb (dcl_no self.dcl) (dcl_no val.dcl) then self.dcl else val.dcl);
    }

-- `meet` is a static function of one argument: the object that it is called through plays no part
unfoldable pub meet : PairLattice → Result PairLattice
unfolding new_lattice meet_value
meet value = do new_value ← new_lattice value.lattice_type; ok (meet_value new_value value)

unfoldable pub has_scl : PairLattice → Bool
has_scl v =
    type_no v.lattice_type == type_no both_type || type_no v.lattice_type == type_no scl_type

unfoldable pub has_dcl : PairLattice → Bool
has_dcl v =
    type_no v.lattice_type == type_no both_type || type_no v.lattice_type == type_no dcl_type

unfoldable pub is_write : PairLattice → Bool
is_write v = dcl_no v.dcl == dcl_no write_dcl || scl_no v.scl == scl_no write_scl

unfoldable pub is_write_dcl : PairLattice → Bool
is_write_dcl v = dcl_no v.dcl == dcl_no write_dcl

unfoldable pub is_flush : PairLattice → Bool
is_flush v = dcl_no v.dcl == dcl_no flush

unfoldable pub is_write_flush_dcl : PairLattice → Bool
is_write_flush_dcl v = dcl_no v.dcl == dcl_no write_dcl || dcl_no v.dcl == dcl_no flush

unfoldable pub is_write_flush : PairLattice → Bool
is_write_flush v =
    scl_no v.scl == scl_no write_scl
    || (dcl_no v.dcl == dcl_no write_dcl || dcl_no v.dcl == dcl_no flush)

-- `operator==`
unfoldable pub eq_lattice : PairLattice → PairLattice → Bool
eq_lattice v x =
    type_no v.lattice_type == type_no x.lattice_type
    && (dcl_no v.dcl == dcl_no x.dcl && scl_no v.scl == scl_no x.scl)
