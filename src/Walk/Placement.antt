-- ===== src/Walk/Placement.antt =====
-- include/parsers/CachePlacement.h: the cache lines of fields by their names. `new FieldCl()` that is
-- not null is `some`, and `none` the null pointer of a record with a field of unknown size. The
-- numbers of a field are those of AutoCl.
use Prim.Native.String.{String}
use text.Mathlib.Text.{◌==◌ as str_eq}
use nvmordering.Base.{
  ℕ, ◌+◌, ◌/◌, Bool, true, false, not, ◌&&◌, ◌||◌, if◌then◌else◌, Option, none, some, List, [], ◌∷◌,
  Map, insert, get, has_key, Result, ok, err, fatal_error, ◌>>=◌, lookup_str, insert_str,
}
use nvmordering.AutoCl.{ClNos, cl_nos, no_cl, same_line, u32, cache_line_size}

abbrev pub FieldCl : Type 0
FieldCl = List (String × ClNos)

abbrev pub RecordCl : Type 0
RecordCl = Map (Option FieldCl)

-- What clang says of a field: its qualified name, and its size if it is constant.
pub record NamedField : Type 0 where
  pub field_name : String
  pub constant_size : Option ℕ

-- ClNos::isDcl
unfoldable pub is_dcl : ClNos → Bool
is_dcl c = not (same_line c.beg_cl c.end_cl) || (same_line c.beg_cl none || same_line c.end_cl none)

-- `operator==` of ClNos
unfoldable pub same_cl_nos : ClNos → ClNos → Bool
same_cl_nos lhs rhs = same_line lhs.beg_cl rhs.beg_cl && same_line lhs.end_cl rhs.end_cl

unfoldable pub record_exists : ℕ → RecordCl → Bool
unfolding has_key
record_exists rd m = has_key rd m

abbrev pub is_not_null : Option FieldCl → Bool
is_not_null none = false
is_not_null (some fcl) = true

unfoldable pub is_record_valid : ℕ → RecordCl → Bool
unfolding has_key get
is_record_valid rd m = if has_key rd m then is_not_null (get none rd m) else false

-- The loop of createRD over the fields; `none` where a field's size is not constant.
unfoldable pub place_fields : List NamedField → ℕ → ℕ → FieldCl → Option FieldCl
unfolding insert_str
place_fields [] current end_cl fcl = some fcl
place_fields (f ∷ fs) current end_cl fcl = elim f.constant_size [
  | none ↦ none
  | some size ↦
      let current' = u32 (current + size) in
      let end_cl' = current' / cache_line_size in
      place_fields fs current' end_cl' (insert_str f.field_name (cl_nos end_cl end_cl') fcl)
]

-- The fields that an entry starts with: those of an old one, or none.
abbrev pub fields_at : Option FieldCl → FieldCl
fields_at none = []
fields_at (some fcl) = fcl

unfoldable pub create_rd : (ℕ → List NamedField) → ℕ → RecordCl → RecordCl
unfolding place_fields get insert
create_rd fields rd m = insert rd (place_fields (fields rd) 0 0 (fields_at (get none rd m))) m

-- getClNos, at the pointer that the map holds
unfoldable pub get_cl_nos : Option FieldCl → String → Result ClNos
unfolding lookup_str
get_cl_nos none field = ok no_cl
get_cl_nos (some fcl) field = elim (lookup_str field fcl) [ none ↦ err fatal_error | some c ↦ ok c ]

-- isScl(RD, field1, field2): the answer, and the records that are known then
unfoldable pub is_scl_names :
    (ℕ → List NamedField) → ℕ → String → String → RecordCl → Result (Bool × RecordCl)
unfolding record_exists create_rd is_record_valid get_cl_nos is_dcl same_cl_nos
is_scl_names fields rd field1 field2 m =
    if str_eq field1 field2
    then ok (true, m)
    else let m' = if record_exists rd m then m else create_rd fields rd m in
      if is_record_valid rd m'
      then (do
        c1 ← get_cl_nos (get none rd m') field1
        c2 ← get_cl_nos (get none rd m') field2
        ok (not (is_dcl c1) && (not (is_dcl c2) && same_cl_nos c1 c2), m'))
      else ok (false, m')

-- isScl(FD, field2), by the record and the name of the field
unfoldable pub is_scl_field :
    (ℕ → List NamedField)
    → (ℕ → ℕ)
    → (ℕ → String)
    → ℕ
    → String
    → RecordCl
    → Result (Bool × RecordCl)
unfolding is_scl_names
is_scl_field fields parent qualified_name fd field2 m =
    is_scl_names fields (parent fd) (qualified_name fd) field2 m
