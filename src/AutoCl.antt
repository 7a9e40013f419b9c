-- ===== src/AutoCl.antt =====
-- include/parser_util/AutoCl.h: the cache lines of a record's fields, to guess whether a pair of
-- fields stands in one line. `current` is an int that takes a uint64_t and is divided by an unsigned
-- constant, so it is its value modulo 2 ^ 32. `records` keeps what was computed.
pub mod Lines
mod Tests
use nvmordering.Base.{
  ℕ, ◌+◌, ◌/◌, ◌%◌, Bool, true, false, ◌&&◌, ◌||◌, not, ◌==◌, if◌then◌else◌, Result, ok, err,
  fatal_error, assert_failed, guard, ◌>>=◌, ◌>>◌, Option, none, some, List, [], ◌∷◌, Map, insert,
  lookup, get, touch, has_key,
}

-- The two numbers of ClNos; INVALID_CL is `none`.
pub record ClNos : Type 0 where
  pub beg_cl : Option ℕ
  pub end_cl : Option ℕ

abbrev pub same_line : Option ℕ → Option ℕ → Bool
same_line (some a) (some b) = a == b
same_line none none = true
same_line _ _ = false

unfoldable pub is_valid : ClNos → Bool
is_valid c = not (same_line c.beg_cl none) && not (same_line c.end_cl none)

-- `operator==` of ClNos
unfoldable pub eq_cl_nos : ClNos → ClNos → Bool
unfolding is_valid
eq_cl_nos lhs rhs =
    same_line lhs.beg_cl rhs.beg_cl
    && (same_line lhs.end_cl rhs.end_cl && (is_valid lhs && is_valid rhs))

-- What clang says of a field: its declaration, and its size if it is constant.
pub record FieldInfo : Type 0 where
  pub field : ℕ
  pub constant_size : Option ℕ

-- What the repository's helpers (include/util/Helper.h) and clang say of declarations.
pub record Layout : Type 0 where
  pub is_field_or_obj : ℕ → Bool
  pub record_of : ℕ → ℕ  -- getRDFromAny
  pub is_aligned : ℕ → Bool  -- isRDAligned
  pub fields_of : ℕ → List FieldInfo

abbrev pub Fields : Type 0
Fields = Map ClNos

abbrev pub Records : Type 0
Records = Map Fields

abbrev pub cache_line_size : ℕ
cache_line_size = 64

abbrev pub u32 : ℕ → ℕ
u32 n = n % 4294967296

abbrev pub no_cl : ClNos
no_cl = record { beg_cl = none; end_cl = none }

abbrev pub cl_nos : ℕ → ℕ → ClNos
cl_nos b e = record { beg_cl = some b; end_cl = some e }

-- The loop of `createRD` over the fields: a field whose size is not constant clears all.
unfoldable pub add_fields : List FieldInfo → ℕ → ℕ → Fields → Fields
unfolding insert
add_fields [] current end_cl fields = fields
add_fields (f ∷ fs) current end_cl fields = elim f.constant_size [
  | none ↦ []
  | some size ↦
      let current' = u32 (current + size) in
      let end_cl' = current' / cache_line_size in
      add_fields fs current' end_cl' (insert f.field (cl_nos end_cl end_cl') fields)
]

unfoldable pub create_rd : Layout → ℕ → Records → Records
create_rd l rd records =
    if rd == 0 || has_key rd records
    then records
    else insert rd (add_fields (l.fields_of rd) 0 0 ((rd, cl_nos 0 0) ∷ [])) records

-- `!records[RD].empty()` for a record that is there
abbrev pub is_empty : Fields → Bool
is_empty [] = true
is_empty (f ∷ fs) = false

unfoldable pub is_record_valid : ℕ → Records → Bool
is_record_valid rd records = has_key rd records && not (is_empty (get [] rd records))

unfoldable pub get_cl_nos : ℕ → ℕ → Records → Result ClNos
get_cl_nos rd nd records =
    let fields = get [] rd records in
    if has_key nd fields then ok (get no_cl nd fields) else err fatal_error

-- isScl: the answer, and the records that are known then
unfoldable pub is_scl : Layout → ℕ → ℕ → Records → Result (Bool × Records)
is_scl l nd1 nd2 records =
    if not (l.is_field_or_obj nd1) || not (l.is_field_or_obj nd2)
    then ok (false, records)
    else let rd1 = l.record_of nd1 in
      let rd2 = l.record_of nd2 in
      let records' = create_rd l rd2 (create_rd l rd1 records) in
      let valid = is_record_valid rd1 records' && is_record_valid rd2 records' in
      let aligned = l.is_aligned rd1 && l.is_aligned rd2 in
      if valid && (aligned && rd1 == rd2)
      then (do
        cl1 ← get_cl_nos rd1 nd1 records'
        cl2 ← get_cl_nos rd2 nd2 records'
        ok (eq_cl_nos cl1 cl2, records'))
      else ok (false, records')
