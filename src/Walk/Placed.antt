-- ===== src/Walk/Placed.antt =====
-- include/parsers/CachePlacement.h against include/parser_util/AutoCl.h: the two computations of the
-- cache lines of fields.
use Prim.Native.String.{String}
use text.Mathlib.Text.{◌==◌ as str_eq}
use text.Mathlib.TextEquality.{eq_iff}
use nvmordering.Base.{
  ℕ, ◌+◌, ◌/◌, ◌==◌, if◌then◌else◌, some, none, sym, ap, ◌∙◌, ==_iff, lookup-insert_self, get,
  has_key, ◌≢◌, List, [], ◌∷◌, map, insert, lookup, lookup-insert, lookup_str, insert_str, ◌≡◌,
  refl, arith,
}
use nvmordering.AutoCl
use nvmordering.AutoCl.{
  Layout, Records, ClNos, cl_nos, u32, cache_line_size, FieldInfo, Fields, add_fields,
}
use nvmordering.AutoCl.Lines.{AllSized}
use nvmordering.Walk.Placement
use nvmordering.Walk.Placement.{FieldCl, RecordCl, NamedField, place_fields}

lookup_str-insert_str :
    (j k : String) (v : ClNos) (m : FieldCl)
    → lookup_str j (insert_str k v m) ≡ (if str_eq k j then some v else lookup_str j m)
unfolding lookup_str insert_str
lookup_str-insert_str j k v [] = refl
lookup_str-insert_str j k v ((i, w) ∷ m) =
    ground (arith, eq_iff k j, eq_iff i k, eq_iff i j, lookup_str-insert_str j k v m)

-- A field with the name that it has.
abbrev pub named : (ℕ → String) → FieldInfo → NamedField
named name f = record { field_name = name f.field; constant_size = f.constant_size }

-- The loops over the fields: the numbers by name that ClPlace computes are there, and are the numbers
-- by declaration that AutoCl computes, for each declaration but that of the record, where AutoCl has
-- an entry of its own.
place_fields-add_fields :
    (name : ℕ → String)
    → ((a b : ℕ) → str_eq (name a) (name b) ≡ (a == b))
    → (rd : ℕ) (fs : List FieldInfo) (current end_cl : ℕ) (fcl : FieldCl) (fields : Fields)
    → AllSized fs
    → ((g : ℕ) → g ≢ rd → lookup_str (name g) fcl ≡ lookup g fields)
    → (out : FieldCl) × (place_fields (map (named name) fs) current end_cl fcl ≡ some out)
      × ((g : ℕ)
          → g ≢ rd
          → lookup_str (name g) out ≡ lookup g (add_fields fs current end_cl fields))
unfolding place_fields add_fields
place_fields-add_fields name inj rd [] current end_cl fcl fields sized h = (fcl, refl, h)
place_fields-add_fields name inj rd (f ∷ fs) current end_cl fcl fields sized h =
    let (n, e) = sized.0 in
    let current' : ℕ = u32 (current + n) in
    let end_cl' : ℕ = current' / cache_line_size in
    let (out, e1, e2) =
      place_fields-add_fields name inj rd fs current' end_cl'
        (insert_str (name f.field) (cl_nos end_cl end_cl') fcl)
        (insert f.field (cl_nos end_cl end_cl') fields) sized.1
        (λ g d. ground (
          arith,
          lookup_str-insert_str (name g) (name f.field) (cl_nos end_cl end_cl') fcl,
          lookup-insert g f.field (cl_nos end_cl end_cl') fields,
          inj f.field g,
          h g d,
        )) in
    (out, rw e e1, λ g d. rw e (e2 g d))

computed :
    (l : Layout) (rd : ℕ) (records : Records)
    → rd ≢ 0
    → lookup rd records ≡ none
    → get [] rd (AutoCl.create_rd l rd records)
      ≡ add_fields (l.fields_of rd) 0 0 ((rd, cl_nos 0 0) ∷ [])
unfolding AutoCl.create_rd has_key get
computed l rd records nonzero a =
    let fields : Fields = add_fields (l.fields_of rd) 0 0 ((rd, cl_nos 0 0) ∷ []) in
    ground (arith, nonzero, a, lookup-insert rd rd fields records, ==_iff rd rd)

-- A record that neither has computed, whose fields are of constant sizes and have names that tell them
-- apart: createRD of ClPlace places it, and the numbers that it keeps for a name are those that
-- createRD of AutoCl keeps for the declaration of that name, where the declaration is not the record
-- itself. So a field has the same numbers in both.
pub create_rd_agree :
    (name : ℕ → String)
    → ((a b : ℕ) → str_eq (name a) (name b) ≡ (a == b))
    → (l : Layout) (rd : ℕ) (records : Records) (m : RecordCl) → rd ≢ 0
    → AllSized (l.fields_of rd)
    → lookup rd records ≡ none
    → lookup rd m ≡ none
    → (out : FieldCl) × (lookup rd
          (Placement.create_rd (λ r. map (named name) (l.fields_of r)) rd m)
        ≡ some (some out))
      × ((g : ℕ)
          → g ≢ rd
          → lookup_str (name g) out ≡ lookup g (get [] rd (AutoCl.create_rd l rd records)))
unfolding Placement.create_rd get lookup_str lookup
create_rd_agree name inj l rd records m nonzero sized a b =
    let (out, e1, e2) =
      place_fields-add_fields name inj rd (l.fields_of rd) 0 0 [] ((rd, cl_nos 0 0) ∷ []) sized
        (λ g d. ground (arith, d, ==_iff rd g)) in
    (
      out,
      rw (b, e1) (lookup-insert_self rd (some out) m),
      λ g d. e2 g d ∙ ap (lookup g) (sym (computed l rd records nonzero a)),
    )
