-- ===== src/AutoCl/Lines.antt =====
-- What the line numbers of AutoCl.h mean, where a record's fields stand one behind the other, with
-- no padding between them.
use nvmordering.Base.{
  ℕ, ◌+◌, ◌/◌, ◌≤◌, ◌<◌, Bool, true, false, ◌≡◌, ◌≢◌, ◌↔◌, refl, Option, none, some, List, [], ◌∷◌,
  lookup, insert, lookup-insert, arith, ==_iff, ==-refl, ◌⊎◌, inl, inr, ok, get, has_key, ap, subst,
}
use nvmordering.AutoCl.{
  ClNos, FieldInfo, Fields, Layout, Records, cl_nos, u32, add_fields, create_rd, eq_cl_nos, is_scl,
  is_record_valid, get_cl_nos, is_empty,
}

-- The sizes of a record's fields are constant, and their sum.
abbrev pub AllSized : List FieldInfo → Type 0
AllSized [] = Unit
AllSized (f ∷ fs) = ((n : ℕ) × (f.constant_size ≡ some n)) × AllSized fs

abbrev pub size_or : Option ℕ → ℕ
size_or none = 0
size_or (some n) = n

abbrev pub total_size : List FieldInfo → ℕ
total_size [] = 0
total_size (f ∷ fs) = size_or f.constant_size + total_size fs

abbrev pub NotIn : ℕ → List FieldInfo → Type 0
NotIn x [] = Unit
NotIn x (f ∷ fs) = (f.field ≢ x) × NotIn x fs

-- The field `x` of size `n` starts at the offset `o`, where the list starts at `current`.
abbrev pub Placed : ℕ → ℕ → ℕ → List FieldInfo → ℕ → Type 0
Placed x o n [] current = ⊥
Placed x o n (f ∷ fs) current =
    ((f.field ≡ x) × (f.constant_size ≡ some n) × (o ≡ current) × NotIn x fs)
    ⊎ Placed x o n fs (current + size_or f.constant_size)

add_fields-NotIn :
    (x : ℕ) (fs : List FieldInfo) (current end_cl : ℕ) (fields : Fields)
    → NotIn x fs
    → AllSized fs
    → lookup x (add_fields fs current end_cl fields) ≡ lookup x fields
unfolding add_fields
add_fields-NotIn x [] current end_cl fields d s = refl
add_fields-NotIn x (f ∷ fs) current end_cl fields d ((n, e), s) =
    let current' = u32 (current + n) in
    let here = cl_nos end_cl (current' / 64) in
    rw (e, add_fields)
      (rw (add_fields-NotIn x fs current' (current' / 64) (insert f.field here fields) d.1 s)
        (ground (arith, lookup-insert x f.field here fields, d.0)))

-- The numbers of a field are the lines of its first byte and of the byte behind its last one.
add_fields-Placed :
    (x o n : ℕ) (fs : List FieldInfo) (current : ℕ) (fields : Fields)
    → Placed x o n fs current
    → AllSized fs
    → current + total_size fs < 4294967296
    → lookup x (add_fields fs current (current / 64) fields) ≡ some (cl_nos (o / 64) ((o + n) / 64))
unfolding add_fields
add_fields-Placed x o n [] current fields p s b = absurd p
add_fields-Placed x o n (f ∷ fs) current fields p ((m, e), s) b =
    let fits : u32 (current + m) ≡ current + m = omega (arith, ap size_or e) in
    let here = cl_nos (current / 64) ((current + m) / 64) in
    rw (e, add_fields)
      (rw fits (elim p [
        | inl (same, size, start, after) ↦
            rw
              (add_fields-NotIn x fs (current + m) ((current + m) / 64) (insert f.field here fields)
                after s)
              (ground (arith, lookup-insert x f.field here fields))
        | inr later ↦
            add_fields-Placed x o n fs (current + m) (insert f.field here fields)
              (subst (λ k. Placed x o n fs (current + k)) (ap size_or e) later) s
              (omega (arith, ap size_or e))
      ]))

-- Two fields that do not overlap have the same numbers exactly if they lie in one line, the first
-- byte behind the second field included.
eq_cl_nos_iff :
    (o n o' n' : ℕ)
    → o + n ≤ o'
    → (eq_cl_nos (cl_nos (o / 64) ((o + n) / 64)) (cl_nos (o' / 64) ((o' + n') / 64)) ≡ true)
      ↔ (o / 64 ≡ (o' + n') / 64)
unfolding eq_cl_nos
eq_cl_nos_iff o n o' n' h = ground arith

not_empty :
    (x : ℕ) (fields : Fields) {v : ClNos} → lookup x fields ≡ some v → is_empty fields ≡ false
unfolding lookup
not_empty x [] e = cc
not_empty x (f ∷ fields) e = refl

module _ (l : Layout) (rd : ℕ) (ok_rd : rd ≢ 0) (s : AllSized (l.fields_of rd))
    (b : total_size (l.fields_of rd) < 4294967296) where
  abbrev known : Fields
  known = add_fields (l.fields_of rd) 0 0 ((rd, cl_nos 0 0) ∷ [])

  -- The record was not asked for before, or was computed by an earlier question.
  abbrev pub IsUnasked : Records → Type 0
  IsUnasked records = (lookup rd records ≡ none) ⊎ (lookup rd records ≡ some known)

  create_rd-computes :
      (records : Records) → IsUnasked records → lookup rd (create_rd l rd records) ≡ some known
  unfolding create_rd has_key
  create_rd-computes records (inl e) =
      ground (arith, e, lookup-insert rd rd known records, ==_iff rd rd)
  create_rd-computes records (inr e) = ground (arith, e)

  create_rd-known :
      (records : Records) → lookup rd records ≡ some known → create_rd l rd records ≡ records
  unfolding create_rd has_key
  create_rd-known records e = ground (arith, e)

  at_known :
      (x o n : ℕ)
      → Placed x o n (l.fields_of rd) 0
      → lookup x known ≡ some (cl_nos (o / 64) ((o + n) / 64))
  at_known x o n p =
      add_fields-Placed x o n (l.fields_of rd) 0 ((rd, cl_nos 0 0) ∷ []) p s (omega arith)

  get_cl_nos-known :
      (x o n : ℕ) (records : Records)
      → lookup rd records ≡ some known
      → Placed x o n (l.fields_of rd) 0
      → get_cl_nos rd x records ≡ ok (cl_nos (o / 64) ((o + n) / 64))
  unfolding get_cl_nos get has_key
  get_cl_nos-known x o n records e p = rw (e, at_known x o n p) refl

  valid-known :
      (x o n : ℕ) (records : Records)
      → lookup rd records ≡ some known
      → Placed x o n (l.fields_of rd) 0
      → is_record_valid rd records ≡ true
  unfolding is_record_valid get has_key
  valid-known x o n records e p = rw (e, not_empty x known (at_known x o n p)) refl

  -- For two fields of an aligned record, all of constant sizes, which have less than 2 ^ 32 bytes in
  -- all, and where a field's offset is the sum of the sizes before it, so without padding: if one
  -- field ends before the other one starts, and the record was not asked for before or was computed
  -- by an earlier question, `isScl` answers, and yes exactly if the first byte of the one and the byte
  -- behind the other have the same line number.
  pub is_scl_iff :
      (records : Records)
      → IsUnasked records
      → (x o n y o' n' : ℕ) → Placed x o n (l.fields_of rd) 0
      → Placed y o' n' (l.fields_of rd) 0
      → o + n ≤ o'
      → l.is_field_or_obj x ≡ true
      → l.is_field_or_obj y ≡ true
      → l.record_of x ≡ rd
      → l.record_of y ≡ rd
      → l.is_aligned rd ≡ true
      → (answer : Bool) × (records' : Records) × (is_scl l x y records ≡ ok (answer, records'))
        × ((answer ≡ true) ↔ (o / 64 ≡ (o' + n') / 64))
  unfolding is_scl
  is_scl_iff records u x o n y o' n' px py h fx fy rx ry a =
      let records' = create_rd l rd records in
      let e : lookup rd records' ≡ some known = create_rd-computes records u in
      (
        eq_cl_nos (cl_nos (o / 64) ((o + n) / 64)) (cl_nos (o' / 64) ((o' + n') / 64)),
        records',
        rw
            (
              fx,
              fy,
              rx,
              ry,
              create_rd-known records' e,
              valid-known x o n records' e px,
              a,
              ==-refl rd,
              get_cl_nos-known x o n records' e px,
              get_cl_nos-known y o' n' records' e py,
            )
            refl,
        eq_cl_nos_iff o n o' n' h,
      )
