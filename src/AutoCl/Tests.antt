-- ===== src/AutoCl/Tests.antt =====
-- A record of two fields of 8 bytes.
use nvmordering.Base.{
  Bool, true, ◌≡◌, ◌↔◌, ◌+◌, ◌/◌, ok, some, none, lookup, [], ◌∷◌, inl, inr, refl, arith,
}
use nvmordering.AutoCl.{Layout, Records, Fields, is_scl}
use nvmordering.AutoCl.Lines.{is_scl_iff}

abbrev two_fields : Layout
two_fields = record {
  is_field_or_obj = λ d. true;
  record_of = λ d. 9;
  is_aligned = λ d. true;
  fields_of = λ d.
      record { field = 1; constant_size = some 8 }
      ∷ record { field = 2; constant_size = some 8 }
      ∷ [];
}

not_asked : lookup {V = Fields} 9 [] ≡ none
unfolding lookup
not_asked = refl

is_scl_iff_example :
    (answer : Bool) × (records : Records) × (is_scl two_fields 1 2 [] ≡ ok (answer, records))
    × ((answer ≡ true) ↔ (0 / 64 ≡ (8 + 8) / 64))
is_scl_iff_example =
    is_scl_iff two_fields 9 (λ e. omega arith) ((8, refl), ((8, refl), tt)) (omega arith) []
      (inl not_asked) 1 0 8 2 8 8 (inl (refl, refl, refl, ((λ e. omega arith), tt)))
      (inr (inl (refl, refl, refl, tt))) (omega arith) refl refl refl refl refl
