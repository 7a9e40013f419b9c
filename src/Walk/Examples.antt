-- ===== src/Walk/Examples.antt =====
-- The walkers of declarations at small inputs: the sample program, annotations of the kinds that the
-- walker reads, and two fields.
use Prim.Native.String.{String}
use text.Mathlib.Text.{◌==◌ as str_eq}
use text.Mathlib.TextEquality.{eq_iff}
use nvmordering.Base.{
  ℕ, true, false, ◌==◌, if◌then◌else◌, List, [], ◌∷◌, map, some, ok, lookup, lookup_str, member,
  add, fold_result, ◌≡◌, refl, arith, inl, inr, Bool-cases, suc, zero, ap, sym, ◌∙◌, ==_iff, none,
  Option, ◌≢◌, get,
}
use nvmordering.Clang.{field_decl}
use nvmordering.AutoCl
use nvmordering.AutoCl.{Layout, Fields, FieldInfo, add_fields, ClNos}
use nvmordering.Walk.Sample.{call_program, call_rank, call-IsAcyclic}
use nvmordering.Walk.NamedDecls.{NdWalker, get_nds}
use nvmordering.Walk.Reached.{Reaches}
use nvmordering.Walk.Collected.{get_nds-Reaches}
use nvmordering.Walk.Placement
use nvmordering.Walk.Placement.{place_fields, FieldCl}
use nvmordering.Walk.Placed.{named, create_rd_agree}
use nvmordering.Walk.Order.{
  Texts, TudWalker, FieldDecls, parse_tokens, visit_tud, masked_info, scl, check,
}
use nvmordering.Walk.Annotations.{IsDetermined, visits-IsDetermined}

get_nds-Reaches_example :
    (w : NdWalker) × (get_nds call_program 4 50 ≡ ok w)
    × ((v : ℕ)
        → member v w.vars ≡ true
        → (call_program.has_body 50 ≡ true) × Reaches call_program (call_program.body 50) v)
    × ((v : ℕ)
        → call_program.has_body 50 ≡ true
        → Reaches call_program (call_program.body 50) v
        → member v w.vars ≡ true)
get_nds-Reaches_example = get_nds-Reaches call_program call_rank call-IsAcyclic 4 50 (omega arith)

both_found :
    get_nds call_program 4 50 ≡ ok (record { vars = 41 ∷ 42 ∷ []; seen_function = 51 ∷ [] })
unfolding get_nds member add
both_found = refl

-- Texts of which the class stands alone in its token.
abbrev plain_texts : Texts
plain_texts = record {
  contains = str_eq;
  split_key = λ a. if str_eq a "pair-c+dcl" then ("pair", "c+dcl") else ("sent", a);
  split_pair = λ a. "c" ∷ "dcl" ∷ [];
  is_empty = λ a. str_eq a "";
}

masked_pair : parse_tokens plain_texts ("c" ∷ "m" ∷ "scl" ∷ []) ≡ ok (masked_info scl "c" "m")
unfolding parse_tokens
masked_pair = refl

abbrev one_field : FieldDecls
one_field = record {
  fields_of = λ r. [];
  parent = λ f. 45;
  qualified_name = λ f. "s::a";
  annotations = λ f. "sent" ∷ [];
}

abbrev start_walker : TudWalker (List ℕ)
start_walker = record { var_map = []; annotated_vars = []; order_fncs = []; cl_place = [] }

abbrev end_walker : TudWalker (List ℕ)
end_walker = record {
  var_map = ("s::a", 41) ∷ [];
  annotated_vars =
      (41, record { cl_kind = check; check_name = ""; uses_mask = false; mask_name = "" }) ∷ [];
  order_fncs = [];
  cl_place = [];
}

nothing_annotated : IsDetermined start_walker
unfolding IsDetermined lookup
nothing_annotated fd avi e = cc

field_visited :
    fold_result (visit_tud plain_texts one_field ◌∷◌) (field_decl 41 ∷ []) start_walker
    ≡ ok end_walker
unfolding fold_result visit_tud
field_visited = refl

visits-IsDetermined_example : IsDetermined end_walker
visits-IsDetermined_example =
    visits-IsDetermined plain_texts one_field ◌∷◌ (field_decl 41 ∷ []) start_walker end_walker
      nothing_annotated field_visited

-- Two fields of 60 and 8 bytes.
abbrev two_fields : List FieldInfo
two_fields =
    record { field = 41; constant_size = some 60 }
    ∷ record { field = 42; constant_size = some 8 }
    ∷ []

-- The name of a field in unary.
abbrev field_names : ℕ → String
field_names zero = String.[]
field_names (suc n) = String.◌∷◌ "a" (field_names n)

abbrev name_length : String → ℕ
name_length String.[] = 0
name_length (String.◌∷◌ c s) = suc (name_length s)

name_length-field_names : (n : ℕ) → name_length (field_names n) ≡ n
name_length-field_names zero = refl
name_length-field_names (suc n) = ap suc (name_length-field_names n)

names_differ : (a b : ℕ) → str_eq (field_names a) (field_names b) ≡ (a == b)
names_differ a b = elim (Bool-cases (str_eq (field_names a) (field_names b))) [
  | inl e ↦
      let q : a ≡ b =
        sym (name_length-field_names a)
        ∙ ap name_length ((eq_iff (field_names a) (field_names b)).0 e)
        ∙ name_length-field_names b in
      e ∙ sym ((==_iff a b).1 q)
  | inr e ↦ elim (Bool-cases (a == b)) [
    | inl q ↦ absurd (
        true_not_false (
          sym ((eq_iff (field_names a) (field_names b)).1 (ap field_names ((==_iff a b).0 q))) ∙ e))
    | inr q ↦ e ∙ sym q
  ]
]
  where
    true_not_false : true ≡ false → ⊥
    true_not_false h = cc

abbrev field_layout : Layout
field_layout = record {
  is_field_or_obj = λ f. true;
  record_of = λ f. 9;
  is_aligned = λ f. true;
  fields_of = λ r. two_fields;
}

no_records : lookup {V = Fields} 9 [] ≡ none
unfolding lookup
no_records = refl

none_placed : lookup {V = Option FieldCl} 9 [] ≡ none
unfolding lookup
none_placed = refl

create_rd_agree_example :
    (out : FieldCl) × (lookup 9 (Placement.create_rd (λ r. map (named field_names) two_fields) 9 [])
      ≡ some (some out))
    × ((g : ℕ)
        → g ≢ 9
        → lookup_str (field_names g) out ≡ lookup g (get [] 9 (AutoCl.create_rd field_layout 9 [])))
create_rd_agree_example =
    create_rd_agree field_names names_differ field_layout 9 [] [] (λ e. omega arith)
      ((60, refl), ((8, refl), tt)) no_records none_placed
