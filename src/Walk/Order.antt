-- ===== src/Walk/Order.antt =====
-- include/parsers/OrderWalker.h: the annotations of fields, as the walker over the translation unit
-- reads them. `StringRef::contains` and the two `split` are parameters.
use Prim.Native.String.{String}
use nvmordering.Base.{
  ℕ, Bool, true, false, not, ◌||◌, if◌then◌else◌, none, some, List, [], ◌∷◌, Map, insert, Result,
  ok, err, fatal_error, assert_failed, ◌>>=◌, fold_result, lookup_str, insert_str,
}
use nvmordering.Clang.{
  Visit, function_decl, field_decl, record_decl, member_visit, assignment_visit,
}
use nvmordering.Walk.Placement.{NamedField, RecordCl, is_scl_field}

-- AnnotVarInfo::ClKind
pub data ClKind : Type 0 where
  check scl dcl unk : ClKind

-- A mask that is not used is the empty text.
pub record AnnotVarInfo : Type 0 where
  pub cl_kind : ClKind
  pub check_name : String
  pub uses_mask : Bool
  pub mask_name : String

-- The four constructors.
abbrev pub kind_info : ClKind → AnnotVarInfo
kind_info k = record { cl_kind = k; check_name = ""; uses_mask = false; mask_name = "" }

abbrev pub checked_info : ClKind → String → AnnotVarInfo
checked_info k name = record { cl_kind = k; check_name = name; uses_mask = false; mask_name = "" }

abbrev pub masked_info : ClKind → String → String → AnnotVarInfo
masked_info k name mask = record {
  cl_kind = k;
  check_name = name;
  uses_mask = true;
  mask_name = mask;
}

-- StringRef: contains, split at "-" in two, split at "+" in tokens, and empty.
pub record Texts : Type 0 where
  pub contains : String → String → Bool
  pub split_key : String → String × String
  pub split_pair : String → List String
  pub is_empty : String → Bool

module _ (texts : Texts) where
  -- annotatedTokens.size() == 2
  unfoldable pub parse_two : String → String → AnnotVarInfo
  parse_two name token1 =
      if texts.contains token1 "dcl"
      then checked_info dcl name
      else (if texts.contains token1 "scl"
          then checked_info scl name
          else masked_info unk name token1)

  -- annotatedTokens.size() == 3
  unfoldable pub parse_three : String → String → String → Result AnnotVarInfo
  parse_three name token1 token2 =
      if texts.contains token1 "dcl"
      then ok (masked_info dcl name token2)
      else (if texts.contains token1 "scl"
          then ok (masked_info scl name token2)
          else (if texts.contains token2 "dcl"
              then ok (masked_info dcl name token1)
              else (if texts.contains token2 "scl"
                  then ok (masked_info scl name token1)
                  else err fatal_error)))

  unfoldable pub parse_tokens : List String → Result AnnotVarInfo
  unfolding parse_two parse_three
  parse_tokens [] = err assert_failed
  parse_tokens (name ∷ []) = ok (checked_info unk name)
  parse_tokens (name ∷ token1 ∷ []) = ok (parse_two name token1)
  parse_tokens (name ∷ token1 ∷ token2 ∷ []) = parse_three name token1 token2
  parse_tokens (name ∷ token1 ∷ token2 ∷ token3 ∷ rest) = err fatal_error

  unfoldable pub parse_annotation : String → Result AnnotVarInfo
  unfolding parse_tokens
  parse_annotation annotation =
      let (annot_type, annot_info) = texts.split_key annotation in
      if texts.contains annot_type "sent"
      then ok (kind_info check)
      else (if texts.contains annot_type "pair"
          then parse_tokens (texts.split_pair annot_info)
          else err fatal_error)

  -- std::any_of over ANNOTS
  unfoldable pub has_annot : String → Bool
  has_annot annotation = texts.contains annotation "sent" || texts.contains annotation "pair"

-- The members of TUDWalker that it fills.
pub record TudWalker (Fncs : Type 0) : Type 0 where
  pub var_map : List (String × ℕ)
  pub annotated_vars : Map AnnotVarInfo
  pub order_fncs : Fncs
  pub cl_place : RecordCl

-- What clang says of fields: the fields of a record, the record and the name of a field, and the texts
-- of its `annotate` attributes.
pub record FieldDecls : Type 0 where
  pub fields_of : ℕ → List NamedField
  pub parent : ℕ → ℕ
  pub qualified_name : ℕ → String
  pub annotations : ℕ → List String

unfoldable pub is_unk : ClKind → Bool
is_unk k = elim k [ unk ↦ true | _ ↦ false ]

-- setScl or setDcl
unfoldable pub set_kind : AnnotVarInfo → Bool → AnnotVarInfo
set_kind avi same = record avi { cl_kind = if same then scl else dcl }

module _ {Fncs : Type 0} (texts : Texts) (decls : FieldDecls) where
  -- The kind of an annotation that names none, by the cache lines of the two fields.
  unfoldable pub determine : ℕ → AnnotVarInfo → TudWalker Fncs → Result (AnnotVarInfo × RecordCl)
  unfolding is_unk is_scl_field set_kind
  determine fd avi w =
      if is_unk avi.cl_kind
      then (do
        same ←
            is_scl_field decls.fields_of decls.parent decls.qualified_name fd avi.check_name
              w.cl_place
        ok (set_kind avi same.0, same.1))
      else ok (avi, w.cl_place)

  unfoldable pub add_if_annotated : ℕ → String → TudWalker Fncs → Result (TudWalker Fncs)
  unfolding has_annot parse_annotation determine insert
  add_if_annotated fd annotation w =
      if texts.is_empty annotation || not (has_annot texts annotation) then ok w else (do
        avi ← parse_annotation texts annotation
        known ← determine fd avi w
        ok (record w { annotated_vars = insert fd known.0 w.annotated_vars; cl_place = known.1 }))

  unfoldable pub visit_field_decl : ℕ → TudWalker Fncs → Result (TudWalker Fncs)
  unfolding add_if_annotated insert_str fold_result
  visit_field_decl fd w = do
    w' ← fold_result (add_if_annotated fd) (decls.annotations fd) w
    ok (record w' { var_map = insert_str (decls.qualified_name fd) fd w'.var_map })

  -- VisitFunctionDecl and VisitFieldDecl; `insert_if_known` is that of the functions.
  unfoldable pub visit_tud : (ℕ → Fncs → Fncs) → Visit → TudWalker Fncs → Result (TudWalker Fncs)
  unfolding visit_field_decl
  visit_tud insert_if_known (function_decl fd) w =
      ok (record w { order_fncs = insert_if_known fd w.order_fncs })
  visit_tud insert_if_known (field_decl fd) w = visit_field_decl fd w
  visit_tud insert_if_known (record_decl rd) w = ok w
  visit_tud insert_if_known (member_visit me) w = ok w
  visit_tud insert_if_known (assignment_visit s) w = ok w

  -- getCheckVD; the empty name gives the null pointer
  unfoldable pub get_check_vd : String → TudWalker Fncs → Result ℕ
  unfolding lookup_str
  get_check_vd check_name w =
      if texts.is_empty check_name
      then ok 0
      else elim (lookup_str check_name w.var_map) [ none ↦ err fatal_error | some vd ↦ ok vd ]

-- createUsedVars, on the annotated variables in their order; `add_annotation` is the virtual
-- function of the class that derives from the walker, here with what it changes.
module _ {Vars : Type 0} (decls : FieldDecls)
    (add_annotation : ℕ → String → AnnotVarInfo → Vars → Vars) where
  unfoldable pub create_used_var : ℕ → AnnotVarInfo → List String → Vars → Vars
  create_used_var vd avi [] vars = vars
  create_used_var vd avi (ann ∷ anns) vars =
      create_used_var vd avi anns (add_annotation vd ann avi vars)

  unfoldable pub create_used_vars : Map AnnotVarInfo → Vars → Vars
  unfolding create_used_var
  create_used_vars [] vars = vars
  create_used_vars ((vd, avi) ∷ rest) vars =
      create_used_vars rest (create_used_var vd avi (decls.annotations vd) vars)
