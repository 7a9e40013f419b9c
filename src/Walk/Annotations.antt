-- ===== src/Walk/Annotations.antt =====
-- include/parsers/OrderWalker.h: what the walker has when it has read annotations.
use Prim.Native.String.{String}
use nvmordering.Base.{
  ℕ, Bool, true, false, not, ◌||◌, ◌&&◌, ◌==◌, some, List, [], ◌∷◌, insert, lookup, lookup-insert,
  ok, fold_result, fold_result-keeps, >>=-eq-ok, ok-injective, ◌≡◌, inl, inr, refl, arith,
  Bool-cases, subst,
}
use nvmordering.Clang.{
  Visit, function_decl, field_decl, record_decl, member_visit, assignment_visit,
}
use nvmordering.Walk.Placement.{is_scl_field, RecordCl}
use nvmordering.Walk.Order.{
  AnnotVarInfo, Texts, parse_tokens, parse_annotation, has_annot, is_unk, TudWalker, FieldDecls,
  determine, add_if_annotated, visit_tud, set_kind,
}

-- A token that names a class of cache lines.
abbrev pub names_class : Texts → String → Bool
names_class texts token = texts.contains token "dcl" || texts.contains token "scl"

-- The class and the mask of a pair with three tokens may stand in either order, unless both name a
-- class.
pub parse_tokens_swap :
    (texts : Texts) (name token1 token2 : String)
    → (names_class texts token1 && names_class texts token2) ≡ false
    → parse_tokens texts (name ∷ token1 ∷ token2 ∷ [])
      ≡ parse_tokens texts (name ∷ token2 ∷ token1 ∷ [])
unfolding parse_tokens
parse_tokens_swap texts name token1 token2 h = ground arith

-- No annotated variable is of an unknown class.
unfoldable pub IsDetermined : {Fncs : Type 0} → TudWalker Fncs → Type 0
IsDetermined w =
    (fd : ℕ) (avi : AnnotVarInfo)
    → lookup fd w.annotated_vars ≡ some avi
    → is_unk avi.cl_kind ≡ false

set_kind-is_unk : (avi : AnnotVarInfo) (same : Bool) → is_unk (set_kind avi same).cl_kind ≡ false
unfolding set_kind is_unk
set_kind-is_unk avi true = refl
set_kind-is_unk avi false = refl

inserted :
    {Fncs : Type 0} (fd j : ℕ) (new i : AnnotVarInfo) (w : TudWalker Fncs)
    → IsDetermined w
    → is_unk new.cl_kind ≡ false
    → lookup j (insert fd new w.annotated_vars) ≡ some i
    → is_unk i.cl_kind ≡ false
unfolding IsDetermined
inserted fd j new i w h k f = elim (Bool-cases (fd == j)) [
  | inl same ↦ ground (arith, lookup-insert j fd new w.annotated_vars, same, f)
  | inr other ↦ h j i (ground (arith, lookup-insert j fd new w.annotated_vars, other, f))
]

module _ {Fncs : Type 0} (texts : Texts) (decls : FieldDecls) where
  determine-is_unk :
      (fd : ℕ) (avi : AnnotVarInfo) (w : TudWalker Fncs) (out : AnnotVarInfo × RecordCl)
      → determine texts decls fd avi w ≡ ok out
      → is_unk out.0.cl_kind ≡ false
  unfolding determine
  determine-is_unk fd avi w out e = elim (Bool-cases (is_unk avi.cl_kind)) [
    | inl u ↦
        let (r, e1, e2) =
          >>=-eq-ok
            (is_scl_field decls.fields_of decls.parent decls.qualified_name fd avi.check_name
              w.cl_place)
            (λ r. ok (set_kind avi r.0, r.1)) (rw u at e) in
        subst (λ (o : AnnotVarInfo × RecordCl). is_unk o.0.cl_kind ≡ false) (ok-injective e2)
          (set_kind-is_unk avi r.0)
    | inr known ↦
        subst (λ (o : AnnotVarInfo × RecordCl). is_unk o.0.cl_kind ≡ false)
          (ok-injective (rw known at e)) known
  ]

  add_if_annotated-keeps :
      (fd : ℕ) (annotation : String) (w w' : TudWalker Fncs)
      → add_if_annotated texts decls fd annotation w ≡ ok w'
      → IsDetermined w
      → IsDetermined w'
  unfolding add_if_annotated IsDetermined
  add_if_annotated-keeps fd annotation w w' e h =
      elim (Bool-cases (texts.is_empty annotation || not (has_annot texts annotation))) [
        | inl skip ↦ subst IsDetermined (ok-injective (rw skip at e)) h
        | inr read ↦
            let (avi, e1, e2) = >>=-eq-ok (parse_annotation texts annotation) _ (rw read at e) in
            let (known, e3, e4) = >>=-eq-ok (determine texts decls fd avi w) _ e2 in
            subst IsDetermined (ok-injective e4)
              (λ j i f. inserted fd j known.0 i w h (determine-is_unk fd avi w known e3) f)
      ]

  visit_tud-keeps :
      (insert_if_known : ℕ → Fncs → Fncs) (v : Visit) (w w' : TudWalker Fncs)
      → visit_tud texts decls insert_if_known v w ≡ ok w'
      → IsDetermined w
      → IsDetermined w'
  unfolding visit_tud IsDetermined
  visit_tud-keeps ins (function_decl fd) w w' e h = subst IsDetermined (ok-injective e) h
  visit_tud-keeps ins (field_decl fd) w w' e h =
      let (m, e1, e2) =
        >>=-eq-ok (fold_result (add_if_annotated texts decls fd) (decls.annotations fd) w) _ e in
      subst IsDetermined (ok-injective e2) (
        fold_result-keeps IsDetermined (add_if_annotated texts decls fd)
          (λ a u u' k. add_if_annotated-keeps fd a u u' k) (decls.annotations fd) w m e1 h)
  visit_tud-keeps ins (record_decl rd) w w' e h = subst IsDetermined (ok-injective e) h
  visit_tud-keeps ins (member_visit me) w w' e h = subst IsDetermined (ok-injective e) h
  visit_tud-keeps ins (assignment_visit st) w w' e h = subst IsDetermined (ok-injective e) h

  -- Whatever the walker visits without a fault, from a state in which no annotated variable is of an
  -- unknown class: afterwards none is, so each is a check or stands in one cache line or across two.
  pub visits-IsDetermined :
      (insert_if_known : ℕ → Fncs → Fncs) (visits : List Visit) (w w' : TudWalker Fncs)
      → IsDetermined w
      → fold_result (visit_tud texts decls insert_if_known) visits w ≡ ok w'
      → IsDetermined w'
  visits-IsDetermined ins visits w w' h e =
      fold_result-keeps IsDetermined (visit_tud texts decls ins) (visit_tud-keeps ins) visits w w' e
        h
