-- ===== src/Walk/Mask.antt =====
-- include/parsers/MaskWalker.h: whether a statement that uses a mask writes it. A unary operator, as
-- the complement, stands for the other of reading and writing.
use Prim.Native.String.{String}
use text.Mathlib.Text.{◌==◌ as str_eq}
use nvmordering.Base.{
  ℕ, ◌<◌, Bool, true, false, not, ◌||◌, if◌then◌else◌, Option, none, some, Result, ok, err,
  fatal_error, ◌>>=◌, ◌≡◌, ◌⊎◌, inl, inr, refl, arith, Bool-cases, ap, sym, ◌∙◌, ok-injective,
}
use nvmordering.Clang.{Ast, decl_ref_expr, unary_operator, same_kind, StmtKind}
use nvmordering.Walk.Tree.{walk, IsTree, Finds, walk-Raises}

pub record MaskState : Type 0 where
  pub mask_use : Bool
  pub uses_unary : Bool

abbrev pub new_mask : MaskState
new_mask = record { mask_use = false; uses_unary = false }

-- VisitDeclRefExpr, before its children
unfoldable pub see_reference : String → Option String → MaskState → MaskState
see_reference mask none st = st
see_reference mask (some name) st = if str_eq name mask then record st { mask_use = true } else st

unfoldable pub is_mask : String → Option String → Bool
is_mask mask none = false
is_mask mask (some name) = str_eq name mask

-- isMaskWrite: `usesUnary ^ readMode`
unfoldable pub is_mask_write : Bool → MaskState → Result Bool
is_mask_write read_mode st =
    if not st.mask_use
    then err fatal_error
    else ok (if st.uses_unary then not read_mode else read_mode)

see_reference_lem :
    (mask : String) (name : Option String) (st : MaskState)
    → ((see_reference mask name st).mask_use ≡ (st.mask_use || is_mask mask name))
      × ((see_reference mask name st).uses_unary ≡ st.uses_unary)
unfolding see_reference is_mask
see_reference_lem mask none st = ground arith
see_reference_lem mask (some name) st = ground arith

reference_is_not_unary :
    (k : StmtKind) → same_kind k decl_ref_expr ≡ true → same_kind k unary_operator ≡ false
reference_is_not_unary k h = ground arith

module _ (ast : Ast) (ref_identifier : ℕ → Option String) (mask : String) where
  -- The dispatch of the visitor, before the children.
  unfoldable pub visit_mask : ℕ → MaskState → Result MaskState
  unfolding see_reference
  visit_mask s st = ok (
      if same_kind (ast.kind s) decl_ref_expr
      then see_reference mask (ref_identifier s) st
      else (if same_kind (ast.kind s) unary_operator then record st { uses_unary = true } else st))

  unfoldable pub uses_mask : ℕ → ℕ → Bool → Result Bool
  unfolding visit_mask is_mask_write walk
  uses_mask fuel s read_mode = do
    st ← walk ast visit_mask fuel s new_mask
    is_mask_write read_mode st

  -- A reference to the mask, and a unary operator.
  unfoldable pub refers : ℕ → Bool
  unfolding is_mask
  refers s = if same_kind (ast.kind s) decl_ref_expr then is_mask mask (ref_identifier s) else false

  unfoldable pub is_unary : ℕ → Bool
  is_unary s = same_kind (ast.kind s) unary_operator

  mask_step :
      (s : ℕ) (st : MaskState)
      → (st' : MaskState) × (visit_mask s st ≡ ok st') × (st'.mask_use ≡ (st.mask_use || refers s))
  unfolding visit_mask refers
  mask_step s st = (_, refl, ground (arith, see_reference_lem mask (ref_identifier s) st))

  unary_step :
      (s : ℕ) (st : MaskState)
      → (st' : MaskState) × (visit_mask s st ≡ ok st')
        × (st'.uses_unary ≡ (st.uses_unary || is_unary s))
  unfolding visit_mask is_unary
  unary_step s st = (
    _,
    refl,
    ground
        (arith, see_reference_lem mask (ref_identifier s) st, reference_is_not_unary (ast.kind s)),
  )

  -- Where children have smaller ranks, usesMask ends for fuel above the rank of the statement. With
  -- no reference to the mask in the tree it is the fatal error. With one it is the mode asked for,
  -- or its opposite exactly if some statement of the tree is a unary operator.
  pub uses_mask_lem :
      (rank : ℕ → ℕ)
      → IsTree ast rank
      → (fuel s : ℕ) (read_mode : Bool) → rank s < fuel
      → (¬ Finds ast refers s → uses_mask fuel s read_mode ≡ err fatal_error)
        × (Finds ast refers s → ¬ Finds ast is_unary s → uses_mask fuel s read_mode ≡ ok read_mode)
        × (Finds ast refers s
            → Finds ast is_unary s
            → uses_mask fuel s read_mode ≡ ok (not read_mode))
  unfolding uses_mask is_mask_write
  uses_mask_lem rank tree fuel s read_mode h =
      let (st, e, r) =
        walk-Raises ast visit_mask (λ st. st.mask_use) refers rank tree mask_step fuel s new_mask
          h in
      let (st', e', r') =
        walk-Raises ast visit_mask (λ st. st.uses_unary) is_unary rank tree unary_step fuel s
          new_mask h in
      let same : st' ≡ st = ok-injective (sym e' ∙ e) in
      (
        λ lacks. rw e (rw (not_up (r.reason) lacks) refl),
        λ y lacks. rw e (
            rw (r.up (inr y))
              (rw (ap (λ st. st.uses_unary) (sym same) ∙ not_up (r'.reason) lacks) refl)),
        λ y u.
            rw e
              (rw (r.up (inr y)) (rw (ap (λ st. st.uses_unary) (sym same) ∙ r'.up (inr u)) refl)),
      )
    where
      not_up : {b : Bool} {F : Type 0} → (b ≡ true → (false ≡ true) ⊎ F) → ¬ F → b ≡ false
      not_up {b} f lacks = elim (Bool-cases b) [
        | inl e ↦ elim (f e) [ inl e' ↦ cc | inr x ↦ absurd (lacks x) ]
        | inr e ↦ e
      ]
