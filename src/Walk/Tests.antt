-- ===== src/Walk/Tests.antt =====
-- The visitors on a small tree: an operator (70) over a reference to `use_nvm` (71) and a unary
-- operator (72) over a member `flags` (73).
use Prim.Native.String.{String}
use nvmordering.Base.{
  ℕ, ◌<◌, Bool, true, false, ◌==◌, if◌then◌else◌, List, [], ◌∷◌, Option, none, some, ok, err,
  fatal_error, ◌≡◌, ◌≢◌, refl, arith, inl, inr, Bool-cases, subst,
}
use nvmordering.Clang.{
  Ast, StmtKind, decl_ref_expr, unary_operator, member_expr, other_stmt, same_kind,
}
use nvmordering.Walk.Tree.{IsTree, ChildOf, Finds}
use nvmordering.Walk.Names.{uses_names, names_it, uses_names-Finds}
use nvmordering.Walk.Mask.{uses_mask, refers, is_unary, uses_mask_lem}

abbrev tree_kinds : ℕ → StmtKind
tree_kinds s =
    if s == 71
    then decl_ref_expr
    else (if s == 72 then unary_operator else (if s == 73 then member_expr else other_stmt))

abbrev tree_children : ℕ → List ℕ
tree_children s = if s == 70 then 71 ∷ 0 ∷ 72 ∷ [] else (if s == 72 then 73 ∷ [] else [])

abbrev small_tree : Ast
small_tree = record {
  kind = tree_kinds;
  children = tree_children;
  is_assignment_op = λ s. false;
  lhs = λ s. 0;
  rhs = λ s. 0;
  sub_expr = λ s. 0;
  arg = λ s i. 0;
  direct_callee = λ s. 0;
  member_decl = λ s. 40;
  found_decl = λ s. 0;
  has_body = λ s. false;
  body = λ s. 0;
  identifier = λ s. some "flags";
  annotations = λ s. [];
  qualified_name = λ s. "f";
  enclosing_function = λ s. 50;
  contains = λ a b. false;
  rsplit = λ a. (a, a);
}

abbrev reference_names : ℕ → Option String
reference_names s = if s == 71 then some "use_nvm" else none

abbrev tree_rank : ℕ → ℕ
tree_rank s = if s == 70 then 3 else (if s == 72 then 2 else 1)

small_tree-IsTree : IsTree small_tree tree_rank
small_tree-IsTree s c n m = elim (Bool-cases (s == 70)) [
  | inl e ↦ top (ground arith) (subst (ChildOf c) {y = 71 ∷ 0 ∷ 72 ∷ []} (rw e refl) m)
  | inr e ↦ elim (Bool-cases (s == 72)) [
    | inl e' ↦ under (ground arith) (subst (ChildOf c) {y = 73 ∷ []} (rw (e, e') refl) m)
    | inr e' ↦ absurd (subst (ChildOf c) {y = []} (rw (e, e') refl) m)
  ]
]
  where
    top : s ≡ 70 → ChildOf c (71 ∷ 0 ∷ 72 ∷ []) → tree_rank c < tree_rank s
    top q (inl e) = ground arith
    top q (inr (inl e)) = absurd (n e)
    top q (inr (inr (inl e))) = ground arith
    top q (inr (inr (inr e))) = absurd e

    under : s ≡ 72 → ChildOf c (73 ∷ []) → tree_rank c < tree_rank s
    under q (inl e) = ground arith
    under q (inr e) = absurd e

all_named :
    (s : ℕ)
    → same_kind (small_tree.kind s) member_expr ≡ true
    → small_tree.identifier (small_tree.member_decl s) ≢ none
all_named s h e = cc

uses_names-Finds_example :
    (b : Bool) × (uses_names small_tree reference_names ("use_nvm" ∷ []) 4 70 ≡ ok b)
    × (b ≡ true → Finds small_tree (names_it small_tree reference_names ("use_nvm" ∷ [])) 70)
    × (Finds small_tree (names_it small_tree reference_names ("use_nvm" ∷ [])) 70 → b ≡ true)
uses_names-Finds_example =
    uses_names-Finds small_tree reference_names ("use_nvm" ∷ []) tree_rank small_tree-IsTree
      all_named 4 70 (omega arith)

use_found : uses_names small_tree reference_names ("use_nvm" ∷ []) 4 70 ≡ ok true
unfolding uses_names
use_found = refl

flags_found : uses_names small_tree reference_names ("flags" ∷ []) 4 70 ≡ ok true
unfolding uses_names
flags_found = refl

other_not_found : uses_names small_tree reference_names ("other" ∷ []) 4 70 ≡ ok false
unfolding uses_names
other_not_found = refl

uses_mask_lem_example :
    (¬ Finds small_tree (refers small_tree reference_names "use_nvm") 70
      → uses_mask small_tree reference_names "use_nvm" 4 70 true ≡ err fatal_error)
    × (Finds small_tree (refers small_tree reference_names "use_nvm") 70
        → ¬ Finds small_tree (is_unary small_tree reference_names "use_nvm") 70
        → uses_mask small_tree reference_names "use_nvm" 4 70 true ≡ ok true)
    × (Finds small_tree (refers small_tree reference_names "use_nvm") 70
        → Finds small_tree (is_unary small_tree reference_names "use_nvm") 70
        → uses_mask small_tree reference_names "use_nvm" 4 70 true ≡ ok false)
uses_mask_lem_example =
    uses_mask_lem small_tree reference_names "use_nvm" tree_rank small_tree-IsTree 4 70 true
      (omega arith)

mask_written : uses_mask small_tree reference_names "use_nvm" 4 70 true ≡ ok false
unfolding uses_mask
mask_written = refl
