-- ===== src/Walk/Names.antt =====
-- include/parsers/NameWalker.h: whether a statement uses one of some names, as a variable or as a
-- member.
use Prim.Native.String.{String}
use text.Mathlib.Text.{◌==◌ as str_eq}
use nvmordering.Base.{
  ℕ, ◌<◌, Bool, true, false, ◌||◌, if◌then◌else◌, List, [], ◌∷◌, Option, none, some, Result, ok,
  err, assert_failed, ◌≡◌, ◌≢◌, ◌⊎◌, inl, inr, refl, arith, ap,
}
use nvmordering.Clang.{Ast, decl_ref_expr, member_expr, same_kind}
use nvmordering.Walk.Tree.{walk, IsTree, Finds, walk-Raises}

-- checkName: the loop over the names
unfoldable pub check_walk_name : List String → String → Bool → Bool
check_walk_name [] current used = used
check_walk_name (name ∷ names) current used =
    check_walk_name names current (if str_eq current name then true else used)

-- One of the names.
unfoldable pub is_one_of : List String → String → Bool
is_one_of [] current = false
is_one_of (name ∷ names) current = str_eq current name || is_one_of names current

pub check_walk_name-is_one_of :
    (names : List String) (current : String) (used : Bool)
    → check_walk_name names current used ≡ (used || is_one_of names current)
unfolding check_walk_name is_one_of
check_walk_name-is_one_of [] current used = ground arith
check_walk_name-is_one_of (name ∷ names) current used =
    ground
      (arith, check_walk_name-is_one_of names current (if str_eq current name then true else used))

-- if (idInfo) { checkName(idInfo->getName()); }
unfoldable pub check_identifier : List String → Option String → Bool → Bool
unfolding check_walk_name
check_identifier names none used = used
check_identifier names (some name) used = check_walk_name names name used

-- checkName(VD->getName())
unfoldable pub check_get_name : List String → Option String → Bool → Result Bool
unfolding check_walk_name
check_get_name names none used = err assert_failed
check_get_name names (some name) used = ok (check_walk_name names name used)

unfoldable pub option_is_one_of : List String → Option String → Bool
unfolding is_one_of
option_is_one_of names none = false
option_is_one_of names (some name) = is_one_of names name

check_identifier_lem :
    (names : List String) (name : Option String) (used : Bool)
    → check_identifier names name used ≡ (used || option_is_one_of names name)
unfolding check_identifier option_is_one_of
check_identifier_lem names none used = ground arith
check_identifier_lem names (some name) used = check_walk_name-is_one_of names name used

check_get_name_lem :
    (names : List String) (name : Option String) (used : Bool)
    → name ≢ none
    → check_get_name names name used ≡ ok (used || option_is_one_of names name)
unfolding check_get_name option_is_one_of
check_get_name_lem names none used h = absurd (h refl)
check_get_name_lem names (some name) used h = ap ok (check_walk_name-is_one_of names name used)

-- `ref_identifier` is the identifier of the name in a reference, if it has one.
module _ (ast : Ast) (ref_identifier : ℕ → Option String) (names : List String) where
  -- VisitDeclRefExpr, before its children
  unfoldable pub visit_decl_ref : ℕ → Bool → Bool
  unfolding check_identifier
  visit_decl_ref dre used = check_identifier names (ref_identifier dre) used

  -- VisitMemberExpr, before its children; `getName` asserts that the member has an identifier.
  unfoldable pub visit_member : ℕ → Bool → Result Bool
  unfolding check_get_name
  visit_member me used = check_get_name names (ast.identifier (ast.member_decl me)) used

  -- The dispatch of the visitor, before the children.
  unfoldable pub visit_name : ℕ → Bool → Result Bool
  unfolding visit_decl_ref visit_member
  visit_name s used =
      if same_kind (ast.kind s) decl_ref_expr
      then ok (visit_decl_ref s used)
      else (if same_kind (ast.kind s) member_expr then visit_member s used else ok used)

  unfoldable pub uses_names : ℕ → ℕ → Result Bool
  unfolding visit_name walk
  uses_names fuel s = walk ast visit_name fuel s false

  -- What the walk looks for: a reference or a member of one of the names.
  unfoldable pub names_it : ℕ → Bool
  unfolding option_is_one_of
  names_it s =
      if same_kind (ast.kind s) decl_ref_expr
      then option_is_one_of names (ref_identifier s)
      else (if same_kind (ast.kind s) member_expr
          then option_is_one_of names (ast.identifier (ast.member_decl s))
          else false)

  module _ (rank : ℕ → ℕ) (tree : IsTree ast rank)
      (named : (s : ℕ)
        → same_kind (ast.kind s) member_expr ≡ true
        → ast.identifier (ast.member_decl s) ≢ none) where
    visit_name_step :
        (s : ℕ) (used : Bool)
        → (used' : Bool) × (visit_name s used ≡ ok used') × (used' ≡ (used || names_it s))
    unfolding visit_name names_it
    visit_name_step s used = (
      used || names_it s,
      ground (
        arith,
        check_identifier_lem names (ref_identifier s) used,
        check_get_name_lem names (ast.identifier (ast.member_decl s)) used,
        named s,
      ),
      refl,
    )

    -- Where children have smaller ranks and every member has an identifier, usesNames ends for fuel
    -- above the rank of the statement, and says yes exactly if some statement of the tree is a
    -- reference or a member with one of the names.
    pub uses_names-Finds :
        (fuel s : ℕ)
        → rank s < fuel
        → (b : Bool) × (uses_names fuel s ≡ ok b)
          × (b ≡ true → Finds ast names_it s)
          × (Finds ast names_it s → b ≡ true)
    unfolding uses_names
    uses_names-Finds fuel s h =
        let (b, e, r) =
          walk-Raises ast visit_name (λ b. b) names_it rank tree visit_name_step fuel s false h in
        (b, e, λ t. found (r.reason t), λ f. r.up (inr f))
      where
        found : {F : Type 0} → (false ≡ true) ⊎ F → F
        found (inl e) = cc
        found (inr f) = f
