-- ===== src/Walk/Reached.antt =====
-- include/parsers/NDWalker.h: the walk ends for programs without recursion, and collects exactly the
-- members that are reached.
use nvmordering.Base.{ℕ, ◌<◌, true, List, member, ◌≡◌, ◌≢◌, ◌⊎◌}
use nvmordering.Clang.{Ast, call_expr, member_expr, same_kind}
use nvmordering.Walk.Tree.{ChildOf, IsTree}
use nvmordering.Walk.NamedDecls.{NdWalker}

-- A statement reaches a member that it names, that a child reaches, or that the body of its callee
-- reaches.
pub data Reaches (ast : Ast) : ℕ → ℕ → Type 0 where
  names : {s : ℕ} → same_kind (ast.kind s) member_expr ≡ true → Reaches ast s (ast.member_decl s)
  in_child :
      {s v : ℕ} (c : ℕ) → c ≢ 0 → ChildOf c (ast.children s) → Reaches ast c v → Reaches ast s v
  in_callee :
      {s v : ℕ}
      → same_kind (ast.kind s) call_expr ≡ true
      → ast.has_body (ast.direct_callee s) ≡ true
      → Reaches ast (ast.body (ast.direct_callee s)) v
      → Reaches ast s v

-- The program: children and bodies of callees are of a smaller rank, and every call is direct.
pub record IsAcyclic (ast : Ast) (rank : ℕ → ℕ) : Type 0 where
  pub tree : IsTree ast rank
  pub calls :
      (s : ℕ)
      → same_kind (ast.kind s) call_expr ≡ true
      → ast.has_body (ast.direct_callee s) ≡ true
      → rank (ast.body (ast.direct_callee s)) < rank s
  pub direct : (s : ℕ) → same_kind (ast.kind s) call_expr ≡ true → ast.direct_callee s ≢ 0

-- What the functions that were seen reach has been collected.
unfoldable pub IsClosed : Ast → NdWalker → Type 0
IsClosed ast w =
    (f v : ℕ)
    → member f w.seen_function ≡ true
    → ast.has_body f ≡ true
    → Reaches ast (ast.body f) v
    → member v w.vars ≡ true

-- Some child reaches the member.
unfoldable pub Below : Ast → List ℕ → ℕ → Type 0
Below ast cs v = (c : ℕ) × (c ≢ 0) × ChildOf c cs × Reaches ast c v

-- What a statement reaches without its children.
unfoldable pub Here : Ast → ℕ → ℕ → Type 0
Here ast s v =
    (same_kind (ast.kind s) member_expr ≡ true) × (ast.member_decl s ≡ v)
    ⊎ (same_kind (ast.kind s) call_expr ≡ true)
      × (ast.has_body (ast.direct_callee s) ≡ true)
      × Reaches ast (ast.body (ast.direct_callee s)) v
