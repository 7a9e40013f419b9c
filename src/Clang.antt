-- ===== src/Clang.antt =====
-- What the checkers ask of clang, which is not part of this repository: the syntax tree and the
-- control flow graphs. A node, a declaration and a block are pointers, that is numbers, and 0 is
-- the null pointer. `kind` is the class that `dyn_cast` sees; the classes that the checkers cast
-- to are disjoint in clang. The children below translate the repository's own readers of the tree:
-- include/util/Helper.h and include/parser_util/ParseUtils.h.
pub mod Parse
use Prim.Native.String.{String}
use nvmordering.Base.{ℕ, zero, suc, ◌==◌, Bool, true, false, Option, List, if◌then◌else◌}

pub data StmtKind : Type 0 where
  binary_operator call_expr member_expr implicit_cast_expr decl_ref_expr unary_operator : StmtKind
  other_stmt : StmtKind

pub record Ast : Type 0 where
  pub kind : ℕ → StmtKind
  pub children : ℕ → List ℕ  -- in order; a null child is 0
  pub is_assignment_op : ℕ → Bool  -- of a binary operator
  pub lhs : ℕ → ℕ
  pub rhs : ℕ → ℕ
  pub sub_expr : ℕ → ℕ  -- of a unary operator
  pub arg : ℕ → ℕ → ℕ  -- of a call
  pub direct_callee : ℕ → ℕ  -- of a call, 0 for an indirect one
  pub member_decl : ℕ → ℕ  -- of a member expression
  pub found_decl : ℕ → ℕ  -- of a reference to a declaration
  pub has_body : ℕ → Bool  -- of a function
  pub body : ℕ → ℕ
  pub identifier : ℕ → Option String  -- none where `getIdentifier` is null
  pub annotations : ℕ → List String  -- the `annotate` attributes of a declaration
  pub qualified_name : ℕ → String  -- of a named declaration
  pub enclosing_function : ℕ → ℕ  -- `getFuncDecl(ME, AC)`: the function that an expression is in
  pub contains : String → String → Bool  -- StringRef::contains
  pub rsplit : String → String × String  -- StringRef::rsplit('-')

-- What RecursiveASTVisitor hands to a checker's parser, in its order.
pub data Visit : Type 0 where
  function_decl field_decl record_decl member_visit assignment_visit : ℕ → Visit

-- `cfg->begin()` to `cfg->end()`, the entry and the exit of a function's graph; of a block, its
-- neighbours, its elements (`none` is an element that is no statement) and the first and last block
-- of the graph that it belongs to.
pub record Cfg : Type 0 where
  pub blocks : ℕ → List ℕ
  pub entry : ℕ → ℕ
  pub exit : ℕ → ℕ
  pub successors : ℕ → List ℕ
  pub predecessors : ℕ → List ℕ
  pub elements : ℕ → List (Option ℕ)
  pub graph_front : ℕ → ℕ
  pub graph_back : ℕ → ℕ

-- Booleans on kinds, as the casts make them.
abbrev pub same_kind : StmtKind → StmtKind → Bool
same_kind binary_operator binary_operator = true
same_kind call_expr call_expr = true
same_kind member_expr member_expr = true
same_kind implicit_cast_expr implicit_cast_expr = true
same_kind decl_ref_expr decl_ref_expr = true
same_kind unary_operator unary_operator = true
same_kind other_stmt other_stmt = true
same_kind _ _ = false

-- `dyn_cast_or_null<K>(S)`
unfoldable pub dyn_cast_or_null : Ast → StmtKind → ℕ → ℕ
dyn_cast_or_null ast k s = if s == 0 then 0 else (if same_kind (ast.kind s) k then s else 0)
