-- ===== src/Symbolic/Decls.antt =====
-- The lookups of include/util/Helper.h on declarations: casts to a class of declarations, the
-- record that a declaration belongs to, and the function around a statement or a declaration.
use nvmordering.Base.{
  ℕ, zero, suc, Bool, true, false, List, [], ◌∷◌, if◌then◌else◌, ◌==◌, Result, err, ok, guard,
  assert_failed, fatal_error, out_of_fuel, null_deref, ◌>>=◌, ◌>>◌,
}

-- use this instead of dynamic node
pub data StmtOrDecl : Type 0 where
  stmt decl : ℕ → StmtOrDecl
  neither : StmtOrDecl

-- What clang answers about declarations, parents and frames. A parent that is neither a statement
-- nor a declaration is `neither`.
pub record Decls : Type 0 where
  pub is_function_decl : ℕ → Bool
  pub is_field_decl : ℕ → Bool
  pub is_record_decl : ℕ → Bool
  pub is_declarator_decl : ℕ → Bool
  pub is_value_decl : ℕ → Bool
  pub parent_record : ℕ → ℕ  -- of a field
  pub has_aligned_attr : ℕ → Bool
  pub annotate_attrs : ℕ → List ℕ
  pub parents : StmtOrDecl → List StmtOrDecl  -- ASTContext::getParents
  pub frame_parent : ℕ → ℕ  -- of a location context
  pub frame_decl : ℕ → ℕ

-- `dyn_cast_or_null` to the class that the test is for
unfoldable pub cast_or_null : (ℕ → Bool) → ℕ → ℕ
cast_or_null is_class d = if d == 0 then 0 else (if is_class d then d else 0)

-- `dyn_cast` to a class, which a null pointer may not be given to
unfoldable pub cast_checked : (ℕ → Bool) → ℕ → Result ℕ
cast_checked is_class d = if d == 0 then err null_deref else ok (if is_class d then d else 0)

module _ (decls : Decls) where
  unfoldable pub is_field_or_obj : ℕ → Bool
  unfolding cast_or_null
  is_field_or_obj nd =
      if cast_or_null decls.is_field_decl nd == 0
      then (if cast_or_null decls.is_record_decl nd == 0 then false else true)
      else true

  unfoldable pub get_field_from_nds : ℕ → ℕ → Result ℕ
  unfolding cast_or_null
  get_field_from_nds nd1 nd2 =
      let fd1 = cast_or_null decls.is_field_decl nd1 in
      let fd2 = cast_or_null decls.is_field_decl nd2 in
      if fd1 == 0 then (if fd2 == 0 then err fatal_error else ok fd2) else ok fd1

  unfoldable pub get_record_decl_from_nd : ℕ → ℕ
  unfolding cast_or_null
  get_record_decl_from_nd nd = cast_or_null decls.is_record_decl nd

  unfoldable pub get_rd_from_any : ℕ → Result ℕ
  unfolding cast_checked
  get_rd_from_any nd = do
    fd ← cast_checked decls.is_field_decl nd
    rd ← cast_checked decls.is_record_decl nd
    ok (if fd == 0 then rd else decls.parent_record fd)

  unfoldable pub is_rd_aligned : ℕ → Result Bool
  is_rd_aligned rd = do
    guard (if rd == 0 then false else true) assert_failed
    ok (decls.has_aligned_attr rd)

  -- the first `annotate` attribute
  unfoldable pub get_annotation : ℕ → Result ℕ
  get_annotation vd =
      if vd == 0
      then err null_deref
      else elim (decls.annotate_attrs vd) [ [] ↦ ok 0 | ann ∷ anns ↦ ok ann ]

  unfoldable pub get_func_decl : ℕ → ℕ
  unfolding cast_or_null
  get_func_decl bd = cast_or_null decls.is_function_decl bd

  unfoldable pub get_declarator_decl : ℕ → Result ℕ
  unfolding cast_or_null
  get_declarator_decl bd =
      let d = cast_or_null decls.is_declarator_decl bd in if d == 0 then err fatal_error else ok d

  unfoldable pub get_value_decl : ℕ → Result ℕ
  unfolding cast_or_null
  get_value_decl bd =
      let d = cast_or_null decls.is_value_decl bd in if d == 0 then err fatal_error else ok d

  -- getParentStmtOrDecl on a list of parents, and on a statement or a declaration
  unfoldable pub first_parent : List StmtOrDecl → Result StmtOrDecl
  first_parent [] = err fatal_error
  first_parent (p ∷ ps) = ok p

  unfoldable pub get_parent_stmt_or_decl : StmtOrDecl → Result StmtOrDecl
  unfolding first_parent
  get_parent_stmt_or_decl (stmt s) = first_parent (decls.parents (stmt s))
  get_parent_stmt_or_decl (decl d) = first_parent (decls.parents (decl d))
  get_parent_stmt_or_decl neither = ok neither

  -- getFuncDecl(SorD, AC), behind the parent: `recur` is the call on the parent.
  unfoldable pub func_decl_at : (StmtOrDecl → Result ℕ) → StmtOrDecl → Result ℕ
  unfolding cast_or_null
  func_decl_at recur (stmt s) = recur (stmt s)
  func_decl_at recur (decl d) =
      let fd = cast_or_null decls.is_function_decl d in if fd == 0 then recur (decl d) else ok fd
  func_decl_at recur neither = err fatal_error

  -- getFuncDecl(SorD, AC), which climbs `fuel` levels at most
  unfoldable pub get_func_decl_around : ℕ → StmtOrDecl → Result ℕ
  unfolding func_decl_at get_parent_stmt_or_decl
  get_func_decl_around zero s = err out_of_fuel
  get_func_decl_around (suc fuel) s =
      get_parent_stmt_or_decl s >>= func_decl_at (get_func_decl_around fuel)

  -- The loop of getTopFunction, at a frame that is not null.
  unfoldable pub top_frame : ℕ → ℕ → Result ℕ
  top_frame zero lc = err out_of_fuel
  top_frame (suc fuel) lc =
      let rest = top_frame fuel (decls.frame_parent lc) in
      if decls.frame_parent lc == 0 then ok lc else rest

  unfoldable pub get_top_function : ℕ → ℕ → Result ℕ
  unfolding top_frame cast_checked
  get_top_function fuel lc = do
    top ← top_frame fuel lc
    fd ← cast_checked decls.is_function_decl (decls.frame_decl top)
    if fd == 0 then err fatal_error else ok fd
