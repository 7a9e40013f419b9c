-- ===== src/Clang/Parse.antt =====
-- include/parser_util/ParseUtils.h, and `getNthChild` of include/util/Helper.h. A pointer that the
-- source returns is a number, and `return nullptr` is 0.
use nvmordering.Base.{ℕ, zero, suc, ◌==◌, List, [], ◌∷◌, if◌then◌else◌, not}
use nvmordering.Clang.{
  Ast, dyn_cast_or_null, same_kind, implicit_cast_expr, decl_ref_expr, unary_operator, member_expr,
}

-- The loop of `getNthChild`: child number i of the rest of the children.
unfoldable pub nth_or_null : List ℕ → ℕ → ℕ
nth_or_null [] i = 0
nth_or_null (c ∷ cs) zero = c
nth_or_null (c ∷ cs) (suc i) = nth_or_null cs i

unfoldable pub get_nth_child : Ast → ℕ → ℕ → ℕ
unfolding nth_or_null
get_nth_child ast s i = if s == 0 then 0 else nth_or_null (ast.children s) i

-- `getNDOfRHS`: the declaration that an assignment copies from.
unfoldable pub get_nd_of_rhs : Ast → ℕ → ℕ
unfolding get_nth_child dyn_cast_or_null
get_nd_of_rhs ast bo =
    if not (ast.is_assignment_op bo)
    then 0
    else let ice = dyn_cast_or_null ast implicit_cast_expr (ast.rhs bo) in
      if ice == 0
      then 0
      else let dre = dyn_cast_or_null ast decl_ref_expr (get_nth_child ast ice 0) in
        if dre == 0 then 0 else ast.found_decl dre

-- `getNDOfAssigned`: the variable that an assignment writes.
unfoldable pub get_nd_of_assigned : Ast → ℕ → ℕ
unfolding dyn_cast_or_null
get_nd_of_assigned ast bo =
    if not (ast.is_assignment_op bo)
    then 0
    else let dre = dyn_cast_or_null ast decl_ref_expr (ast.lhs bo) in
      if dre == 0 then 0 else ast.found_decl dre

-- `getPtrFromFlush`: the variable under the two casts of a flush's first argument.
unfoldable pub get_ptr_from_flush : Ast → ℕ → ℕ
unfolding get_nth_child dyn_cast_or_null
get_ptr_from_flush ast ce =
    let ice = dyn_cast_or_null ast implicit_cast_expr (ast.arg ce 0) in
    if ice == 0
    then 0
    else let ice2 = dyn_cast_or_null ast implicit_cast_expr (get_nth_child ast ice 0) in
      if ice2 == 0
      then 0
      else let dre = dyn_cast_or_null ast decl_ref_expr (get_nth_child ast ice2 0) in
        if dre == 0 then 0 else ast.found_decl dre

-- `getFieldDeclFromWriteME`: the member expression on the left of an assignment.
unfoldable pub get_field_decl_from_write_me : Ast → ℕ → ℕ
unfolding dyn_cast_or_null
get_field_decl_from_write_me ast bo =
    if not (ast.is_assignment_op bo) then 0 else dyn_cast_or_null ast member_expr (ast.lhs bo)

-- `getFieldDeclFromWrite`: the field that an assignment writes.
unfoldable pub get_field_decl_from_write : Ast → ℕ → ℕ
unfolding get_field_decl_from_write_me
get_field_decl_from_write ast bo =
    let me = get_field_decl_from_write_me ast bo in if me == 0 then 0 else ast.member_decl me

-- `getFieldDeclFromCall`: the field whose address is a call's first argument, under a cast. The
-- casts of the source are `isa` tests, which want a node; a child that is missing is no operator.
unfoldable pub get_field_decl_from_call : Ast → ℕ → ℕ
unfolding get_nth_child dyn_cast_or_null
get_field_decl_from_call ast ce =
    let arg0 = ast.arg ce 0 in
    if not (same_kind (ast.kind arg0) implicit_cast_expr)
    then 0
    else let child1 = get_nth_child ast arg0 0 in
      if not (same_kind (ast.kind child1) unary_operator)
      then 0
      else let me = dyn_cast_or_null ast member_expr (ast.sub_expr child1) in
        if me == 0 then 0 else ast.member_decl me
