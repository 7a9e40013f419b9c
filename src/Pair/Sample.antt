-- ===== src/Pair/Sample.antt =====
-- A program of one function, f, that writes the field `data` of a pair, flushes and fences it, and
-- then writes the other field, `check`.
use text.Mathlib.Text.{find?}
use nvmordering.Base.{ℕ, true, ◌==◌, if◌then◌else◌, is_some, some, List, [], ◌∷◌}
use nvmordering.Clang.{
  Ast, StmtKind, Visit, function_decl, field_decl, member_visit, binary_operator, call_expr,
  member_expr, implicit_cast_expr, unary_operator, other_stmt,
}
use nvmordering.AutoCl.{Layout}

-- The declarations: two fields and three functions.
abbrev pub data_field : ℕ
data_field = 1

abbrev pub check_field : ℕ
check_field = 2

abbrev pub fn_f : ℕ
fn_f = 10

abbrev pub fn_clwb : ℕ
fn_clwb = 11

abbrev pub fn_pfence : ℕ
fn_pfence = 12

-- The statements of the body, which is 20.
abbrev pub write_data : ℕ
write_data = 21

abbrev pub flush_data : ℕ
flush_data = 22

abbrev pub fence : ℕ
fence = 23

abbrev pub write_check : ℕ
write_check = 24

abbrev sample_kind : ℕ → StmtKind
sample_kind s =
    if s == 21
    then binary_operator
    else (if s == 24
        then binary_operator
        else (if s == 22
            then call_expr
            else (if s == 23
                then call_expr
                else (if s == 31
                    then member_expr
                    else (if s == 34
                        then member_expr
                        else (if s == 35
                            then member_expr
                            else (if s == 32
                                then implicit_cast_expr
                                else (if s == 33 then unary_operator else (other_stmt)))))))))

abbrev sample_children : ℕ → List ℕ
sample_children s =
    if s == 20
    then 21 ∷ 22 ∷ 23 ∷ 24 ∷ []
    else (if s == 21
        then 31 ∷ []
        else (if s == 24
            then 35 ∷ []
            else (if s == 22
                then 32 ∷ []
                else (if s == 32 then 33 ∷ [] else (if s == 33 then 34 ∷ [] else ([]))))))

abbrev pub sample : Ast
sample = record {
  kind = sample_kind;
  children = sample_children;
  is_assignment_op = λ s. true;
  lhs = λ s. if s == 21 then 31 else 35;
  rhs = λ s. 0;
  sub_expr = λ s. 34;
  arg = λ s i. 32;
  direct_callee = λ s. if s == 22 then 11 else 12;
  member_decl = λ s. if s == 35 then 2 else 1;
  found_decl = λ s. 0;
  has_body = λ f. f == 10;
  body = λ f. 20;
  identifier = λ f. if f == 10 then some "f" else (if f == 11 then some "clwb" else some "pfence");
  annotations = λ d. if d == 1 then "pair dcl-check" ∷ [] else [];
  qualified_name = λ d. if d == 1 then "data" else "check";
  enclosing_function = λ s. 10;
  contains = λ s t. is_some (find? s t);
  rsplit = λ s. ("pair dcl", "check");
}

-- The pair says `dcl`, so nothing is asked of the layout.
abbrev pub sample_layout : Layout
sample_layout = record {
  is_field_or_obj = λ d. true;
  record_of = λ d. 3;
  is_aligned = λ d. true;
  fields_of = λ d. [];
}

abbrev pub sample_visits : List Visit
sample_visits =
    field_decl 1
    ∷ field_decl 2
    ∷ function_decl 11
    ∷ function_decl 12
    ∷ function_decl 10
    ∷ member_visit 31
    ∷ member_visit 34
    ∷ member_visit 35
    ∷ []
