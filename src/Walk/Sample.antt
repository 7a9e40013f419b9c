-- ===== src/Walk/Sample.antt =====
-- A program for the tests of the walkers: a function (50) that names a member (41) and calls another
-- one (51) that names a second member (42).
use nvmordering.Base.{
  ℕ, ◌<◌, false, ◌==◌, ◌||◌, if◌then◌else◌, [], ◌∷◌, some, ◌≡◌, refl, arith, inl, inr, Bool-cases,
  subst,
}
use nvmordering.Clang.{Ast, StmtKind, call_expr, member_expr, other_stmt}
use nvmordering.Walk.Tree.{ChildOf, IsTree}
use nvmordering.Walk.Reached.{IsAcyclic}

-- The body 60 of the function 50: a member (61) and a call (62) of the function 51, whose body 63 is
-- a member.
abbrev call_kinds : ℕ → StmtKind
call_kinds s =
    if s == 61 || s == 63 then member_expr else (if s == 62 then call_expr else other_stmt)

abbrev pub call_program : Ast
call_program = record {
  kind = call_kinds;
  children = λ s. if s == 60 then 61 ∷ 62 ∷ [] else [];
  is_assignment_op = λ s. false;
  lhs = λ s. 0;
  rhs = λ s. 0;
  sub_expr = λ s. 0;
  arg = λ s i. 0;
  direct_callee = λ s. 51;
  member_decl = λ s. if s == 61 then 41 else 42;
  found_decl = λ s. 0;
  has_body = λ f. f == 50 || f == 51;
  body = λ f. if f == 50 then 60 else 63;
  identifier = λ s. some "f";
  annotations = λ s. [];
  qualified_name = λ s. "f";
  enclosing_function = λ s. 50;
  contains = λ a b. false;
  rsplit = λ a. (a, a);
}

abbrev pub call_rank : ℕ → ℕ
call_rank s = if s == 60 then 3 else (if s == 62 then 2 else 1)

pub call-IsTree : IsTree call_program call_rank
call-IsTree s c n m = elim (Bool-cases (s == 60)) [
  | inl e ↦ top (ground arith) (subst (ChildOf c) {y = 61 ∷ 62 ∷ []} (rw e refl) m)
  | inr e ↦ absurd (subst (ChildOf c) {y = []} (rw e refl) m)
]
  where
    top : s ≡ 60 → ChildOf c (61 ∷ 62 ∷ []) → call_rank c < call_rank s
    top q (inl e) = ground arith
    top q (inr (inl e)) = ground arith
    top q (inr (inr e)) = absurd e

pub call-IsAcyclic : IsAcyclic call_program call_rank
call-IsAcyclic = record {
  tree = call-IsTree;
  calls = λ s k b. ground arith;
  direct = λ s k e. ground arith;
}
