-- ===== src/Walk/Steps.antt =====
-- include/parsers/NDWalker.h: what one step of the walk collects.
use nvmordering.Base.{
  ℕ, Bool, true, false, ◌==◌, PtrSet, member, add, member-add, Result, ok, ◌≡◌, ◌≢◌, inl, inr, refl,
  arith, Bool-cases, subst, sym,
}
use nvmordering.Clang.{Ast, StmtKind, call_expr, member_expr, same_kind}
use nvmordering.Walk.Tree.{Raises, Raises-map, Raises-none}
use nvmordering.Walk.Reached.{Reaches, IsClosed, Here}
use nvmordering.Walk.NamedDecls.{NdWalker, visit_function, visit_call, visit_here}

-- The walk from one state ends in another, collects exactly the members of `P`, and keeps what the
-- walk relies on.
pub record Collects (ast : Ast) (P : ℕ → Type 0) (w : NdWalker) (r : Result NdWalker) : Type 0 where
  pub after : NdWalker
  pub ends : r ≡ ok after
  pub closed : IsClosed ast after
  pub collected : (v : ℕ) → Raises (member v w.vars) (member v after.vars) (P v)

differ : {b : Bool} → b ≡ true → b ≡ false → ⊥
differ p q = cc

Raises-known : {a : Bool} {F : Type 0} → (F → a ≡ true) → Raises a a F
Raises-known known = record { up = λ h. elim h [ inl e ↦ e | inr f ↦ known f ]; reason = inl }

kinds_differ : (k : StmtKind) → same_kind k call_expr ≡ true → same_kind k member_expr ≡ true → ⊥
kinds_differ k p q = ground arith

Raises-add : (k v : ℕ) (vars : PtrSet) → Raises (member v vars) (member v (add k vars)) (k ≡ v)
Raises-add k v vars = record {
  up = λ h. elim h [
    | inl e ↦ ground (arith, member-add v k vars)
    | inr e ↦ ground (arith, member-add v k vars)
  ];
  reason = λ m. elim (Bool-cases (k == v)) [
    | inl e ↦ inr (ground arith)
    | inr e ↦ inl (ground (arith, member-add v k vars))
  ];
}

module _ (ast : Ast) where
  IsClosed-vars :
      (k : ℕ) (w : NdWalker) → IsClosed ast w → IsClosed ast (record w { vars = add k w.vars })
  unfolding IsClosed
  IsClosed-vars k w closed f v m b r = (Raises-add k v w.vars).up (inl (closed f v m b r))

  call_part :
      (s v : ℕ)
      → same_kind (ast.kind s) call_expr ≡ true
      → Here ast s v
      → (ast.has_body (ast.direct_callee s) ≡ true) × Reaches ast (ast.body (ast.direct_callee s)) v
  unfolding Here
  call_part s v call (inl h) = absurd (kinds_differ (ast.kind s) call h.0)
  call_part s v call (inr h) = (h.1, h.2)

  member_part :
      (s v : ℕ) → same_kind (ast.kind s) call_expr ≡ false → Here ast s v → ast.member_decl s ≡ v
  unfolding Here
  member_part s v no_call (inl h) = h.1
  member_part s v no_call (inr h) = absurd (differ h.0 no_call)

  neither_part :
      (s v : ℕ)
      → same_kind (ast.kind s) call_expr ≡ false
      → same_kind (ast.kind s) member_expr ≡ false
      → ¬ Here ast s v
  unfolding Here
  neither_part s v no_call no_member (inl h) = differ h.0 no_member
  neither_part s v no_call no_member (inr h) = differ h.0 no_call

module _ (ast : Ast) (recur : ℕ → NdWalker → Result NdWalker) where
  pub function-Collects :
      (fd : ℕ) (w : NdWalker)
      → IsClosed ast w
      → (ast.has_body fd ≡ true
          → Collects ast (Reaches ast (ast.body fd)) w (recur (ast.body fd) w))
      → Collects ast
          (λ v. (ast.has_body fd ≡ true) × Reaches ast (ast.body fd) v)
          w
          (visit_function ast recur fd w)
  unfolding visit_function IsClosed
  function-Collects fd w closed ih = elim (Bool-cases (ast.has_body fd)) [
    | inr none_ ↦ record {
      after = w;
      ends = rw none_ refl;
      closed = closed;
      collected = λ v. Raises-none (λ h. differ h.0 none_);
    }
    | inl body ↦ elim (Bool-cases (member fd w.seen_function)) [
      | inl seen ↦ record {
        after = w;
        ends = rw (body, seen) refl;
        closed = closed;
        collected = λ v. Raises-known (λ h. closed fd v seen body h.1);
      }
      | inr fresh ↦
          let c = ih body in
          record {
            after = c.after;
            ends = rw (body, fresh) c.ends;
            closed = c.closed;
            collected = λ v. Raises-map (λ h. (body, h)) (λ h. h.1) (c.collected v);
          }
    ]
  ]

  visit_call_lem :
      (s : ℕ) (w w' : NdWalker)
      → ast.direct_callee s ≢ 0
      → visit_function ast recur (ast.direct_callee s) w ≡ ok w'
      → visit_call ast recur s w
        ≡ ok (record w' { seen_function = add (ast.direct_callee s) w'.seen_function })
  unfolding visit_call
  visit_call_lem s w w' n e = ground arith

  IsClosed-add :
      (fd : ℕ) (w : NdWalker)
      → IsClosed ast w
      → ((v : ℕ) → ast.has_body fd ≡ true → Reaches ast (ast.body fd) v → member v w.vars ≡ true)
      → IsClosed ast (record w { seen_function = add fd w.seen_function })
  unfolding IsClosed
  IsClosed-add fd w closed new f v m b r = elim (Bool-cases (fd == f)) [
    | inl e ↦
        let same : fd ≡ f = ground arith in
        new v (subst (λ g. ast.has_body g ≡ true) (sym same) b)
          (subst (λ g. Reaches ast (ast.body g) v) (sym same) r)
    | inr e ↦ closed f v (ground (arith, member-add f fd w.seen_function)) b r
  ]

  call-Collects :
      (s : ℕ) (w : NdWalker)
      → ast.direct_callee s ≢ 0
      → IsClosed ast w
      → (ast.has_body (ast.direct_callee s) ≡ true
          → Collects ast
              (Reaches ast (ast.body (ast.direct_callee s)))
              w
              (recur (ast.body (ast.direct_callee s)) w))
      → Collects ast
          (λ v.
            (ast.has_body (ast.direct_callee s) ≡ true)
            × Reaches ast (ast.body (ast.direct_callee s)) v)
          w
          (visit_call ast recur s w)
  call-Collects s w n closed ih =
      let c = function-Collects (ast.direct_callee s) w closed ih in
      record {
        after = record (c.after) {
          seen_function = add (ast.direct_callee s) c.after.seen_function;
        };
        ends = visit_call_lem s w c.after n c.ends;
        closed =
            IsClosed-add (ast.direct_callee s) c.after c.closed
              (λ v b r. (c.collected v).up (inr (b, r)));
        collected = c.collected;
      }

  here_call :
      (s : ℕ) (w w' : NdWalker)
      → same_kind (ast.kind s) call_expr ≡ true
      → visit_call ast recur s w ≡ ok w'
      → visit_here ast recur s w ≡ ok w'
  unfolding visit_here
  here_call s w w' call e = ground arith

  pub Here-Collects :
      (s : ℕ) (w : NdWalker)
      → (same_kind (ast.kind s) call_expr ≡ true → ast.direct_callee s ≢ 0)
      → IsClosed ast w
      → (same_kind (ast.kind s) call_expr ≡ true
          → ast.has_body (ast.direct_callee s) ≡ true
          → Collects ast
              (Reaches ast (ast.body (ast.direct_callee s)))
              w
              (recur (ast.body (ast.direct_callee s)) w))
      → Collects ast (Here ast s) w (visit_here ast recur s w)
  unfolding visit_here Here
  Here-Collects s w n closed ih = elim (Bool-cases (same_kind (ast.kind s) call_expr)) [
    | inl call ↦
        let c = call-Collects s w (n call) closed (ih call) in
        record {
          after = c.after;
          ends = here_call s w c.after call c.ends;
          closed = c.closed;
          collected =
              λ v. Raises-map (λ h. inr (call, h.0, h.1)) (call_part ast s v call) (c.collected v);
        }
    | inr no_call ↦ elim (Bool-cases (same_kind (ast.kind s) member_expr)) [
      | inl mem ↦ record {
        after = record w { vars = add (ast.member_decl s) w.vars };
        ends = rw (no_call, mem) refl;
        closed = IsClosed-vars ast (ast.member_decl s) w closed;
        collected = λ v.
            Raises-map (λ e. inl (mem, e)) (member_part ast s v no_call)
              (Raises-add (ast.member_decl s) v w.vars);
      }
      | inr no_member ↦ record {
        after = w;
        ends = rw (no_call, no_member) refl;
        closed = closed;
        collected = λ v. Raises-none (neither_part ast s v no_call no_member);
      }
    ]
  ]
