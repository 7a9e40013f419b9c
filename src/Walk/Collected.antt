-- ===== src/Walk/Collected.antt =====
-- include/parsers/NDWalker.h: the walk over a whole function.
use nvmordering.Base.{
  ℕ, zero, suc, ◌<◌, true, ◌==◌, List, [], ◌∷◌, member, Result, ok, fold_result, ◌≡◌, ◌≢◌, ◌⊎◌, inl,
  inr, refl, arith, Bool-cases, subst,
}
use nvmordering.Clang.{Ast}
use nvmordering.Walk.Tree.{visit_child, ChildOf, Raises-map, Raises-trans, Raises-none, test_ne}
use nvmordering.Walk.NamedDecls.{NdWalker, new_walker, visit_stmt, get_nds}
use nvmordering.Walk.Reached.{Reaches, names, in_child, in_callee, IsAcyclic, IsClosed, Below, Here}
use nvmordering.Walk.Steps.{Collects, Here-Collects, function-Collects}

new-IsClosed : (ast : Ast) → IsClosed ast new_walker
unfolding IsClosed member
new-IsClosed ast f v m b r = cc

found : (v : ℕ) (F : Type 0) → (member v [] ≡ true) ⊎ F → F
unfolding member
found v F (inl e) = cc
found v F (inr f) = f

module _ (ast : Ast) where
  Below-null : (c v : ℕ) (cs : List ℕ) → (c == 0) ≡ true → Below ast (c ∷ cs) v → Below ast cs v
  unfolding Below
  Below-null c v cs null (d, n, inl e, r) = absurd (n (ground arith))
  Below-null c v cs null (d, n, inr m, r) = (d, n, m, r)

  Below-rest : (c v : ℕ) (cs : List ℕ) → Below ast cs v → Below ast (c ∷ cs) v
  unfolding Below
  Below-rest c v cs (d, n, m, r) = (d, n, inr m, r)

  Below-split : (c v : ℕ) (cs : List ℕ) → Below ast (c ∷ cs) v → Reaches ast c v ⊎ Below ast cs v
  unfolding Below
  Below-split c v cs (d, n, inl e, r) = inl (subst (λ x. Reaches ast x v) e r)
  Below-split c v cs (d, n, inr m, r) = inr (d, n, m, r)

  Below-join :
      (c v : ℕ) (cs : List ℕ) → c ≢ 0 → Reaches ast c v ⊎ Below ast cs v → Below ast (c ∷ cs) v
  unfolding Below
  Below-join c v cs n (inl r) = (c, n, inl refl, r)
  Below-join c v cs n (inr b) = (b.0, b.1, inr b.2, b.3)

  nothing-Below : (v : ℕ) → ¬ Below ast [] v
  unfolding Below
  nothing-Below v b = b.2

  reach_split : (s v : ℕ) → Reaches ast s v → Here ast s v ⊎ Below ast (ast.children s) v
  unfolding Here Below
  reach_split s _ (names k) = inl (inl (k, refl))
  reach_split s v (in_child c n m r) = inr (c, n, m, r)
  reach_split s v (in_callee k b r) = inl (inr (k, b, r))

  reach_join : (s v : ℕ) → Here ast s v ⊎ Below ast (ast.children s) v → Reaches ast s v
  unfolding Here Below
  reach_join s v (inl (inl h)) = subst (Reaches ast s) h.1 (names h.0)
  reach_join s v (inl (inr h)) = in_callee h.0 h.1 h.2
  reach_join s v (inr b) = in_child b.0 b.1 b.2 b.3

  module _ (recur : ℕ → NdWalker → Result NdWalker) where
    children_collect :
        (cs : List ℕ) (w : NdWalker)
        → IsClosed ast w
        → ((c : ℕ) (w : NdWalker)
            → c ≢ 0
            → ChildOf c cs
            → IsClosed ast w
            → Collects ast (Reaches ast c) w (recur c w))
        → Collects ast (Below ast cs) w (fold_result (visit_child recur) cs w)
    unfolding fold_result visit_child
    children_collect [] w closed ih = record {
      after = w;
      ends = refl;
      closed = closed;
      collected = λ v. Raises-none (nothing-Below v);
    }
    children_collect (c ∷ cs) w closed ih = elim (Bool-cases (c == 0)) [
      | inl null ↦
          let r = children_collect cs w closed (λ d w' n m k. ih d w' n (inr m) k) in
          record {
            after = r.after;
            ends = rw null (r.ends);
            closed = r.closed;
            collected =
                λ v. Raises-map (Below-rest c v cs) (Below-null c v cs null) (r.collected v);
          }
      | inr valid ↦
          let first = ih c w (test_ne c valid) (inl refl) closed in
          let r =
            children_collect cs first.after first.closed (λ d w' n m k. ih d w' n (inr m) k) in
          record {
            after = r.after;
            ends = rw (valid, first.ends) (r.ends);
            closed = r.closed;
            collected = λ v.
                Raises-map (Below-join c v cs (test_ne c valid)) (Below-split c v cs)
                  (Raises-trans (first.collected v) (r.collected v));
          }
    ]

  module _ (rank : ℕ → ℕ) (acyclic : IsAcyclic ast rank) where
    stmt-Collects :
        (fuel s : ℕ) (w : NdWalker)
        → rank s < fuel
        → IsClosed ast w
        → Collects ast (Reaches ast s) w (visit_stmt ast fuel s w)
    unfolding visit_stmt
    stmt-Collects zero s w h closed = elim h [ ]
    stmt-Collects (suc fuel) s w h closed =
        let here =
          Here-Collects ast (visit_stmt ast fuel) s w (acyclic.direct s) closed (λ call body.
            stmt-Collects fuel (ast.body (ast.direct_callee s)) w
              (omega (arith, acyclic.calls s call body)) closed) in
        let rest =
          children_collect (visit_stmt ast fuel) (ast.children s) here.after here.closed
            (λ c w' n m k. stmt-Collects fuel c w' (omega (arith, acyclic.tree s c n m)) k) in
        record {
          after = rest.after;
          ends = rw (here.ends) (rest.ends);
          closed = rest.closed;
          collected = λ v.
              Raises-map (reach_join s v) (reach_split s v)
                (Raises-trans (here.collected v) (rest.collected v));
        }

    -- Where children and the bodies of callees have smaller ranks and every call is direct, getNDs
    -- ends for fuel above the rank of the body of its function, and a member is in its result
    -- exactly if the function has a body that reaches it: by a member expression in it, or in the
    -- body of a function that it calls, at any depth.
    pub get_nds-Reaches :
        (fuel fd : ℕ)
        → rank (ast.body fd) < fuel
        → (w : NdWalker) × (get_nds ast fuel fd ≡ ok w)
          × ((v : ℕ)
              → member v w.vars ≡ true
              → (ast.has_body fd ≡ true) × Reaches ast (ast.body fd) v)
          × ((v : ℕ)
              → ast.has_body fd ≡ true
              → Reaches ast (ast.body fd) v
              → member v w.vars ≡ true)
    unfolding get_nds
    get_nds-Reaches fuel fd h =
        let c =
          function-Collects ast (visit_stmt ast fuel) fd new_walker (new-IsClosed ast)
            (λ body. stmt-Collects fuel (ast.body fd) new_walker h (new-IsClosed ast)) in
        (
          c.after,
          c.ends,
          λ v m. found v _ ((c.collected v).reason m),
          λ v b r. (c.collected v).up (inr (b, r)),
        )
