-- ===== src/Globals/Track/Keeps.antt =====
-- trackStmt of the global parsers: properties that its walk keeps.
use nvmordering.Base.{
  ℕ, zero, suc, Bool, ◌==◌, if◌then◌else◌, ◌≡◌, ok, List, [], ◌∷◌, Bool-cases, inl, inr, >>=-eq-ok,
  ok-injective, subst,
}
use nvmordering.Clang.{Ast, same_kind, call_expr}
use nvmordering.Globals.Units.{GlobalInfo, insert_function_to_active_unit}
use nvmordering.Globals.Track.{
  Action, track_call, is_tracked, track_children, track_stmt, track_function,
}

-- What the visits and the insertion of a function keep, the walk keeps.
module _ {ℓ κ μ} {V : Type ℓ} {F : Type κ} (P : GlobalInfo V F → Type μ) (ast : Ast)
    (is_skip : ℕ → Bool) (visit : ℕ → Action V F)
    (inserts : (fd : ℕ) (g g' : GlobalInfo V F)
      → insert_function_to_active_unit fd g ≡ ok g'
      → P g
      → P g')
    (visits : (s : ℕ) (g g' : GlobalInfo V F) → visit s g ≡ ok g' → P g → P g') where
  track_children-keeps :
      (track : ℕ → Action V F)
      → ((s : ℕ) (g g' : GlobalInfo V F) → track s g ≡ ok g' → P g → P g')
      → (cs : List ℕ) (g g' : GlobalInfo V F) → track_children track cs g ≡ ok g'
      → P g
      → P g'
  unfolding track_children
  track_children-keeps track keep [] g g' e h = subst P (ok-injective e) h
  track_children-keeps track keep (c ∷ cs) g g' e h =
      let (m, e1, e2) =
        >>=-eq-ok (if c == 0 then ok g else track c g) (track_children track cs) e in
      track_children-keeps track keep cs m g' e2 (elim (Bool-cases (c == 0)) [
        | inl z ↦ subst P (ok-injective (rw z at e1)) h
        | inr nz ↦ keep c g m (rw nz at e1) h
      ])

  track_call-keeps :
      (track : ℕ → Action V F)
      → ((s : ℕ) (g g' : GlobalInfo V F) → track s g ≡ ok g' → P g → P g')
      → (s : ℕ) (g g' : GlobalInfo V F) → track_call ast is_skip track s g ≡ ok g'
      → P g
      → P g'
  unfolding track_call
  track_call-keeps track keep s g g' e h =
      let (tracked, _, e1) = >>=-eq-ok (is_tracked ast is_skip (ast.direct_callee s)) _ e in
      elim (Bool-cases tracked) [
        | inr skips ↦ subst P (ok-injective (rw skips at e1)) h
        | inl walks ↦
            let (g1, f1, r1) =
              >>=-eq-ok (track (ast.body (ast.direct_callee s)) g) _ (rw walks at e1) in
            let (g2, f2, r2) =
              >>=-eq-ok (insert_function_to_active_unit (ast.direct_callee s) g1) _ r1 in
            track_children-keeps track keep (ast.children s) g2 g' r2 (
              inserts (ast.direct_callee s) g1 g2 f2
                (keep (ast.body (ast.direct_callee s)) g g1 f1 h))
      ]

  pub track_stmt-keeps :
      (fuel s : ℕ) (g g' : GlobalInfo V F)
      → track_stmt ast is_skip visit fuel s g ≡ ok g'
      → P g
      → P g'
  unfolding track_stmt
  track_stmt-keeps zero s g g' e h = cc
  track_stmt-keeps (suc fuel) s g g' e h = elim (Bool-cases (same_kind (ast.kind s) call_expr)) [
    | inl call ↦
        track_call-keeps (track_stmt ast is_skip visit fuel) (track_stmt-keeps fuel) s g g'
          (rw call at e) h
    | inr no_call ↦
        let (g1, f1, r1) = >>=-eq-ok (visit s g) _ (rw no_call at e) in
        track_children-keeps (track_stmt ast is_skip visit fuel) (track_stmt-keeps fuel)
          (ast.children s) g1 g' r1 (visits s g g1 f1 h)
  ]

  pub track_function-keeps :
      (fuel fd : ℕ) (g g' : GlobalInfo V F)
      → track_function ast is_skip visit fuel fd g ≡ ok g'
      → P g
      → P g'
  unfolding track_function
  track_function-keeps fuel fd g g' e h =
      let (tracked, _, e1) = >>=-eq-ok (is_tracked ast is_skip fd) _ e in
      elim (Bool-cases tracked) [
        | inr skips ↦ subst P (ok-injective (rw skips at e1)) h
        | inl walks ↦ track_stmt-keeps fuel (ast.body fd) g g' (rw walks at e1) h
      ]
