-- ===== src/Pair/GlobalParser/Units.antt =====
-- The units of PairGlobalParser.h: whether the walk that fills one ends.
use nvmordering.Base.{
  ℕ, suc, zero, true, false, ◌==◌, ◌≡◌, ◌<◌, refl, err, out_of_fuel, List, ◌∷◌, some, Bool-cases,
  inl, inr, not, ◌&&◌, add,
}
use nvmordering.Clang.{Ast, same_kind, call_expr, member_expr}
use nvmordering.Globals.Functions.Direct.{is_skip_function}
use nvmordering.Globals.Units.{init_active_unit, insert_variable_to_active_unit}
use nvmordering.Globals.Track.{is_tracked, track_children, track_function, track_stmt}
use nvmordering.Globals.Track.Laws.{
  IsRanked, Walks, update_active-Walks, track_stmt-Walks, track_stmt-recursive,
}
use nvmordering.Pair.Variables.{is_used_var}
use nvmordering.Pair.StmtParser.{Globals}
use nvmordering.Pair.GlobalParser.{track_unit, visit_stmt}

visit_stmt-Walks :
    (ast : Ast) (unit s : ℕ) (g : Globals)
    → g.active_unit ≡ some unit
    → Walks unit (visit_stmt ast s g)
unfolding visit_stmt insert_variable_to_active_unit
visit_stmt-Walks ast unit s g a = elim (Bool-cases (same_kind (ast.kind s) member_expr)) [
  | inl e ↦ rw e (elim (Bool-cases (is_used_var g.variables (ast.member_decl s))) [
    | inl u ↦ rw u (
        update_active-Walks unit
          (λ w. record w { unit_variables = add (ast.member_decl s) w.unit_variables }) g a)
    | inr u ↦ rw u (g, refl, a)
  ])
  | inr e ↦ rw e (g, refl, a)
]

-- In a program without recursion whose calls are direct, the walk of a unit ends without a fault,
-- and the unit is then the active one, where the fuel is above the rank of the function's body.
pub track_unit-Walks :
    (ast : Ast) (rank : ℕ → ℕ)
    → IsRanked ast rank
    → (fuel fd : ℕ) (g : Globals) → (fd == 0) ≡ false
    → rank (ast.body fd) < fuel
    → Walks fd (track_unit ast fuel fd g)
unfolding track_unit track_function is_tracked init_active_unit
track_unit-Walks ast rank ranked fuel fd g nz lt =
    let skip = is_skip_function g.functions in
    elim (Bool-cases (ast.has_body fd && not (skip fd))) [
      | inl e ↦
          rw (nz, e)
            (track_stmt-Walks ast skip (visit_stmt ast) fd rank ranked
              (λ s g' a. visit_stmt-Walks ast fd s g' a) fuel (ast.body fd) _ lt refl)
      | inr e ↦ rw (nz, e) (_, refl, refl)
    ]

-- A function `fd` that is analysed, and whose body is a block with a call of `fd` itself in the
-- first place, has no fuel with which the walk of its unit ends.
pub track_unit-recursive :
    (ast : Ast) (fd s : ℕ) (cs : List ℕ) (g : Globals)
    → (fd == 0) ≡ false
    → ast.has_body fd ≡ true
    → is_skip_function g.functions fd ≡ false
    → same_kind (ast.kind (ast.body fd)) call_expr ≡ false
    → same_kind (ast.kind (ast.body fd)) member_expr ≡ false
    → ast.children (ast.body fd) ≡ s ∷ cs
    → (s == 0) ≡ false
    → same_kind (ast.kind s) call_expr ≡ true
    → ast.direct_callee s ≡ fd
    → (fuel : ℕ) → track_unit ast fuel fd g ≡ err out_of_fuel
unfolding track_unit track_function is_tracked track_stmt track_children visit_stmt
track_unit-recursive ast fd s cs g nz has keep block no_member first s_nz call callee zero =
    rw (nz, has, keep) refl
track_unit-recursive ast fd s cs g nz has keep block no_member first s_nz call callee (suc fuel) =
    rw (nz, has, keep, block, no_member, first, s_nz)
      (rw
        (track_stmt-recursive ast (is_skip_function g.functions) (visit_stmt ast) s cs call
          (rw callee nz) (rw callee has) (rw callee keep) (rw callee block) (rw callee first) s_nz
          (λ g'. rw (callee, no_member) refl) fuel (init_active_unit fd g))
        refl)
