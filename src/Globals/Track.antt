-- ===== src/Globals/Track.antt =====
-- The walk that fills a unit: `trackStmt` and `trackChildren`, which the parsers of the three
-- checkers share but for what they do at a statement that is no call. `fuel` bounds the depth of
-- the recursion, which the source leaves open: see `Laws`.
pub mod Laws
pub mod Keeps
use nvmordering.Base.{
  ℕ, zero, suc, Bool, true, false, ◌&&◌, not, ◌==◌, if◌then◌else◌, Result, ok, err, null_deref,
  out_of_fuel, guard, ◌>>=◌, ◌>>◌, List, [], ◌∷◌,
}
use nvmordering.Clang.{Ast, same_kind, call_expr}
use nvmordering.Globals.Units.{GlobalInfo, insert_function_to_active_unit}

-- `FD->hasBody() && !globals.isSkipFunction(FD)`; reading through a null callee is a fault.
unfoldable pub is_tracked : Ast → (ℕ → Bool) → ℕ → Result Bool
is_tracked ast is_skip fd =
    if fd == 0 then err null_deref else ok (ast.has_body fd && not (is_skip fd))

-- A piece of a parser: it changes the globals, and can fault.
abbrev pub Action {ℓ κ} : Type ℓ → Type κ → Type (ℓ ⊔ κ)
Action V F = GlobalInfo V F → Result (GlobalInfo V F)

module _ {ℓ κ} {V : Type ℓ} {F : Type κ} where
  -- The loop of `trackChildren`, where `track` is `trackStmt` with the fuel that is left.
  unfoldable pub track_children : (ℕ → Action V F) → List ℕ → Action V F
  track_children track [] g = ok g
  track_children track (child ∷ rest) g =
      (if child == 0 then ok g else track child g) >>= track_children track rest

  -- The branch of `trackStmt(S)` for a call: it walks the callee's body, `trackStmt(FD)`, first.
  unfoldable pub track_call : Ast → (ℕ → Bool) → (ℕ → Action V F) → ℕ → Action V F
  track_call ast is_skip track s g = is_tracked ast is_skip (ast.direct_callee s) >>= λ tracked.
      if tracked
      then (track (ast.body (ast.direct_callee s)) g >>= λ g'.
          insert_function_to_active_unit (ast.direct_callee s) g' >>= λ g''.
          track_children track (ast.children s) g'')
      else ok g

  -- `trackStmt(S)`, where `visit` is what a checker does at a statement that is no call
  unfoldable pub track_stmt : Ast → (ℕ → Bool) → (ℕ → Action V F) → ℕ → ℕ → Action V F
  track_stmt ast is_skip visit zero s g = err out_of_fuel
  track_stmt ast is_skip visit (suc fuel) s g =
      let inner = track_stmt ast is_skip visit fuel in
      if same_kind (ast.kind s) call_expr
      then track_call ast is_skip inner s g
      else (visit s g >>= track_children inner (ast.children s))

  -- `trackStmt(FD)`
  unfoldable pub track_function : Ast → (ℕ → Bool) → (ℕ → Action V F) → ℕ → ℕ → Action V F
  track_function ast is_skip visit fuel fd g = is_tracked ast is_skip fd >>= λ tracked.
      if tracked then track_stmt ast is_skip visit fuel (ast.body fd) g else ok g
