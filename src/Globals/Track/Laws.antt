-- ===== src/Globals/Track/Laws.antt =====
-- When the walk of a unit ends.
use nvmordering.Base.{
  add, ℕ, zero, suc, ◌<◌, Bool, true, false, ◌==◌, if◌then◌else◌, ◌≡◌, ◌≢◌, refl, Result, ok, err,
  out_of_fuel, List, [], ◌∷◌, some, arith, Bool-cases, inl, inr, ◌>>=◌,
}
use nvmordering.Clang.{Ast, same_kind, call_expr}
use nvmordering.Globals.Units.{GlobalInfo, UnitInfo, insert_function_to_active_unit, update_active}
use nvmordering.Globals.Track.{Action, track_call, is_tracked, track_children, track_stmt}

-- Each child that is there is below a bound.
abbrev pub AllBelow : (ℕ → ℕ) → ℕ → List ℕ → Type 0
AllBelow rank n [] = Unit
AllBelow rank n (c ∷ cs) = (c ≢ 0 → rank c < n) × AllBelow rank n cs

-- A program without recursion, in which each call has a known callee: statements have a rank that
-- falls to the children, and from a call to the body of its callee.
pub record IsRanked (ast : Ast) (rank : ℕ → ℕ) : Type 0 where
  pub children_below : (s : ℕ) → AllBelow rank (rank s) (ast.children s)
  pub callee_known : (s : ℕ) → same_kind (ast.kind s) call_expr ≡ true → ast.direct_callee s ≢ 0
  pub body_below :
      (s : ℕ)
      → same_kind (ast.kind s) call_expr ≡ true
      → ast.has_body (ast.direct_callee s) ≡ true
      → rank (ast.body (ast.direct_callee s)) < rank s

module _ {ℓ κ} {V : Type ℓ} {F : Type κ} where
  -- The result of a walk from a state whose active unit is `unit`.
  abbrev pub Walks : ℕ → Result (GlobalInfo V F) → Type (ℓ ⊔ κ)
  Walks unit m = (g : GlobalInfo V F) × (m ≡ ok g) × (g.active_unit ≡ some unit)

  bind-Walks :
      (unit : ℕ) (m : Result (GlobalInfo V F)) (k : GlobalInfo V F → Result (GlobalInfo V F))
      → Walks unit m
      → ((g : GlobalInfo V F) → g.active_unit ≡ some unit → Walks unit (k g))
      → Walks unit (m >>= k)
  bind-Walks unit m k (g, e, a) h = rw e (h g a)

  -- A change of the active unit's data.
  pub update_active-Walks :
      (unit : ℕ) (f : UnitInfo → UnitInfo) (g : GlobalInfo V F)
      → g.active_unit ≡ some unit
      → Walks unit (update_active f g)
  unfolding update_active
  update_active-Walks unit f g a = rw (a, update_active) (_, refl, a)

  insert_function-Walks :
      (unit fd : ℕ) (g : GlobalInfo V F)
      → g.active_unit ≡ some unit
      → Walks unit (insert_function_to_active_unit fd g)
  unfolding insert_function_to_active_unit
  insert_function-Walks unit fd g a =
      update_active-Walks unit (λ u. record u { unit_functions = add fd u.unit_functions }) g a

  children-Walks :
      (unit : ℕ) (rank : ℕ → ℕ) (track : ℕ → Action V F) (n : ℕ)
      → ((s : ℕ) (g : GlobalInfo V F)
          → rank s < n
          → g.active_unit ≡ some unit
          → Walks unit (track s g))
      → (cs : List ℕ) (g : GlobalInfo V F) → AllBelow rank n cs
      → g.active_unit ≡ some unit
      → Walks unit (track_children track cs g)
  unfolding track_children
  children-Walks unit rank track n h [] g b a = (g, refl, a)
  children-Walks unit rank track n h (c ∷ cs) g b a =
      bind-Walks unit (if c == 0 then ok g else track c g) (track_children track cs)
        (elim (Bool-cases (c == 0)) [
          | inl e ↦ rw e (g, refl, a)
          | inr e ↦ rw e (h c g (b.0 (ground arith)) a)
        ])
        (λ g' a'. children-Walks unit rank track n h cs g' b.1 a')

  call-Walks :
      (unit : ℕ) (ast : Ast) (is_skip : ℕ → Bool) (rank : ℕ → ℕ) (track : ℕ → Action V F) (s : ℕ)
      (g : GlobalInfo V F)
      → IsRanked ast rank
      → same_kind (ast.kind s) call_expr ≡ true
      → ((s' : ℕ) (g' : GlobalInfo V F)
          → rank s' < rank s
          → g'.active_unit ≡ some unit
          → Walks unit (track s' g'))
      → g.active_unit ≡ some unit
      → Walks unit (track_call ast is_skip track s g)
  unfolding track_call is_tracked
  call-Walks unit ast is_skip rank track s g ranked call h a =
      let fd = ast.direct_callee s in
      let known : (fd == 0) ≡ false = ground (arith, ranked.callee_known s call) in
      rw known (elim (Bool-cases (ast.has_body fd)) [
        | inr none ↦ rw none (g, refl, a)
        | inl has ↦ rw has (elim (Bool-cases (is_skip fd)) [
          | inl skips ↦ rw skips (g, refl, a)
          | inr tracked ↦ rw tracked (
              bind-Walks unit (track (ast.body fd) g) _
                (h (ast.body fd) g (ranked.body_below s call has) a)
                (λ g1 a1.
                  bind-Walks unit (insert_function_to_active_unit fd g1) _
                    (insert_function-Walks unit fd g1 a1)
                    (λ g2 a2.
                      children-Walks unit rank track (rank s) h (ast.children s) g2
                        (ranked.children_below s) a2)))
        ])
      ])

module _ {ℓ κ} {V : Type ℓ} {F : Type κ} (ast : Ast) (is_skip : ℕ → Bool)
    (visit : ℕ → Action V F) where
  -- With fuel above the rank of a statement its walk ends, without a fault.
  pub track_stmt-Walks :
      (unit : ℕ) (rank : ℕ → ℕ)
      → IsRanked ast rank
      → ((s : ℕ) (g : GlobalInfo V F) → g.active_unit ≡ some unit → Walks unit (visit s g))
      → (fuel s : ℕ) (g : GlobalInfo V F) → rank s < fuel
      → g.active_unit ≡ some unit
      → Walks unit (track_stmt ast is_skip visit fuel s g)
  unfolding track_stmt
  track_stmt-Walks unit rank ranked visits zero s g lt a = absurd (omega arith)
  track_stmt-Walks unit rank ranked visits (suc fuel) s g lt a =
      let ih =
        λ (s' : ℕ) (g' : GlobalInfo V F) (l : rank s' < rank s) (a' : g'.active_unit ≡ some unit).
          track_stmt-Walks unit rank ranked visits fuel s' g' (omega arith) a' in
      elim (Bool-cases (same_kind (ast.kind s) call_expr)) [
        | inl call ↦ rw call (
            call-Walks unit ast is_skip rank (track_stmt ast is_skip visit fuel) s g ranked call ih
              a)
        | inr no_call ↦ rw no_call (
            bind-Walks unit (visit s g) _ (visits s g a) (λ g' a'.
              children-Walks unit rank (track_stmt ast is_skip visit fuel) (rank s) ih
                (ast.children s) g' (ranked.children_below s) a'))
      ]

  -- A function whose body begins with a call of itself: the walk of that call never ends.
  pub track_stmt-recursive :
      (s : ℕ) (cs : List ℕ)
      → same_kind (ast.kind s) call_expr ≡ true
      → (ast.direct_callee s == 0) ≡ false
      → ast.has_body (ast.direct_callee s) ≡ true
      → is_skip (ast.direct_callee s) ≡ false
      → same_kind (ast.kind (ast.body (ast.direct_callee s))) call_expr ≡ false
      → ast.children (ast.body (ast.direct_callee s)) ≡ s ∷ cs
      → (s == 0) ≡ false
      → ((g : GlobalInfo V F) → visit (ast.body (ast.direct_callee s)) g ≡ ok g)
      → (fuel : ℕ) (g : GlobalInfo V F) → track_stmt ast is_skip visit fuel s g ≡ err out_of_fuel
  unfolding track_stmt track_call is_tracked track_children
  track_stmt-recursive s cs call known has tracked block first nz quiet zero g = refl
  track_stmt-recursive s cs call known has tracked block first nz quiet (suc zero) g =
      rw (call, known, has, tracked) refl
  track_stmt-recursive s cs call known has tracked block first nz quiet (suc (suc fuel)) g =
      rw (call, known, has, tracked, block, quiet g, first, nz)
        (rw (track_stmt-recursive s cs call known has tracked block first nz quiet fuel g) refl)
