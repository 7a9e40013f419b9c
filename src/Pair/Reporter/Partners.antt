-- ===== src/Pair/Reporter/Partners.antt =====
-- The set that `getPairSet` of PairBugReporter.h computes, against the pairs of the program.
use nvmordering.Base.{
  ℕ, Bool, true, false, ◌&&◌, ◌||◌, ◌==◌, ==_iff, if◌then◌else◌, ◌≡◌, ◌≢◌, ◌⊎◌, refl, Result, ok,
  fold_result, List, [], ◌∷◌, Map, get, get-insert, insert, some, PtrSet, member, member-add, add,
  arith,
}
use nvmordering.Globals.Units.{is_used_var_unit, active, empty_unit}
use nvmordering.Pair.Variables.{
  PairInfo, load_pair_info, get_pair_nd, get_pair_info_set, is_used_var, PairVariables,
}
use nvmordering.Pair.Variables.Links.{PairsResolve, IsLinked}
use nvmordering.Pair.StmtParser.{Globals}
use nvmordering.Pair.Reporter.{Reporter, add_pair, get_pair_set}

-- What the reporter needs of the globals: a unit is active, and the tables of pairs are linked.
pub record IsCollected (g : Globals) : Type 0 where
  pub unit : ℕ
  pub is_active : g.active_unit ≡ some unit
  pub linked : IsLinked g.variables

-- The other end of a pair, and whether `y` is one among a set of pairs.
abbrev pub other_end : PairInfo → ℕ → ℕ
other_end info nd = if nd == info.data_nd then info.check_nd else info.data_nd

abbrev pub end_at : Result PairInfo → ℕ → ℕ
end_at (ok info) nd = other_end info nd
end_at (Result.err _) nd = 0

unfoldable pub is_end : PairVariables → ℕ → ℕ → List ℕ → Bool
is_end vs nd y [] = false
is_end vs nd y (pi ∷ pis) = end_at (load_pair_info vs pi) nd == y || is_end vs nd y pis

-- Whether `y` is a variable of the active unit.
unfoldable pub in_unit : Globals → ℕ → ℕ → Bool
in_unit g fd y = member y (get empty_unit fd g.function_unit_map).unit_variables

-- `y` is in a pair with `x`, and the unit uses it.
unfoldable pub is_partner : Globals → ℕ → ℕ → ℕ → Bool
is_partner g fd x y = in_unit g fd y && is_end g.variables x y (get [] x g.variables.pair_info_map)

module _ (g : Globals) (fd : ℕ) (is_active : g.active_unit ≡ some fd) where
  used_unit : (y : ℕ) → y ≢ 0 → is_used_var_unit g y ≡ ok (in_unit g fd y)
  unfolding is_used_var_unit active in_unit
  used_unit y nz = ground arith

  add_pair_lem :
      (nd pi : ℕ) (pair_set : PtrSet) (info : PairInfo)
      → load_pair_info g.variables pi ≡ ok info
      → (nd ≡ info.data_nd) ⊎ (nd ≡ info.check_nd)
      → info.data_nd ≢ 0
      → info.check_nd ≢ 0
      → add_pair g nd pi pair_set
        ≡ ok (
            if in_unit g fd (other_end info nd) then add (other_end info nd) pair_set else pair_set)
  unfolding add_pair get_pair_nd
  add_pair_lem nd pi pair_set info e m d c = rw e (ground (arith, used_unit (other_end info nd)))

  -- The loop over the pairs: it ends without a fault, and adds the other ends in the unit.
  add_pairs_lem :
      (nd : ℕ) (pis : List ℕ) (pair_set : PtrSet)
      → PairsResolve g.variables nd pis
      → (out : PtrSet) × (fold_result (add_pair g nd) pis pair_set ≡ ok out)
        × ((y : ℕ)
            → member y out ≡ (member y pair_set || (in_unit g fd y && is_end g.variables nd y pis)))
  unfolding fold_result is_end
  add_pairs_lem nd [] pair_set h = (pair_set, refl, λ y. ground arith)
  add_pairs_lem nd (pi ∷ pis) pair_set ((info, e, m, d, c), h) =
      let y0 = other_end info nd in
      let next = if in_unit g fd y0 then add y0 pair_set else pair_set in
      let (out, runs, law) = add_pairs_lem nd pis next h in
      (
        out,
        rw (add_pair_lem nd pi pair_set info e m d c) runs,
        λ y. rw e (ground (arith, law y, member-add y y0 pair_set, ==_iff y0 y)),
      )

-- The cached sets hold partners only.
abbrev pub IsCached : Globals → ℕ → Map PtrSet → Type 0
IsCached g fd cache = (nd y : ℕ) → member y (get [] nd cache) ≡ true → is_partner g fd nd y ≡ true

module _ (g : Globals) (c : IsCollected g) where
  -- `getPairSet` gives the partners of a used variable, and keeps only partners.
  pub get_pair_set_lem :
      (nd : ℕ) (r : Reporter)
      → is_used_var g.variables nd ≡ true
      → IsCached g c.unit r.var_to_pair
      → (out : PtrSet) × (get_pair_set g nd r
          ≡ ok (out, record r { var_to_pair = insert nd out r.var_to_pair }))
        × ((y : ℕ) → member y out ≡ is_partner g c.unit nd y)
        × IsCached g c.unit (insert nd out r.var_to_pair)
  unfolding get_pair_set get_pair_info_set is_partner
  get_pair_set_lem nd r used cached =
      let pis = get [] nd g.variables.pair_info_map in
      let old = get [] nd r.var_to_pair in
      let (out, runs, law) = add_pairs_lem g c.unit c.is_active nd pis old (c.linked.resolved nd) in
      let exact : (y : ℕ) → member y out ≡ is_partner g c.unit nd y =
        λ y. ground (arith, law y, cached nd y) in
      (
        out,
        rw (c.linked.listed nd used) (rw runs refl),
        exact,
        λ nd' y h.
            ground
              (arith, exact y, cached nd' y, ==_iff nd nd', get-insert [] nd' nd out r.var_to_pair),
      )
