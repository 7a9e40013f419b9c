-- ===== src/Pair/Reporter/Checks.antt =====
-- What `checkBug` of PairBugReporter.h reports.
use nvmordering.Base.{
  ℕ, Bool, true, false, ◌&&◌, ◌||◌, not, ◌==◌, ==_iff, if◌then◌else◌, ◌≡◌, refl, ◌∙◌, ok,
  fold_result, List, [], ◌∷◌, ◌++◌, Map, get, insert, has_key, touch, get-touch, member, Bool-cases,
  inl, inr, arith, subst, sym,
}
use nvmordering.Pair.Lattice.{default_lattice, is_write_flush}
use nvmordering.Pair.Variables.{is_used_var}
use nvmordering.Pair.StmtParser.{Globals}
use nvmordering.Pair.Reporter.{
  BugData, Reporter, AbstractState, add_as_bug, check_pair, check_bug, update_last_location,
  update_and_check,
}
use nvmordering.Pair.Reporter.Partners.{IsCollected, IsCached, is_partner, get_pair_set_lem}

-- Whether two entries of the list of bugs are the same.
abbrev pub same_bug : BugData → BugData → Bool
same_bug a b =
    a.bug_stmt == b.bug_stmt
    && (a.pair_stmt == b.pair_stmt && (a.current_var == b.current_var && a.pair_var == b.pair_var))

unfoldable pub reported : BugData → List BugData → Bool
reported b [] = false
reported b (a ∷ bugs) = same_bug a b || reported b bugs

reported-append :
    (b : BugData) (bugs cs : List BugData)
    → reported b (bugs ++ cs) ≡ (reported b bugs || reported b cs)
unfolding reported
reported-append b [] cs = refl
reported-append b (a ∷ bugs) cs = ground (arith, reported-append b bugs cs)

-- A variable that is not committed.
unfoldable pub uncommitted : AbstractState → ℕ → Bool
uncommitted state y = is_write_flush (get default_lattice y state)

-- Each variable that is not committed has a last location.
abbrev pub IsLocated : AbstractState → Map ℕ → Type 0
IsLocated state locations = (y : ℕ) → uncommitted state y ≡ true → has_key y locations ≡ true

-- The report that a write of `x` at `s` has to make of `y`.
abbrev pub bug_of : ℕ → ℕ → ℕ → Map ℕ → BugData
bug_of s x y locations = record {
  bug_stmt = s;
  pair_stmt = get 0 y locations;
  current_var = x;
  pair_var = y;
}

-- What a check leaves alone: the values, the locations and the cache.
pub record IsCheck (state : AbstractState) (r : Reporter) (out : AbstractState × Reporter)
    : Type 0 where
  pub values : (j : ℕ) → get default_lattice j out.0 ≡ get default_lattice j state
  pub locations : out.1.last_location_map ≡ r.last_location_map
  pub cache : out.1.var_to_pair ≡ r.var_to_pair

module _ (g : Globals) (x s : ℕ) where
  check_pair_lem :
      (y : ℕ) (state : AbstractState) (r : Reporter)
      → IsLocated state r.last_location_map
      → check_pair g x s y (state, r)
        ≡ ok (
          touch default_lattice y state,
          if uncommitted state y then add_as_bug s (get 0 y r.last_location_map) x y r else r,
        )
  unfolding check_pair uncommitted
  check_pair_lem y state r h = ground (arith, h y)

  check_pairs_lem :
      (ys : List ℕ) (state : AbstractState) (r : Reporter)
      → IsLocated state r.last_location_map
      → (out : AbstractState × Reporter) × (fold_result (check_pair g x s) ys (state, r) ≡ ok out)
        × IsCheck state r out
        × ((b : BugData)
            → reported b out.1.bug_data_list ≡ (
                reported b r.bug_data_list
                || (member b.pair_var ys
                    && (uncommitted state b.pair_var
                        && same_bug (bug_of s x b.pair_var r.last_location_map) b))))
  unfolding fold_result uncommitted add_as_bug reported member
  check_pairs_lem [] state r h = (
    (state, r),
    refl,
    record { values = λ j. refl; locations = refl; cache = refl },
    λ b. ground arith,
  )
  check_pairs_lem (y ∷ ys) state r h =
      let r' =
        if uncommitted state y then add_as_bug s (get 0 y r.last_location_map) x y r else r in
      let state' = touch default_lattice y state in
      let touched = λ (j : ℕ). get-touch default_lattice j y state in
      let (out, runs, kept, law) =
        check_pairs_lem ys state' r' (λ j u. ground (arith, touched j, h j)) in
      (
        out,
        rw (check_pair_lem y state r h) runs,
        record {
          values = λ j. kept.values j ∙ touched j;
          locations = kept.locations ∙ (ground arith);
          cache = kept.cache ∙ (ground arith);
        },
        λ b. ground (
          arith,
          law b,
          touched b.pair_var,
          ==_iff y b.pair_var,
          reported-append b r.bug_data_list (bug_of s x y r.last_location_map ∷ []),
        ),
      )

-- The reports that a check of `x` at `s` has to add.
unfoldable pub is_new_bug : (g : Globals) → ℕ → ℕ → ℕ → AbstractState → Reporter → BugData → Bool
is_new_bug g unit x s state r b =
    not (member x r.bugged_vars)
    && (is_partner g unit x b.pair_var
        && (uncommitted state b.pair_var && same_bug (bug_of s x b.pair_var r.last_location_map) b))

module _ (g : Globals) (c : IsCollected g) where
  -- `checkBug` ends without a fault; it reports each partner that is not committed, at the last
  -- location of that partner, and nothing else, and nothing of a variable that has been reported.
  pub check_bug_lem :
      (x s : ℕ) (state : AbstractState) (r : Reporter)
      → is_used_var g.variables x ≡ true
      → IsLocated state r.last_location_map
      → IsCached g c.unit r.var_to_pair
      → (out : AbstractState × Reporter) × (check_bug g x s (state, r) ≡ ok out)
        × ((j : ℕ) → get default_lattice j out.0 ≡ get default_lattice j state)
        × (out.1.last_location_map ≡ r.last_location_map)
        × IsCached g c.unit out.1.var_to_pair
        × ((b : BugData)
            → reported b out.1.bug_data_list
              ≡ (reported b r.bug_data_list || is_new_bug g c.unit x s state r b))
  unfolding check_bug is_new_bug
  check_bug_lem x s state r used located cached = elim (Bool-cases (member x r.bugged_vars)) [
    | inl old ↦ ((state, r), rw old refl, λ j. refl, refl, cached, λ b. rw old (ground arith))
    | inr new ↦
        let (pairs, gets, exact, cached') = get_pair_set_lem g c x r used cached in
        let r' = record r { var_to_pair = insert x pairs r.var_to_pair } in
        let (out, runs, kept, law) = check_pairs_lem g x s pairs state r' located in
        (
          out,
          rw new (rw gets runs),
          kept.values,
          kept.locations,
          subst (IsCached g c.unit) (sym kept.cache) cached',
          λ b. ground (arith, law b, exact b.pair_var),
        )
  ]

  -- The same for `updateLastLocation(var, S, state)`, which first makes `s` the last location of `x`.
  pub update_and_check_lem :
      (x s : ℕ) (state : AbstractState) (r : Reporter)
      → is_used_var g.variables x ≡ true
      → IsLocated state (insert x s r.last_location_map)
      → IsCached g c.unit r.var_to_pair
      → (out : AbstractState × Reporter) × (update_and_check g x s (state, r) ≡ ok out)
        × ((j : ℕ) → get default_lattice j out.0 ≡ get default_lattice j state)
        × (out.1.last_location_map ≡ insert x s r.last_location_map)
        × IsCached g c.unit out.1.var_to_pair
        × ((b : BugData)
            → reported b out.1.bug_data_list ≡ (
                reported b r.bug_data_list
                || is_new_bug g c.unit x s state (update_last_location x s r) b))
  unfolding update_and_check update_last_location
  update_and_check_lem x s state r used located cached =
      check_bug_lem x s state (update_last_location x s r) used located cached
