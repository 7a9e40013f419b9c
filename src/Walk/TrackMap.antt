-- ===== src/Walk/TrackMap.antt =====
-- include/main_util/MainWalker.h: fillTrackMap tracks in each function the used variables that the
-- function reaches.
use nvmordering.Base.{
  ℕ, ◌<◌, Bool, true, ◌&&◌, ◌||◌, ◌==◌, none, List, [], ◌∷◌, Map, PtrSet, lookup, insert, get,
  has_key, member, get-insert, has_key-insert, ok, fold_result, ◌≡◌, ◌≢◌, refl, arith, ap, ==-refl,
  ==_iff, Bool-cases, inl, inr,
}
use nvmordering.Pair.Variables.{PairInfo}
use nvmordering.Walk.Main.{
  MainVars, TrackFlags, pair_flags, track_function, no_flags, track_var, insert_new, get_pair_list,
  add_track_var, is_used_var,
}
use nvmordering.Clang.{Ast}
use nvmordering.Walk.Reached.{IsAcyclic}
use nvmordering.Walk.Collected.{get_nds-Reaches}
use nvmordering.Walk.Tracked.{flags_of, some_of, pair_flags_lem}

-- Every pair of a variable stands in memory.
abbrev pub IsResolved : Map PtrSet → Map PairInfo → Type 0
IsResolved used infos = (nd p : ℕ) → member p (get [] nd used) ≡ true → lookup p infos ≢ none

-- A function tracks a variable.
abbrev pub is_tracked_in : ℕ → ℕ → Map (Map TrackFlags) → Bool
is_tracked_in fd nd m = has_key nd (get [] fd m)

has_key-insert_new :
    (x nd : ℕ) (flags : TrackFlags) (m : Map TrackFlags)
    → has_key x (insert_new nd flags m) ≡ ((nd == x) || has_key x m)
unfolding insert_new
has_key-insert_new x nd flags m = elim (Bool-cases (has_key nd m)) [
  | inl e ↦ ground (arith, e, ==_iff nd x)
  | inr e ↦ ground (arith, e, has_key-insert x nd flags m)
]

module _ (vs : MainVars) (resolved : IsResolved vs.used_vars vs.pair_infos) where
  flags_end :
      (ps : PtrSet) (flags : TrackFlags)
      → ((q : ℕ) → member q ps ≡ true → lookup q vs.pair_infos ≢ none)
      → (out : TrackFlags) × (fold_result (pair_flags vs) ps flags ≡ ok out)
  unfolding fold_result member
  flags_end [] flags valid = (flags, refl)
  flags_end (q ∷ ps) flags valid =
      let (i, f) = some_of (lookup q vs.pair_infos) (valid q (ground (arith, ==-refl q))) in
      let (out, e) = flags_end ps (flags_of i) (λ x m. valid x (ground arith)) in
      (out, rw (pair_flags_lem vs q i flags f) e)

  -- The state with other tracked variables.
  abbrev at : Map (Map TrackFlags) → MainVars
  at m = record vs { track_map = m }

  -- One variable of a function.
  track_var-tracks :
      (fd nd : ℕ) (m : Map (Map TrackFlags))
      → (m' : Map (Map TrackFlags)) × (track_var fd nd (at m) ≡ ok (at m'))
        × ((g x : ℕ)
            → is_tracked_in g x m'
              ≡ (is_tracked_in g x m || ((fd == g) && ((nd == x) && has_key x vs.used_vars))))
  unfolding track_var is_used_var get_pair_list add_track_var
  track_var-tracks fd nd m = elim (Bool-cases (has_key nd vs.used_vars)) [
    | inl used ↦
        let (flags, e) = flags_end (get [] nd vs.used_vars) no_flags (resolved nd) in
        (
          insert fd (insert_new nd flags (get [] fd m)) m,
          rw (used, e) refl,
          λ g x. ground (
            arith,
            used,
            get-insert [] g fd (insert_new nd flags (get [] fd m)) m,
            has_key-insert_new x nd flags (get [] fd m),
            ==_iff nd x,
            ==_iff fd g,
          ),
        )
    | inr unused ↦ (m, rw unused refl, λ g x. ground (arith, unused, ==_iff nd x))
  ]

  -- The variables of one function.
  track_vars-tracks :
      (fd : ℕ) (nds : PtrSet) (m : Map (Map TrackFlags))
      → (m' : Map (Map TrackFlags)) × (fold_result (track_var fd) nds (at m) ≡ ok (at m'))
        × ((g x : ℕ)
            → is_tracked_in g x m'
              ≡ (is_tracked_in g x m || ((fd == g) && (member x nds && has_key x vs.used_vars))))
  unfolding fold_result member
  track_vars-tracks fd [] m = (m, refl, λ g x. ground arith)
  track_vars-tracks fd (nd ∷ nds) m =
      let (m1, e1, t1) = track_var-tracks fd nd m in
      let (m2, e2, t2) = track_vars-tracks fd nds m1 in
      (m2, rw e1 e2, λ g x. ground (arith, t1 g x, t2 g x))

  module _ (ast : Ast) (rank : ℕ → ℕ) (acyclic : IsAcyclic ast rank) (fuel : ℕ)
      (enough : (fd : ℕ) → rank (ast.body fd) < fuel) where
    -- The members that a function names.
    abbrev named_by : ℕ → PtrSet
    named_by fd = (get_nds-Reaches ast rank acyclic fuel fd (enough fd)).0.vars

    pub track_functions-tracks :
        (fds : List ℕ) (m : Map (Map TrackFlags))
        → (m' : Map (Map TrackFlags)) × (fold_result (track_function ast fuel) fds (at m)
            ≡ ok (at m'))
          × ((g x : ℕ)
              → is_tracked_in g x m' ≡ (
                  is_tracked_in g x m
                  || (member g fds && (member x (named_by g) && has_key x vs.used_vars))))
    unfolding fold_result member track_function
    track_functions-tracks [] m = (m, refl, λ g x. ground arith)
    track_functions-tracks (fd ∷ fds) m =
        let (w, e, _, _) = get_nds-Reaches ast rank acyclic fuel fd (enough fd) in
        let (m1, e1, t1) = track_vars-tracks fd w.vars m in
        let (m2, e2, t2) = track_functions-tracks fds m1 in
        (m2, rw (e, e1) e2, λ g x. ground (arith, t1 g x, t2 g x, ap named_by, ==_iff fd g))
