-- ===== src/Walk/Tracked.antt =====
-- include/main_util/MainWalker.h: the variables that fillTrackMap tracks.
use nvmordering.Base.{
  ℕ, false, not, Option, none, some, [], ◌∷◌, ◌++◌, PtrSet, lookup, get, has_key, lookup-insert, ok,
  fold_result, ◌≡◌, ◌≢◌, inl, inr, refl, arith, ==-refl,
}
use nvmordering.Pair.Variables.{PairInfo}
use nvmordering.Walk.Tree.{ChildOf}
use nvmordering.Walk.Main.{
  MainVars, TrackFlags, get_pair_list, add_track_var, pair_flags, no_flags, track_var, insert_new,
}

abbrev pub flags_of : PairInfo → TrackFlags
flags_of info = record { is_dcl = not info.is_scl; is_scl = info.is_scl }

pub some_of : {A : Type 0} (o : Option A) → o ≢ none → (a : A) × (o ≡ some a)
some_of none h = absurd (h refl)
some_of (some a) h = (a, refl)

pub pair_flags_lem :
    (vs : MainVars) (p : ℕ) (info : PairInfo) (flags : TrackFlags)
    → lookup p vs.pair_infos ≡ some info
    → pair_flags vs p flags ≡ ok (flags_of info)
unfolding pair_flags
pair_flags_lem vs p info flags e = ground arith

-- The loop over the pairs of a variable keeps the flags of the last one only.
pair_flags_last :
    (vs : MainVars) (ps : PtrSet) (p : ℕ) (info : PairInfo) (flags : TrackFlags)
    → ((q : ℕ) → ChildOf q ps → lookup q vs.pair_infos ≢ none)
    → lookup p vs.pair_infos ≡ some info
    → fold_result (pair_flags vs) (ps ++ p ∷ []) flags ≡ ok (flags_of info)
unfolding fold_result
pair_flags_last vs [] p info flags valid e = rw (pair_flags_lem vs p info flags e) refl
pair_flags_last vs (q ∷ ps) p info flags valid e =
    let (i, f) = some_of (lookup q vs.pair_infos) (valid q (inl refl)) in
    rw (pair_flags_lem vs q i flags f)
      (pair_flags_last vs ps p info (flags_of i) (λ x m. valid x (inr m)) e)

-- A used variable whose pairs all stand in memory, and which the function does not track already: it
-- is tracked with the flags of its last pair, whatever the others are. So it is tracked as a variable
-- of one kind also where it has pairs in one line and pairs across two.
pub track_var-last :
    (vs : MainVars) (fd nd : ℕ) (ps : PtrSet) (p : ℕ) (info : PairInfo)
    → get_pair_list nd vs ≡ ok (ps ++ p ∷ [])
    → ((q : ℕ) → ChildOf q ps → lookup q vs.pair_infos ≢ none)
    → lookup p vs.pair_infos ≡ some info
    → has_key nd (get [] fd vs.track_map) ≡ false
    → (vs' : MainVars) × (track_var fd nd vs ≡ ok vs')
      × (lookup nd (get [] fd vs'.track_map) ≡ some (flags_of info))
unfolding track_var
track_var-last vs fd nd ps p info pairs valid last new = (
  add_track_var fd nd (flags_of info) vs,
  ground (arith, pair_flags_last vs ps p info no_flags valid last),
  ground (
    arith,
    lookup-insert fd fd (insert_new nd (flags_of info) (get [] fd vs.track_map)) vs.track_map,
    lookup-insert nd nd (flags_of info) (get [] fd vs.track_map),
    ==-refl nd,
    ==-refl fd,
    new,
  ),
)
