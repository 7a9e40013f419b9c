-- ===== src/Walk/MainTests.antt =====
-- include/main_util at small inputs: a variable with two pairs, and a translation unit with one pair of
-- the members of the sample program.
use nvmordering.Base.{
  ℕ, ◌<◌, true, false, List, [], ◌∷◌, ◌++◌, none, some, ok, lookup, get, has_key, add, false, ◌>>=◌,
  ◌≡◌, ◌≢◌, refl, arith, inl, inr, lookup_str,
}
use nvmordering.Pair.Variables.{PairInfo}
use nvmordering.Walk.Tree.{ChildOf}
use nvmordering.AutoCl.{Layout}
use nvmordering.Symbolic.Decls.{Decls, decl}
use nvmordering.Symbolic.Sample.{sample_decls}
use nvmordering.Pair.GlobalParser.{dcl}
use nvmordering.Walk.Sample.{call_program, call_rank, call-IsAcyclic}
use nvmordering.Walk.TrackMap.{is_tracked_in}
use nvmordering.Walk.Finalized.{IsUsedIn, finalize-IsUsedIn}
use nvmordering.Walk.Main.{
  MainFncs, MainWalker, new_main_vars, fill_main_vars, auto_find_functions, finalize, MainVars,
  track_var, get_pair_list,
}
use nvmordering.Walk.Tracked.{flags_of, track_var-last}

-- Two pairs of a field, the second one in one line.
abbrev two_pairs : MainVars
two_pairs = record {
  used_vars = (41, 1 ∷ 2 ∷ []) ∷ [];
  track_map = [];
  pair_infos =
      (1, record { data_nd = 41; check_nd = 42; is_scl = false })
      ∷ (2, record { data_nd = 41; check_nd = 43; is_scl = true })
      ∷ [];
  next_pair_info = 3;
}

abbrev last_pair : PairInfo
last_pair = record { data_nd = 41; check_nd = 43; is_scl = true }

its_pairs : get_pair_list 41 two_pairs ≡ ok ((1 ∷ []) ++ 2 ∷ [])
unfolding get_pair_list
its_pairs = refl

all_stand : (q : ℕ) → ChildOf q (1 ∷ []) → lookup q two_pairs.pair_infos ≢ none
unfolding lookup
all_stand q (inl e) h = ground arith
all_stand q (inr e) h = absurd e

last_stands : lookup 2 two_pairs.pair_infos ≡ some last_pair
unfolding lookup
last_stands = refl

not_tracked : has_key 41 (get [] 50 two_pairs.track_map) ≡ false
unfolding has_key get
not_tracked = refl

track_var-last_example :
    (vs' : MainVars) × (track_var 50 41 two_pairs ≡ ok vs')
    × (lookup 41 (get [] 50 vs'.track_map) ≡ some (flags_of last_pair))
track_var-last_example =
    track_var-last two_pairs 50 41 (1 ∷ []) 2 last_pair its_pairs all_stand last_stands not_tracked

-- Its functions are a list, of which 50 is known and none is to be skipped.
abbrev list_fncs : MainFncs (List ℕ)
list_fncs = record {
  functions = λ fs. fs;
  insert_if_known = λ f fs. fs;
  insert_analyze = λ f fs. add f fs;
  remove_skip_from_analyze = λ fs. fs;
}

-- What the visits have read: one pair of the members, and the member expression 61.
abbrev visited : MainWalker (List ℕ)
visited = record {
  main_vars = new_main_vars;
  main_fncs = [];
  psi_list = record { data_name = "a"; check_name = "b"; cl_type = dcl } ∷ [];
  str_to_nd = ("a", 41) ∷ ("b", 42) ∷ [];
  auto_cl = [];
  member_exprs = 61 ∷ [];
}

abbrev no_layout : Layout
no_layout = record {
  is_field_or_obj = λ f. false;
  record_of = λ f. 0;
  is_aligned = λ f. false;
  fields_of = λ f. [];
}

abbrev around_decls : Decls
around_decls = record sample_decls { parents = λ s. decl 50 ∷ [] }

abbrev one_pair : MainWalker (List ℕ)
one_pair = record visited {
  main_vars = record {
    used_vars = (41, 1 ∷ []) ∷ (42, 1 ∷ []) ∷ [];
    track_map = [];
    pair_infos = (1, record { data_nd = 41; check_nd = 42; is_scl = false }) ∷ [];
    next_pair_info = 2;
  };
  main_fncs = 50 ∷ [];
}

one_pair_filled :
    (fill_main_vars list_fncs no_layout visited
      >>= auto_find_functions list_fncs call_program around_decls 4)
    ≡ ok one_pair
unfolding fill_main_vars auto_find_functions lookup_str
one_pair_filled = refl

bodies_small : (fd : ℕ) → call_rank (call_program.body fd) < 4
bodies_small fd = ground arith

finalize-IsUsedIn_example :
    (w' : MainWalker (List ℕ)) × (finalize list_fncs call_program around_decls no_layout 4 visited
      ≡ ok w')
    × ((fd nd : ℕ)
        → is_tracked_in fd nd w'.main_vars.track_map ≡ true
        → IsUsedIn list_fncs call_program one_pair fd nd)
    × ((fd nd : ℕ)
        → IsUsedIn list_fncs call_program one_pair fd nd
        → is_tracked_in fd nd w'.main_vars.track_map ≡ true)
finalize-IsUsedIn_example =
    finalize-IsUsedIn list_fncs call_program call_rank call-IsAcyclic 4 bodies_small around_decls
      no_layout visited one_pair refl one_pair_filled
