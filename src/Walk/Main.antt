-- ===== src/Walk/Main.antt =====
-- include/main_util/MainVars.h and MainWalker.h: the pairs and the tracked variables of a translation
-- unit. A `PairInfo*` is an address, as in the pair checker, of which the walker has the parsing of
-- annotations in common. The set of functions is a class of the missing header identify/MainFncs.h.
use Prim.Native.String.{String}
use nvmordering.Base.{
  ℕ, suc, Bool, false, not, ◌==◌, if◌then◌else◌, none, some, List, [], Map, PtrSet, lookup, insert,
  get, has_key, add, Result, ok, err, assert_failed, null_deref, guard, ◌>>=◌, ◌>>◌, fold_result,
  insert_str,
}
use nvmordering.Clang.{
  Ast, Visit, function_decl, field_decl, record_decl, member_visit, assignment_visit,
}
use nvmordering.AutoCl.{Layout, Records}
use nvmordering.Symbolic.Decls.{Decls, stmt, get_func_decl_around}
use nvmordering.Pair.Variables.{PairInfo, new_pair_info}
use nvmordering.Pair.GlobalParser.{PairStrInfo, add_pairs, get_nd_from_str, uses_scl}
use nvmordering.Walk.NamedDecls.{get_nds}

-- TrackVar without its key: TrackSet is ordered by the declaration alone.
pub record TrackFlags : Type 0 where
  pub is_dcl : Bool
  pub is_scl : Bool

-- `pair_infos` is the memory where the pairs stand.
pub record MainVars : Type 0 where
  pub used_vars : Map PtrSet
  pub track_map : Map (Map TrackFlags)
  pub pair_infos : Map PairInfo
  pub next_pair_info : ℕ

abbrev pub new_main_vars : MainVars
new_main_vars = record { used_vars = []; track_map = []; pair_infos = []; next_pair_info = 1 }

unfoldable pub get_pair_list : ℕ → MainVars → Result PtrSet
unfolding has_key get
get_pair_list nd vs = do guard (has_key nd vs.used_vars) assert_failed; ok (get [] nd vs.used_vars)

unfoldable pub get_track_set : ℕ → MainVars → Result (Map TrackFlags)
unfolding has_key get
get_track_set fd vs = do guard (has_key fd vs.track_map) assert_failed; ok (get [] fd vs.track_map)

unfoldable pub is_used_var : ℕ → MainVars → Bool
unfolding has_key
is_used_var nd vs = has_key nd vs.used_vars

-- addUsedVar(ND, PI), at the address of the pair
unfoldable pub add_used_var : ℕ → ℕ → MainVars → MainVars
unfolding insert get add
add_used_var nd pi vs = record vs {
  used_vars = insert nd (add pi (get [] nd vs.used_vars)) vs.used_vars;
}

-- `insert` of a set keeps an element that is there.
unfoldable pub insert_new : ℕ → TrackFlags → Map TrackFlags → Map TrackFlags
unfolding has_key insert
insert_new nd flags m = if has_key nd m then m else insert nd flags m

unfoldable pub add_track_var : ℕ → ℕ → TrackFlags → MainVars → MainVars
unfolding insert get insert_new
add_track_var fd nd flags vs = record vs {
  track_map = insert fd (insert_new nd flags (get [] fd vs.track_map)) vs.track_map;
}

pub record MainFncs (Fnc : Type 0) : Type 0 where
  pub functions : Fnc → List ℕ  -- from begin to end
  pub insert_if_known : ℕ → Fnc → Fnc
  pub insert_analyze : ℕ → Fnc → Fnc
  pub remove_skip_from_analyze : Fnc → Fnc

pub record MainWalker (Fnc : Type 0) : Type 0 where
  pub main_vars : MainVars
  pub main_fncs : Fnc
  pub psi_list : List PairStrInfo
  pub str_to_nd : List (String × ℕ)
  pub auto_cl : Records
  pub member_exprs : PtrSet

-- One pair of fillTrackMap's loop: the flags before it are overwritten.
unfoldable pub pair_flags : MainVars → ℕ → TrackFlags → Result TrackFlags
unfolding lookup
pair_flags vs pi flags = elim (lookup pi vs.pair_infos) [
  | none ↦ err null_deref
  | some info ↦ ok (record { is_dcl = not info.is_scl; is_scl = info.is_scl })
]

abbrev pub no_flags : TrackFlags
no_flags = record { is_dcl = false; is_scl = false }

-- One variable that a function names.
unfoldable pub track_var : ℕ → ℕ → MainVars → Result MainVars
unfolding is_used_var get_pair_list pair_flags fold_result add_track_var
track_var fd nd vs = if not (is_used_var nd vs) then ok vs else (do
  pairs ← get_pair_list nd vs
  flags ← fold_result (pair_flags vs) pairs no_flags
  ok (add_track_var fd nd flags vs))

-- One function of fillTrackMap.
unfoldable pub track_function : Ast → ℕ → ℕ → MainVars → Result MainVars
unfolding get_nds track_var fold_result
track_function ast fuel fd vs = do nds ← get_nds ast fuel fd; fold_result (track_var fd) nds.vars vs

module _ {Fnc : Type 0} (fncs : MainFncs Fnc) where
  unfoldable pub fill_track_map : Ast → ℕ → MainWalker Fnc → Result (MainWalker Fnc)
  unfolding track_function fold_result
  fill_track_map ast fuel w = do
    vs ← fold_result (track_function ast fuel) (fncs.functions w.main_fncs) w.main_vars
    ok (record w { main_vars = vs })

  -- addAnnotated: the name, and the pairs of the annotations
  unfoldable pub add_annotated : Ast → ℕ → MainWalker Fnc → Result (MainWalker Fnc)
  unfolding add_pairs insert_str
  add_annotated ast nd w = do
    let data_name = ast.qualified_name nd
    psi ← add_pairs ast data_name (ast.annotations nd) w.psi_list
    ok (record w { psi_list = psi; str_to_nd = insert_str data_name nd w.str_to_nd })

  -- One round of fillMainVars.
  unfoldable pub fill_pair : Layout → PairStrInfo → MainWalker Fnc → Result (MainWalker Fnc)
  unfolding get_nd_from_str uses_scl new_pair_info add_used_var insert
  fill_pair l psi w = do
    data_nd ← get_nd_from_str psi.data_name w.str_to_nd
    check_nd ← get_nd_from_str psi.check_name w.str_to_nd
    (is_scl, auto_cl) ← uses_scl l data_nd check_nd psi.cl_type w.auto_cl
    info ← new_pair_info data_nd check_nd is_scl
    let pi = w.main_vars.next_pair_info
    let vs : MainVars = record (w.main_vars) {
      pair_infos = insert pi info w.main_vars.pair_infos;
      next_pair_info = suc pi;
    }
    ok (record w {
      auto_cl = auto_cl;
      main_vars = add_used_var check_nd pi (add_used_var data_nd pi vs);
    })

  unfoldable pub fill_main_vars : Layout → MainWalker Fnc → Result (MainWalker Fnc)
  unfolding fill_pair fold_result
  fill_main_vars l w = fold_result (fill_pair l) w.psi_list w

  -- One member expression of autoFindFunctions.
  unfoldable pub find_function : Ast → Decls → ℕ → ℕ → MainWalker Fnc → Result (MainWalker Fnc)
  unfolding is_used_var get_func_decl_around
  find_function ast decls fuel me w =
      if not (is_used_var (ast.member_decl me) w.main_vars) then ok w else (do
        fd ← get_func_decl_around decls fuel (stmt me)
        ok (if fd == 0 then w else record w { main_fncs = fncs.insert_analyze fd w.main_fncs }))

  unfoldable pub auto_find_functions : Ast → Decls → ℕ → MainWalker Fnc → Result (MainWalker Fnc)
  unfolding find_function fold_result
  auto_find_functions ast decls fuel w = do
    w' ← fold_result (find_function ast decls fuel) w.member_exprs w
    ok (record w' { main_fncs = fncs.remove_skip_from_analyze w'.main_fncs })

  unfoldable pub finalize : Ast → Decls → Layout → ℕ → MainWalker Fnc → Result (MainWalker Fnc)
  unfolding fill_main_vars auto_find_functions fill_track_map
  finalize ast decls l fuel w = do
    w1 ← fill_main_vars l w
    w2 ← auto_find_functions ast decls fuel w1
    fill_track_map ast fuel w2

  -- The four Visit functions.
  unfoldable pub visit_main : Ast → Visit → MainWalker Fnc → Result (MainWalker Fnc)
  unfolding add_annotated add
  visit_main ast (function_decl fd) w =
      ok (record w { main_fncs = fncs.insert_if_known fd w.main_fncs })
  visit_main ast (field_decl fd) w = add_annotated ast fd w
  visit_main ast (record_decl rd) w = add_annotated ast rd w
  visit_main ast (member_visit me) w = ok (record w { member_exprs = add me w.member_exprs })
  visit_main ast (assignment_visit s) w = ok w
