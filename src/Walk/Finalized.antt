-- ===== src/Walk/Finalized.antt =====
-- include/main_util/MainWalker.h: finalize, from the annotations that the visits have read to the
-- variables that each function tracks.
use nvmordering.Base.{
  ℕ, ◌<◌, Bool, true, false, ◌||◌, ◌&&◌, none, [], Map, PtrSet, lookup, insert, get, has_key,
  member, add, get-insert, lookup-insert, member-add, ok, ok-injective, >>=-eq-ok, ◌>>=◌,
  fold_result, fold_result-keeps, ◌≡◌, ◌≢◌, refl, arith, subst, ◌∙◌, sym, suc, ap, ==_iff,
}
use nvmordering.Clang.{Ast}
use nvmordering.AutoCl.{Layout}
use nvmordering.Symbolic.Decls.{Decls}
use nvmordering.Pair.Variables.{PairInfo, new_pair_info}
use nvmordering.Pair.GlobalParser.{PairStrInfo, get_nd_from_str, uses_scl}
use nvmordering.Walk.Reached.{Reaches, IsAcyclic}
use nvmordering.Walk.Collected.{get_nds-Reaches}
use nvmordering.Walk.Main.{
  MainVars, MainFncs, MainWalker, add_used_var, fill_pair, fill_main_vars, find_function,
  auto_find_functions, fill_track_map, finalize, is_used_var, new_main_vars,
}
use nvmordering.Walk.TrackMap.{IsResolved, is_tracked_in, track_functions-tracks}

-- Before fillTrackMap: the pairs of variables stand in memory, and nothing is tracked.
abbrev pub IsReady : MainVars → Type 0
IsReady vs = IsResolved vs.used_vars vs.pair_infos × (vs.track_map ≡ [])

new-IsReady : IsReady new_main_vars
unfolding member get
new-IsReady = (λ nd p m. cc, refl)

-- A new pair in memory, and a variable that has it.
insert-IsResolved :
    (pi : ℕ) (info : PairInfo) (used : Map PtrSet) (infos : Map PairInfo)
    → IsResolved used infos
    → IsResolved used (insert pi info infos)
insert-IsResolved pi info used infos h nd p m =
    ground (arith, lookup-insert p pi info infos, h nd p)

add-IsResolved :
    (nd pi : ℕ) (used : Map PtrSet) (infos : Map PairInfo)
    → IsResolved used infos
    → lookup pi infos ≢ none
    → IsResolved (insert nd (add pi (get [] nd used)) used) infos
add-IsResolved nd pi used infos h stands x p m = ground (
  arith,
  get-insert [] x nd (add pi (get [] nd used)) used,
  member-add p pi (get [] nd used),
  ==_iff pi p,
  ==_iff nd x,
  ap (λ q. lookup q infos),
  h nd p,
  h x p,
)

-- What one round of fillMainVars does to the variables.
add_pair-IsReady :
    (d c : ℕ) (info : PairInfo) (vs : MainVars)
    → IsReady vs
    → IsReady (
        add_used_var c vs.next_pair_info (
          add_used_var d vs.next_pair_info (record vs {
            pair_infos = insert vs.next_pair_info info vs.pair_infos;
            next_pair_info = suc vs.next_pair_info;
          })))
unfolding add_used_var
add_pair-IsReady d c info vs (h, t) =
    let pi = vs.next_pair_info in
    let infos : Map PairInfo = insert pi info vs.pair_infos in
    let used : Map PtrSet = insert d (add pi (get [] d vs.used_vars)) vs.used_vars in
    let stands : lookup pi infos ≢ none =
      λ e. ground (arith, lookup-insert pi pi info vs.pair_infos, ==_iff pi pi) in
    (
      add-IsResolved c pi used infos
          (add-IsResolved d pi vs.used_vars infos
            (insert-IsResolved pi info vs.used_vars vs.pair_infos h) stands)
          stands,
      t,
    )

nothing_tracked :
    (fd nd : ℕ) (vs : MainVars) → vs.track_map ≡ [] → is_tracked_in fd nd vs.track_map ≡ false
unfolding get has_key lookup
nothing_tracked fd nd vs t = rw t refl

all_three :
    (out start a b c : Bool)
    → out ≡ (start || (a && (b && c)))
    → start ≡ false
    → out ≡ true
    → (a ≡ true) × (b ≡ true) × (c ≡ true)
all_three out start a b c e f q = (ground arith, ground arith, ground arith)

module _ {Fnc : Type 0} (fncs : MainFncs Fnc) where
  fill_pair-keeps :
      (l : Layout) (psi : PairStrInfo) (w w' : MainWalker Fnc)
      → fill_pair fncs l psi w ≡ ok w'
      → IsReady w.main_vars
      → IsReady w'.main_vars
  unfolding fill_pair add_used_var
  fill_pair-keeps l psi w w' e (h, t) =
      let (d, _, e1) = >>=-eq-ok (get_nd_from_str psi.data_name w.str_to_nd) _ e in
      let (c, _, e2) = >>=-eq-ok (get_nd_from_str psi.check_name w.str_to_nd) _ e1 in
      let (used, _, e3) = >>=-eq-ok (uses_scl l d c psi.cl_type w.auto_cl) _ e2 in
      let (info, _, e4) = >>=-eq-ok (new_pair_info d c used.0) _ e3 in
      subst (λ (v : MainWalker Fnc). IsReady v.main_vars) (ok-injective e4)
        (add_pair-IsReady d c info w.main_vars (h, t))

  fill_main_vars-IsReady :
      (l : Layout) (w w' : MainWalker Fnc)
      → fill_main_vars fncs l w ≡ ok w'
      → IsReady w.main_vars
      → IsReady w'.main_vars
  unfolding fill_main_vars
  fill_main_vars-IsReady l w w' e h =
      fold_result-keeps (λ (v : MainWalker Fnc). IsReady v.main_vars) (fill_pair fncs l)
        (fill_pair-keeps l) w.psi_list w w' e h

  -- autoFindFunctions leaves the variables as they are.
  find_function-main_vars :
      (ast : Ast) (decls : Decls) (fuel me : ℕ) (w w' : MainWalker Fnc)
      → find_function fncs ast decls fuel me w ≡ ok w'
      → w'.main_vars ≡ w.main_vars
  unfolding find_function
  find_function-main_vars ast decls fuel me w w' e = ground arith

  auto_find_functions-main_vars :
      (ast : Ast) (decls : Decls) (fuel : ℕ) (w w' : MainWalker Fnc)
      → auto_find_functions fncs ast decls fuel w ≡ ok w'
      → w'.main_vars ≡ w.main_vars
  unfolding auto_find_functions
  auto_find_functions-main_vars ast decls fuel w w' e =
      let (v, e1, e2) = >>=-eq-ok (fold_result (find_function fncs ast decls fuel) _ w) _ e in
      ap (λ (u : MainWalker Fnc). u.main_vars) (sym (ok-injective e2))
      ∙ fold_result-keeps (λ (u : MainWalker Fnc). u.main_vars ≡ w.main_vars)
          (find_function fncs ast decls fuel)
          (λ me u u' f h. find_function-main_vars ast decls fuel me u u' f ∙ h) w.member_exprs w v
          e1 refl

  -- A variable that is used and that a function of the set reaches.
  abbrev pub IsUsedIn : Ast → MainWalker Fnc → ℕ → ℕ → Type 0
  IsUsedIn ast w fd nd =
      (member fd (fncs.functions w.main_fncs) ≡ true)
      × (is_used_var nd w.main_vars ≡ true)
      × (ast.has_body fd ≡ true)
      × Reaches ast (ast.body fd) nd

  module _ (ast : Ast) (rank : ℕ → ℕ) (acyclic : IsAcyclic ast rank) (fuel : ℕ)
      (enough : (fd : ℕ) → rank (ast.body fd) < fuel) where
    fill_track_map-IsUsedIn :
        (w : MainWalker Fnc)
        → IsReady w.main_vars
        → (w' : MainWalker Fnc) × (fill_track_map fncs ast fuel w ≡ ok w')
          × ((fd nd : ℕ) → is_tracked_in fd nd w'.main_vars.track_map ≡ true → IsUsedIn ast w fd nd)
          × ((fd nd : ℕ) → IsUsedIn ast w fd nd → is_tracked_in fd nd w'.main_vars.track_map ≡ true)
    unfolding fill_track_map is_used_var
    fill_track_map-IsUsedIn w (h, t) =
        let fds = fncs.functions w.main_fncs in
        let (m, e, tracks) =
          track_functions-tracks w.main_vars h ast rank acyclic fuel enough fds
            w.main_vars.track_map in
        (
          record w { main_vars = record (w.main_vars) { track_map = m } },
          rw e refl,
          λ fd nd q.
              let c = get_nds-Reaches ast rank acyclic fuel fd (enough fd) in
              let (i, n, u) =
                all_three (is_tracked_in fd nd m) (is_tracked_in fd nd w.main_vars.track_map)
                  (member fd fds) (member nd c.0.vars) (has_key nd w.main_vars.used_vars)
                  (tracks fd nd) (nothing_tracked fd nd w.main_vars t) q in
              let (b, r) = c.2 nd n in (i, u, b, r),
          λ fd nd (i, u, b, r).
              let c = get_nds-Reaches ast rank acyclic fuel fd (enough fd) in
              ground (arith, tracks fd nd, i, u, c.3 nd b r),
        )

    -- From a walker without variables, where children and the bodies of callees have smaller ranks,
    -- every call is direct, and the fuel is above the rank of every body: if fillMainVars and
    -- autoFindFunctions end without a fault, finalize does, and then a function tracks a variable
    -- exactly if it is one of the walker's functions and has a body that reaches the variable by a
    -- member expression, in it or in a function that it calls at any depth, and the variable has
    -- a pair.
    pub finalize-IsUsedIn :
        (decls : Decls) (l : Layout) (w w2 : MainWalker Fnc)
        → w.main_vars ≡ new_main_vars
        → (fill_main_vars fncs l w >>= auto_find_functions fncs ast decls fuel) ≡ ok w2
        → (w' : MainWalker Fnc) × (finalize fncs ast decls l fuel w ≡ ok w')
          × ((fd nd : ℕ)
              → is_tracked_in fd nd w'.main_vars.track_map ≡ true
              → IsUsedIn ast w2 fd nd)
          × ((fd nd : ℕ)
              → IsUsedIn ast w2 fd nd
              → is_tracked_in fd nd w'.main_vars.track_map ≡ true)
    unfolding finalize
    finalize-IsUsedIn decls l w w2 start e =
        let (w1, e1, e2) = >>=-eq-ok (fill_main_vars fncs l w) _ e in
        let ready = fill_main_vars-IsReady l w w1 e1 (subst IsReady (sym start) new-IsReady) in
        let same = auto_find_functions-main_vars ast decls fuel w1 w2 e2 in
        let (w', e3, down, up) = fill_track_map-IsUsedIn w2 (subst IsReady (sym same) ready) in
        (w', rw (e1, e2) e3, down, up)
