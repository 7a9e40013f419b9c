-- ===== src/Pair/Variables/Links.antt =====
-- What the collection of the pairs establishes: the tables of PairVariables.h fit together.
use nvmordering.Base.{
  ℕ, suc, ◌<◌, true, false, ◌||◌, not, ◌==◌, ==_iff, ◌≡◌, ◌≢◌, ◌⊎◌, inl, inr, refl, ◌∙◌, ok, List,
  [], ◌∷◌, lookup, insert, get, has_key, lookup-insert, get-insert, has_key-insert, add, arith,
  Bool-cases, ltb,
}
use nvmordering.Pair.Variables.{
  PairInfo, PairVariables, DsclInfo, no_dscl, no_variables, load_pair_info, is_used_var,
  insert_variable, insert_pair,
}

-- A pair that `nd` is in, of two declarations, stands at an address.
abbrev pub Resolves : PairVariables → ℕ → ℕ → Type 0
Resolves vs nd pi =
    (info : PairInfo) × (load_pair_info vs pi ≡ ok info)
    × ((nd ≡ info.data_nd) ⊎ (nd ≡ info.check_nd))
    × (info.data_nd ≢ 0)
    × (info.check_nd ≢ 0)

-- So it is with each address of a set of pairs.
abbrev pub PairsResolve : PairVariables → ℕ → List ℕ → Type 0
PairsResolve vs nd [] = Unit
PairsResolve vs nd (pi ∷ pis) = Resolves vs nd pi × PairsResolve vs nd pis

pub record IsLinked (vs : PairVariables) : Type 0 where
  -- a variable that is used has a set of pairs, and is of at least one kind
  pub listed : (nd : ℕ) → is_used_var vs nd ≡ true → has_key nd vs.pair_info_map ≡ true
  pub kinds :
      (nd : ℕ)
      → is_used_var vs nd ≡ true
      → ((get no_dscl nd vs.used_vars).is_dcl || (get no_dscl nd vs.used_vars).is_scl) ≡ true
  pub resolved : (nd : ℕ) → PairsResolve vs nd (get [] nd vs.pair_info_map)
  -- the null pointer is no variable
  pub no_null : is_used_var vs 0 ≡ false
  -- no object stands at an address that is still to be given
  pub below : (pi : ℕ) → has_key pi vs.pair_infos ≡ true → pi < vs.next_pair_info

pub no_variables-IsLinked : IsLinked no_variables
unfolding is_used_var has_key get lookup
no_variables-IsLinked = record {
  listed = λ nd h. cc;
  kinds = λ nd h. cc;
  resolved = λ nd. tt;
  no_null = refl;
  below = λ pi h. cc;
}

-- A change of the tables that keeps what stands at the addresses.
PairsResolve-mono :
    (vs vs' : PairVariables) (nd : ℕ)
    → ((pi : ℕ) (info : PairInfo)
        → load_pair_info vs pi ≡ ok info
        → load_pair_info vs' pi ≡ ok info)
    → (pis : List ℕ) → PairsResolve vs nd pis
    → PairsResolve vs' nd pis
PairsResolve-mono vs vs' nd keep [] h = tt
PairsResolve-mono vs vs' nd keep (pi ∷ pis) ((info, e, m, d, c), h) =
    ((info, keep pi info e, m, d, c), PairsResolve-mono vs vs' nd keep pis h)

PairsResolve-add :
    (vs : PairVariables) (nd pi : ℕ) (pis : List ℕ)
    → Resolves vs nd pi
    → PairsResolve vs nd pis
    → PairsResolve vs nd (add pi pis)
unfolding add
PairsResolve-add vs nd pi [] r h = (r, tt)
PairsResolve-add vs nd pi (q ∷ pis) r (rq, h) = elim (Bool-cases (q == pi)) [
  | inl e ↦ rw e (rq, h)
  | inr e ↦ rw e (elim (Bool-cases (ltb pi q)) [
    | inl lt ↦ rw lt (r, (rq, h))
    | inr ge ↦ rw ge (rq, PairsResolve-add vs nd pi pis r h)
  ])
]

module _ (var pi : ℕ) (info : PairInfo) (vs : PairVariables) (load : load_pair_info vs pi ≡ ok info)
    (m : (var ≡ info.data_nd) ⊎ (var ≡ info.check_nd)) (d : info.data_nd ≢ 0)
    (c : info.check_nd ≢ 0) (i : IsLinked vs) where
  abbrev vs' : PairVariables
  vs' = insert_variable var pi info vs

  abbrev kept : DsclInfo
  kept = get no_dscl var vs.used_vars

  abbrev dscl : DsclInfo
  dscl = record { is_dcl = kept.is_dcl || not info.is_scl; is_scl = kept.is_scl || info.is_scl }

  insert_variable-listed :
      (nd : ℕ) → is_used_var vs' nd ≡ true → has_key nd vs'.pair_info_map ≡ true
  unfolding insert_variable is_used_var
  insert_variable-listed nd h = ground (
    arith,
    has_key-insert nd var dscl vs.used_vars,
    i.listed nd,
    has_key-insert nd var (add pi (get [] var vs.pair_info_map)) vs.pair_info_map,
  )

  insert_variable-kinds :
      (nd : ℕ)
      → is_used_var vs' nd ≡ true
      → ((get no_dscl nd vs'.used_vars).is_dcl || (get no_dscl nd vs'.used_vars).is_scl) ≡ true
  unfolding insert_variable is_used_var
  insert_variable-kinds nd h = ground (
    arith,
    has_key-insert nd var dscl vs.used_vars,
    i.kinds nd,
    get-insert no_dscl nd var dscl vs.used_vars,
  )

  insert_variable-resolved : (nd : ℕ) → PairsResolve vs' nd (get [] nd vs'.pair_info_map)
  unfolding insert_variable load_pair_info
  insert_variable-resolved nd =
      let old = get [] var vs.pair_info_map in
      rw (get-insert [] nd var (add pi old) vs.pair_info_map) (elim (Bool-cases (var == nd)) [
        | inl e ↦
            rw (e, ← (==_iff var nd).0 e)
              (PairsResolve-mono vs vs' var (λ p j l. l) (add pi old)
                (PairsResolve-add vs var pi old (info, load, m, d, c) (i.resolved var)))
        | inr e ↦
            rw e (
              PairsResolve-mono vs vs' nd (λ p j l. l) (get [] nd vs.pair_info_map) (i.resolved nd))
      ])

  insert_variable-no_null : is_used_var vs' 0 ≡ false
  unfolding insert_variable is_used_var
  insert_variable-no_null = ground (arith, has_key-insert 0 var dscl vs.used_vars, i.no_null)

  pub insert_variable-IsLinked : IsLinked vs'
  unfolding insert_variable
  insert_variable-IsLinked = record {
    listed = insert_variable-listed;
    kinds = insert_variable-kinds;
    resolved = insert_variable-resolved;
    no_null = insert_variable-no_null;
    below = i.below;
  }

abbrev allocate : PairInfo → PairVariables → PairVariables
allocate info vs = record vs {
  pair_infos = insert vs.next_pair_info info vs.pair_infos;
  next_pair_info = suc vs.next_pair_info;
}

load-allocate :
    (info : PairInfo) (vs : PairVariables)
    → IsLinked vs
    → (pi : ℕ) (j : PairInfo) → load_pair_info vs pi ≡ ok j
    → load_pair_info (allocate info vs) pi ≡ ok j
unfolding load_pair_info has_key
load-allocate info vs i pi j e =
    ground (arith, lookup-insert pi vs.next_pair_info info vs.pair_infos, i.below pi)

load-allocate_self :
    (info : PairInfo) (vs : PairVariables)
    → load_pair_info (allocate info vs) vs.next_pair_info ≡ ok info
unfolding load_pair_info
load-allocate_self info vs =
    ground (arith, lookup-insert vs.next_pair_info vs.next_pair_info info vs.pair_infos)

allocate-IsLinked :
    (info : PairInfo) (vs : PairVariables) → IsLinked vs → IsLinked (allocate info vs)
unfolding is_used_var
allocate-IsLinked info vs i = record {
  listed = i.listed;
  kinds = i.kinds;
  resolved = λ nd.
      PairsResolve-mono vs (allocate info vs) nd (load-allocate info vs i)
        (get [] nd vs.pair_info_map) (i.resolved nd);
  no_null = i.no_null;
  below =
      λ pi h. ground (arith, has_key-insert pi vs.next_pair_info info vs.pair_infos, i.below pi);
}

load-insert_variable :
    (var pi q : ℕ) (info : PairInfo) (vs : PairVariables)
    → load_pair_info (insert_variable var pi info vs) q ≡ load_pair_info vs q
unfolding load_pair_info insert_variable
load-insert_variable var pi q info vs = refl

-- Each pair that is collected leaves the tables linked.
pub insert_pair-IsLinked :
    (info : PairInfo) (vs : PairVariables)
    → info.data_nd ≢ 0
    → info.check_nd ≢ 0
    → IsLinked vs
    → IsLinked (insert_pair info vs)
unfolding insert_pair
insert_pair-IsLinked info vs d c i =
    let pi = vs.next_pair_info in
    let vs1 = allocate info vs in
    let load1 = load-allocate_self info vs in
    let vs2 = insert_variable info.data_nd pi info vs1 in
    let load2 = load-insert_variable info.data_nd pi pi info vs1 ∙ load1 in
    insert_variable-IsLinked info.check_nd pi info vs2 load2 (inr refl) d c (
      insert_variable-IsLinked info.data_nd pi info vs1 load1 (inl refl) d c
        (allocate-IsLinked info vs i))
