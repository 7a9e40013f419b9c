-- ===== src/Pair/Variables.antt =====
-- lib/pairchecker/preprocess/PairInfo.h and PairVariables.h: the annotated pairs of fields, and for
-- each field whether it is in a pair across cache lines, in a pair in one line, or both. A
-- `PairInfo*` is an address, and `pair_infos` is the memory where the objects stand; `new PairInfo`
-- takes the address `next_pair_info`, above all that are taken.
pub mod Links
use nvmordering.Base.{
  ℕ, suc, Bool, true, false, not, ◌||◌, ◌==◌, if◌then◌else◌, Result, ok, err, fatal_error,
  assert_failed, null_deref, guard, ◌>>=◌, ◌>>◌, Map, lookup, insert, get, touch, has_key, PtrSet,
  add, [], Option, none, some,
}

pub record PairInfo : Type 0 where
  pub data_nd : ℕ
  pub check_nd : ℕ
  pub is_scl : Bool

-- PairInfo(data, check, isScl), with its assertion
unfoldable pub new_pair_info : ℕ → ℕ → Bool → Result PairInfo
new_pair_info data_nd check_nd is_scl = do
  guard (not (data_nd == 0 || check_nd == 0)) assert_failed
  ok (record { data_nd = data_nd; check_nd = check_nd; is_scl = is_scl })

-- the other field of the pair
unfoldable pub get_pair_nd : PairInfo → ℕ → Result ℕ
get_pair_nd pi nd =
    if nd == pi.data_nd
    then ok pi.check_nd
    else (if nd == pi.check_nd then ok pi.data_nd else err fatal_error)

pub record DsclInfo : Type 0 where
  pub is_dcl : Bool
  pub is_scl : Bool

abbrev pub no_dscl : DsclInfo
no_dscl = record { is_dcl = false; is_scl = false }

pub record PairVariables : Type 0 where
  pub used_vars : Map DsclInfo
  pub pair_info_map : Map PtrSet
  pub pair_infos : Map PairInfo
  pub next_pair_info : ℕ

abbrev pub no_variables : PairVariables
no_variables = record { used_vars = []; pair_info_map = []; pair_infos = []; next_pair_info = 1 }

-- `*PI`
unfoldable pub load_pair_info : PairVariables → ℕ → Result PairInfo
load_pair_info vs pi = elim (lookup pi vs.pair_infos) [ none ↦ err null_deref | some i ↦ ok i ]

unfoldable pub get_pair_info_set : PairVariables → ℕ → Result PtrSet
get_pair_info_set vs var = do
  guard (has_key var vs.pair_info_map) assert_failed
  ok (get [] var vs.pair_info_map)

unfoldable pub get_dscl_info : PairVariables → ℕ → Result DsclInfo
get_dscl_info vs var = do
  guard (has_key var vs.used_vars) assert_failed
  ok (get no_dscl var vs.used_vars)

unfoldable pub is_used_var : PairVariables → ℕ → Bool
is_used_var vs var = has_key var vs.used_vars

-- insertVariable(var, PI), where `info` is `*PI`. The entries that the first test makes are those
-- that the assignments below it would make.
unfoldable pub insert_variable : ℕ → ℕ → PairInfo → PairVariables → PairVariables
insert_variable var pi info vs =
    let old = get no_dscl var vs.used_vars in
    record vs {
      used_vars =
          insert var
            (record { is_dcl = old.is_dcl || not info.is_scl; is_scl = old.is_scl || info.is_scl })
            vs.used_vars;
      pair_info_map = insert var (add pi (get [] var vs.pair_info_map)) vs.pair_info_map;
    }

-- `new PairInfo(...)` and the two calls of insertVariable behind it, as `fillMainVars` makes them.
unfoldable pub insert_pair : PairInfo → PairVariables → PairVariables
insert_pair info vs =
    let pi = vs.next_pair_info in
    let vs' = record vs { pair_infos = insert pi info vs.pair_infos; next_pair_info = suc pi } in
    insert_variable info.check_nd pi info (insert_variable info.data_nd pi info vs')
