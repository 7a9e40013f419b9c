-- ===== src/Globals/Units.antt =====
-- include/global_util/GlobalInfo.h: what a checker knows of the translation unit, and of each unit.
-- A class that derives from `Variables` and `Functions` is a record with a field for each. The
-- pointer `activeUnit` into the map is the key of its entry; `none` stands for its value before
-- `initActiveUnit` or `setActiveUnit` assigns it.
use nvmordering.Base.{
  ℕ, Bool, true, false, Option, none, some, if◌then◌else◌, Result, ok, err, assert_failed, guard,
  ◌>>◌, ◌>>=◌, Map, insert, get, touch, has_key, PtrSet, add, member, [], ◌==◌,
}
use nvmordering.Clang.{Ast, same_kind, call_expr}

pub record UnitInfo : Type 0 where
  pub unit_variables : PtrSet
  pub unit_functions : PtrSet

-- The value that `functionUnitMap[FD]` starts with.
abbrev pub empty_unit : UnitInfo
empty_unit = record { unit_variables = []; unit_functions = [] }

pub record GlobalInfo {ℓ κ} (V : Type ℓ) (F : Type κ) : Type (ℓ ⊔ κ) where
  pub variables : V
  pub functions : F
  pub function_unit_map : Map UnitInfo
  pub active_unit : Option ℕ

module _ {ℓ κ} {V : Type ℓ} {F : Type κ} where
  -- `assert(activeUnit)`, and the unit that it points to
  unfoldable pub active : GlobalInfo V F → Result UnitInfo
  unfolding get
  active g = elim g.active_unit [
    | none ↦ err assert_failed
    | some fd ↦ ok (get empty_unit fd g.function_unit_map)
  ]

  unfoldable pub is_used_var_unit : GlobalInfo V F → ℕ → Result Bool
  unfolding active member
  is_used_var_unit g var = do
    u ← active g
    guard (if var == 0 then false else true) assert_failed
    ok (member var u.unit_variables)

  unfoldable pub get_unit_variables : GlobalInfo V F → Result PtrSet
  unfolding active
  get_unit_variables g = do u ← active g; ok u.unit_variables

  unfoldable pub set_active_unit : ℕ → GlobalInfo V F → Result (GlobalInfo V F)
  unfolding has_key
  set_active_unit fd g = do
    guard (has_key fd g.function_unit_map) assert_failed
    ok (record g { active_unit = some fd })

  unfoldable pub init_active_unit : ℕ → GlobalInfo V F → GlobalInfo V F
  unfolding touch
  init_active_unit fd g = record g {
    function_unit_map = touch empty_unit fd g.function_unit_map;
    active_unit = some fd;
  }

  unfoldable pub update_active : (UnitInfo → UnitInfo) → GlobalInfo V F → Result (GlobalInfo V F)
  unfolding get insert
  update_active f g = elim g.active_unit [
    | none ↦ err assert_failed
    | some fd ↦ ok (record g {
      function_unit_map = insert fd (f (get empty_unit fd g.function_unit_map)) g.function_unit_map;
    })
  ]

  unfoldable pub insert_variable_to_active_unit : ℕ → GlobalInfo V F → Result (GlobalInfo V F)
  unfolding update_active add
  insert_variable_to_active_unit var =
      update_active (λ u. record u { unit_variables = add var u.unit_variables })

  unfoldable pub insert_function_to_active_unit : ℕ → GlobalInfo V F → Result (GlobalInfo V F)
  unfolding update_active add
  insert_function_to_active_unit fd =
      update_active (λ u. record u { unit_functions = add fd u.unit_functions })

-- `getCEIfAnalyzedFunction`: the call of a function that is analysed by its body. `is_skip` is the
-- `isSkipFunction` of the functions.
unfoldable pub get_ce_if_analyzed_function : Ast → (ℕ → Bool) → ℕ → ℕ
get_ce_if_analyzed_function ast is_skip s =
    if same_kind (ast.kind s) call_expr
    then (if ast.direct_callee s == 0 then 0 else (if is_skip (ast.direct_callee s) then 0 else s))
    else 0
