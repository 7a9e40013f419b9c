-- ===== src/Symbolic/Regions.antt =====
-- The lookups of include/util/Helper.h on values and memory regions: the base of a region, and the
-- declaration that a region or a value stands for.
use nvmordering.Base.{
  ℕ, zero, suc, Bool, false, not, if◌then◌else◌, ◌==◌, none, some, Result, err, ok, guard,
  assert_failed, out_of_fuel, ◌>>◌,
}
use nvmordering.Symbolic.Memory.{
  Memory, is_symbolic_region, is_field_region, is_var_region, is_typed_value_region,
}
use nvmordering.Symbolic.Decls.{Decls, cast_or_null, get_value_decl}

module _ (mem : Memory) where
  unfoldable pub get_top_base_mem_region : ℕ → ℕ → Result ℕ
  get_top_base_mem_region zero mr = err out_of_fuel
  get_top_base_mem_region (suc fuel) mr =
      let bmr = mem.base_region mr in
      let rest = get_top_base_mem_region fuel bmr in
      guard (not (mr == 0)) assert_failed
      >> (if bmr == mr then ok mr else (if bmr == 0 then ok mr else rest))

  unfoldable pub get_top_base_mem_reg_unsafe : ℕ → ℕ → Result ℕ
  unfolding get_top_base_mem_region
  get_top_base_mem_reg_unsafe fuel loc =
      let loc_mr = mem.as_region loc in
      if loc_mr == 0 then ok 0 else get_top_base_mem_region fuel loc_mr

  unfoldable pub get_top_base_mem_reg_l_or_r : ℕ → ℕ → ℕ → Bool → Result ℕ
  unfolding get_top_base_mem_reg_unsafe
  get_top_base_mem_reg_l_or_r fuel left right l =
      if l then get_top_base_mem_reg_unsafe fuel left else get_top_base_mem_reg_unsafe fuel right

  -- getTopBaseRegion, which goes up once
  unfoldable pub get_top_base_region : ℕ → ℕ
  get_top_base_region loc =
      let current = mem.as_region loc in if current == 0 then current else mem.base_region current

  unfoldable pub get_var_decl : ℕ → ℕ
  unfolding is_var_region
  get_var_decl parent_region =
      if parent_region == 0
      then 0
      else (if is_var_region mem parent_region then mem.region_decl parent_region else 0)

  unfoldable pub is_ptr_region : ℕ → Bool
  is_ptr_region var_reg =
      if var_reg == 0 then false else mem.is_pointer_type (mem.value_type var_reg)

  unfoldable pub get_vd_using_origin : ℕ → ℕ
  unfolding get_var_decl
  get_vd_using_origin loc =
      if mem.as_sym_expr loc == 0 then 0 else get_var_decl (mem.origin_region (mem.as_sym_expr loc))

  -- `castAs` asserts that the value is a lazy compound one.
  unfoldable pub get_vd_using_lazy : ℕ → Result ℕ
  unfolding get_var_decl
  get_vd_using_lazy loc =
      if mem.is_unknown_or_undef loc then ok 0 else elim (mem.lazy_compound_region loc) [
        | none ↦ err assert_failed
        | some r ↦ ok (if r == 0 then 0 else get_var_decl (mem.base_region r))
      ]

  unfoldable pub get_mem_record_decl : ℕ → ℕ
  unfolding is_symbolic_region
  get_mem_record_decl region =
      let type = mem.symbol_type (mem.region_symbol region) in
      if region == 0
      then 0
      else (if is_symbolic_region mem region
          then (if mem.is_pointer_type type then mem.record_of_type (mem.pointee_type type) else 0)
          else 0)

  unfoldable pub get_mem_record_decl_at : ℕ → ℕ
  unfolding get_mem_record_decl
  get_mem_record_decl_at loc = get_mem_record_decl (mem.as_region loc)

  module _ (decls : Decls) where
    -- getValueDecl on a region, and on a value
    unfoldable pub get_region_value_decl : ℕ → Result ℕ
    unfolding is_field_region get_value_decl
    get_region_value_decl region =
        if region == 0
        then ok 0
        else (if is_field_region mem region
            then get_value_decl decls (mem.region_decl region)
            else ok 0)

    unfoldable pub get_loc_value_decl : ℕ → Result ℕ
    unfolding get_region_value_decl
    get_loc_value_decl loc = get_region_value_decl (mem.as_region loc)

    -- getMemFieldDecl: the field of a field region, or else that of the region which the symbol of
    -- a symbolic region comes from
    unfoldable pub get_mem_field_decl : ℕ → ℕ → Result ℕ
    unfolding is_field_region is_symbolic_region cast_or_null
    get_mem_field_decl zero region = err out_of_fuel
    get_mem_field_decl (suc fuel) region =
        let origin = get_mem_field_decl fuel (mem.origin_region (mem.region_symbol region)) in
        if region == 0
        then ok 0
        else (if is_field_region mem region
            then ok (cast_or_null decls.is_field_decl (mem.region_decl region))
            else (if is_symbolic_region mem region then origin else ok 0))

    -- getMemFieldDecl on a value, and getMemLogFieldDecl
    unfoldable pub get_mem_field_decl_at : ℕ → ℕ → Result ℕ
    unfolding get_mem_field_decl
    get_mem_field_decl_at fuel loc = get_mem_field_decl fuel (mem.as_region loc)

    unfoldable pub get_mem_log_field_decl : ℕ → ℕ → Result ℕ
    unfolding get_mem_field_decl_at
    get_mem_log_field_decl fuel loc = get_mem_field_decl_at fuel loc

    unfoldable pub get_record_decl : ℕ → ℕ
    unfolding cast_or_null
    get_record_decl qt = cast_or_null decls.is_record_decl (mem.tag_of_type qt)

    unfoldable pub get_named_decl : ℕ → Result ℕ
    unfolding is_field_region is_typed_value_region get_value_decl get_record_decl
    get_named_decl region =
        if is_field_region mem region
        then get_value_decl decls (mem.region_decl region)
        else ok (
            if is_typed_value_region mem region then get_record_decl (mem.value_type region) else 0)
