-- ===== src/Symbolic/Memory.antt =====
-- What clang answers about symbolic values, memory regions, symbols and their types. All of these
-- are pointers, that is numbers, and 0 is the null pointer.
use nvmordering.Base.{ℕ, Bool, true, false, List, Option}

pub data RegionKind : Type 0 where
  element_region symbolic_region field_region var_region other_typed_region : RegionKind
  other_sub_region memory_space : RegionKind

pub data SymbolKind : Type 0 where
  symbol_derived symbol_region_value other_symbol_data symbol_cast other_symbol : SymbolKind

pub record Memory : Type 0 where
  pub as_region : ℕ → ℕ  -- of a value
  pub as_symbol : ℕ → ℕ
  pub as_sym_expr : ℕ → ℕ
  pub lazy_compound_region : ℕ → Option ℕ  -- none where the value is no LazyCompoundVal
  pub default_binding : ℕ → Option ℕ
  pub is_unknown_or_undef : ℕ → Bool
  pub region_kind : ℕ → RegionKind
  pub super_region : ℕ → ℕ
  pub index : ℕ → ℕ  -- of an element region
  pub region_symbol : ℕ → ℕ  -- of a symbolic region
  pub base_region : ℕ → ℕ
  pub region_decl : ℕ → ℕ  -- of a field or a variable region
  pub value_type : ℕ → ℕ  -- of a region with a type
  pub is_sub_region_of : ℕ → ℕ → Bool
  pub symbol_kind : ℕ → SymbolKind
  pub operand : ℕ → ℕ  -- of a cast
  pub parent_symbol : ℕ → ℕ  -- of a derived symbol
  pub symbol_region : ℕ → ℕ  -- of a derived symbol or the value of a region
  pub origin_region : ℕ → ℕ
  pub symbols : ℕ → List ℕ  -- from symbol_begin to symbol_end
  pub symbol_type : ℕ → ℕ
  pub is_pointer_type : ℕ → Bool
  pub pointee_type : ℕ → ℕ
  pub record_of_type : ℕ → ℕ  -- the declaration of a record type, 0 for other types
  pub tag_of_type : ℕ → ℕ

-- The casts `getAs<FieldRegion>`, `getAs<SymbolicRegion>` and so on, as tests.
module _ (mem : Memory) where
  unfoldable pub is_element_region : ℕ → Bool
  is_element_region r = elim (mem.region_kind r) [ element_region ↦ true | _ ↦ false ]

  unfoldable pub is_symbolic_region : ℕ → Bool
  is_symbolic_region r = elim (mem.region_kind r) [ symbolic_region ↦ true | _ ↦ false ]

  unfoldable pub is_field_region : ℕ → Bool
  is_field_region r = elim (mem.region_kind r) [ field_region ↦ true | _ ↦ false ]

  unfoldable pub is_var_region : ℕ → Bool
  is_var_region r = elim (mem.region_kind r) [ var_region ↦ true | _ ↦ false ]

  -- Every region but a memory space and a symbolic or another untyped one has a value's type.
  unfoldable pub is_typed_value_region : ℕ → Bool
  is_typed_value_region r = elim (mem.region_kind r) [
    | symbolic_region ↦ false
    | other_sub_region ↦ false
    | memory_space ↦ false
    | _ ↦ true
  ]

  -- Every region but a memory space lies in another.
  unfoldable pub is_sub_region : ℕ → Bool
  is_sub_region r = elim (mem.region_kind r) [ memory_space ↦ false | _ ↦ true ]

  unfoldable pub is_symbol_cast : ℕ → Bool
  is_symbol_cast s = elim (mem.symbol_kind s) [ symbol_cast ↦ true | _ ↦ false ]

  unfoldable pub is_symbol_derived : ℕ → Bool
  is_symbol_derived s = elim (mem.symbol_kind s) [ symbol_derived ↦ true | _ ↦ false ]

  unfoldable pub is_symbol_region_value : ℕ → Bool
  is_symbol_region_value s = elim (mem.symbol_kind s) [ symbol_region_value ↦ true | _ ↦ false ]

  unfoldable pub is_symbol_data : ℕ → Bool
  is_symbol_data s = elim (mem.symbol_kind s) [
    | symbol_cast ↦ false
    | other_symbol ↦ false
    | _ ↦ true
  ]
