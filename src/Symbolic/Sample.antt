-- ===== src/Symbolic/Sample.antt =====
-- A small memory for the tests of the path-sensitive checkers. Regions: a memory space (1), a
-- variable (2), what it points to (3), a field (4) and an element (5) of that, what the field points
-- to (7), and what a call returned (8). Symbols: the value of the variable (20), the value of a call (21), a part of that
-- value (22), a cast (23) of the first. Declarations: two fields (41, 42) and four functions (50-53).
use nvmordering.Base.{ℕ, false, ◌==◌, ◌||◌, if◌then◌else◌, ltb, none, some, List, [], ◌∷◌}
use nvmordering.Symbolic.Memory.{
  Memory, element_region, symbolic_region, field_region, var_region, memory_space, RegionKind,
  SymbolKind, symbol_derived, symbol_region_value, other_symbol_data, symbol_cast,
}
use nvmordering.Symbolic.Decls.{Decls, StmtOrDecl, stmt, decl, neither}

abbrev region_kinds : ℕ → RegionKind
region_kinds r =
    if r == 2
    then var_region
    else (if r == 4
        then field_region
        else (if r == 5
            then element_region
            else (if r == 3 || (r == 7 || r == 8) then symbolic_region else memory_space)))

abbrev symbol_kinds : ℕ → SymbolKind
symbol_kinds s =
    if s == 20
    then symbol_region_value
    else (if s == 22 then symbol_derived else (if s == 23 then symbol_cast else other_symbol_data))

abbrev regions_symbol : ℕ → ℕ
regions_symbol r = if r == 7 then 22 else (if r == 8 then 21 else (if r == 3 then 20 else 0))

abbrev pub sample_memory : Memory
sample_memory = record {
  as_region = λ v. if ltb v 20 then v else 0;
  as_symbol = λ v. if ltb v 20 then regions_symbol v else v;
  as_sym_expr = λ v. if ltb v 20 then 0 else v;
  lazy_compound_region = λ v. if v == 30 then some 4 else none;
  default_binding = λ v. if v == 30 then some 21 else none;
  is_unknown_or_undef = λ v. false;
  region_kind = region_kinds;
  super_region = λ r. if r == 4 || r == 5 then 3 else 1;
  index = λ r. 21;
  region_symbol = regions_symbol;
  base_region = λ r. if r == 4 || r == 5 then 3 else r;
  region_decl = λ r. if r == 4 then 41 else 40;
  value_type = λ r. 0;
  is_sub_region_of = λ r s. r == s;
  symbol_kind = symbol_kinds;
  operand = λ s. 20;
  parent_symbol = λ s. 21;
  symbol_region = λ s. if s == 20 then 2 else 4;
  origin_region = λ s. if s == 20 then 2 else (if s == 22 then 4 else 0);
  symbols = λ s. if s == 23 then 23 ∷ 20 ∷ [] else s ∷ [];
  symbol_type = λ s. 0;
  is_pointer_type = λ t. false;
  pointee_type = λ t. 0;
  record_of_type = λ t. 0;
  tag_of_type = λ t. 0;
}

-- A statement 60 in a block 61 in the function 50.
abbrev pub sample_parents : StmtOrDecl → List StmtOrDecl
sample_parents (stmt s) = if s == 60 then stmt 61 ∷ [] else (if s == 61 then decl 50 ∷ [] else [])
sample_parents (decl d) = []
sample_parents neither = []

abbrev pub sample_decls : Decls
sample_decls = record {
  is_function_decl = λ d. ltb 49 d;
  is_field_decl = λ d. d == 41 || d == 42;
  is_record_decl = λ d. d == 45;
  is_declarator_decl = λ d. false;
  is_value_decl = λ d. d == 41 || d == 42;
  parent_record = λ d. 45;
  has_aligned_attr = λ d. false;
  annotate_attrs = λ d. [];
  parents = sample_parents;
  frame_parent = λ c. 0;
  frame_decl = λ c. 50;
}
