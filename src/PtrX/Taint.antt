-- ===== src/PtrX/Taint.antt =====
-- What "written" means, as rules, and that isPtrWritten decides it.
use nvmordering.Base.{ℕ, ◌<◌, Bool, true, false, List, [], ◌∷◌, member, Result, ok, ◌≡◌, ◌≢◌, ◌⊎◌}
use nvmordering.Symbolic.Memory.{
  Memory, is_element_region, is_symbolic_region, is_sub_region, is_symbol_data, is_symbol_derived,
  is_symbol_region_value,
}
use nvmordering.PtrX.State.{PtrState, saved_regs}
use nvmordering.PtrX.Written.{Target, region, symbol, value, any_sub_region}

-- A symbol of the list.
abbrev pub SymbolOf : ℕ → List ℕ → Type 0
SymbolOf s [] = ⊥
SymbolOf s (x ∷ xs) = (s ≡ x) ⊎ SymbolOf s xs

module _ (mem : Memory) (s : PtrState) where
  -- A region is written with what it lies in, with its index, and with its symbol; a value with its
  -- symbol or region; a symbol with each piece of data that it depends on; and such a piece if it is
  -- in the set, with its parent, as a part of a written region of its parent, and with the region
  -- whose value it is.
  pub data Written : Target → Type 0 where
    by_super :
        {r : ℕ}
        → r ≢ 0
        → is_element_region mem r ≡ true
        → Written (region (mem.super_region r))
        → Written (region r)
    by_index :
        {r : ℕ}
        → r ≢ 0
        → is_element_region mem r ≡ true
        → Written (value (mem.index r))
        → Written (region r)
    by_symbol :
        {r : ℕ}
        → r ≢ 0
        → is_symbolic_region mem r ≡ true
        → Written (symbol (mem.region_symbol r))
        → Written (region r)
    by_outer :
        {r : ℕ}
        → r ≢ 0
        → is_symbolic_region mem r ≡ false
        → is_sub_region mem r ≡ true
        → Written (region (mem.super_region r))
        → Written (region r)
    value_symbol :
        {v : ℕ} → mem.as_sym_expr v ≢ 0 → Written (symbol (mem.as_sym_expr v)) → Written (value v)
    value_region :
        {v : ℕ}
        → mem.as_sym_expr v ≡ 0
        → mem.as_region v ≢ 0
        → Written (region (mem.as_region v))
        → Written (value v)
    in_set :
        {y : ℕ} (si : ℕ)
        → y ≢ 0
        → SymbolOf si (mem.symbols y)
        → is_symbol_data mem si ≡ true
        → member si s.ptr_set ≡ true
        → Written (symbol y)
    by_parent :
        {y : ℕ} (si : ℕ)
        → y ≢ 0
        → SymbolOf si (mem.symbols y)
        → is_symbol_derived mem si ≡ true
        → Written (symbol (mem.parent_symbol si))
        → Written (symbol y)
    by_part :
        {y : ℕ} (si : ℕ)
        → y ≢ 0
        → SymbolOf si (mem.symbols y)
        → is_symbol_derived mem si ≡ true
        → any_sub_region mem (mem.symbol_region si) (saved_regs s (mem.parent_symbol si)) ≡ true
        → Written (symbol y)
    by_region :
        {y : ℕ} (si : ℕ)
        → y ≢ 0
        → SymbolOf si (mem.symbols y)
        → is_symbol_region_value mem si ≡ true
        → Written (region (mem.symbol_region si))
        → Written (symbol y)

-- Everything that a target asks about is of a smaller rank, as symbols and regions are built.
pub record IsRanked (mem : Memory) (rank : Target → ℕ) : Type 0 where
  pub of_super :
      (r : ℕ)
      → r ≢ 0
      → is_sub_region mem r ≡ true
      → rank (region (mem.super_region r)) < rank (region r)
  pub of_index :
      (r : ℕ)
      → r ≢ 0
      → is_element_region mem r ≡ true
      → rank (value (mem.index r)) < rank (region r)
  pub of_symbol :
      (r : ℕ)
      → r ≢ 0
      → is_symbolic_region mem r ≡ true
      → rank (symbol (mem.region_symbol r)) < rank (region r)
  pub of_value_symbol :
      (v : ℕ) → mem.as_sym_expr v ≢ 0 → rank (symbol (mem.as_sym_expr v)) < rank (value v)
  pub of_value_region :
      (v : ℕ) → mem.as_region v ≢ 0 → rank (region (mem.as_region v)) < rank (value v)
  pub of_parent :
      (y si : ℕ)
      → y ≢ 0
      → SymbolOf si (mem.symbols y)
      → is_symbol_derived mem si ≡ true
      → rank (symbol (mem.parent_symbol si)) < rank (symbol y)
  pub of_region :
      (y si : ℕ)
      → y ≢ 0
      → SymbolOf si (mem.symbols y)
      → is_symbol_region_value mem si ≡ true
      → rank (region (mem.symbol_region si)) < rank (symbol y)

-- The result is an answer, and the right one.
pub data Decides (P : Type 0) : Result Bool → Type 0 where
  says_yes : P → Decides P (ok true)
  says_no : ¬ P → Decides P (ok false)
