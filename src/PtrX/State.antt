-- ===== src/PtrX/State.antt =====
-- lib/ptrxchecker/state_machine: the program state, and the transitions writePtr and flushPtr. A
-- symbol and a region are pointers, and a state is its two traits. `fuel` bounds the casts around a
-- symbol.
use nvmordering.Base.{
  ℕ, zero, suc, Bool, true, false, ◌==◌, ◌&&◌, if◌then◌else◌, Option, none, some, [], ◌∷◌, Map,
  PtrSet, add, remove, member, lookup, insert, Result, ok, err, out_of_fuel, ◌>>=◌,
}
use nvmordering.Symbolic.Memory.{Memory, is_symbol_cast, is_symbolic_region}

-- PtrSet, and DerivedSymPtr from a symbol to PtrSubRegions
pub record PtrState : Type 0 where
  pub ptr_set : PtrSet
  pub derived_sym_ptr : Map PtrSet

-- The comparison of two states, which clang makes by the address of equal ones.
unfoldable pub same_set : PtrSet → PtrSet → Bool
same_set [] [] = true
same_set (x ∷ xs) (y ∷ ys) = x == y && same_set xs ys
same_set [] (y ∷ ys) = false
same_set (x ∷ xs) [] = false

unfoldable pub same_map : Map PtrSet → Map PtrSet → Bool
unfolding same_set
same_map [] [] = true
same_map ((k, v) ∷ xs) ((j, w) ∷ ys) = k == j && (same_set v w && same_map xs ys)
same_map [] (y ∷ ys) = false
same_map (x ∷ xs) [] = false

unfoldable pub same_state : PtrState → PtrState → Bool
unfolding same_set same_map
same_state s t = same_set s.ptr_set t.ptr_set && same_map s.derived_sym_ptr t.derived_sym_ptr

-- SavedRegs ? *SavedRegs : F.getEmptySet()
unfoldable pub saved_regs : PtrState → ℕ → PtrSet
unfolding lookup
saved_regs s parent = elim (lookup parent s.derived_sym_ptr) [ none ↦ [] | some regs ↦ regs ]

module _ (mem : Memory) where
  -- while (const SymbolCast* SC = dyn_cast<SymbolCast>(Sym)) Sym = SC->getOperand();
  unfoldable pub strip_casts : ℕ → ℕ → Result ℕ
  unfolding is_symbol_cast
  strip_casts zero sym = err out_of_fuel
  strip_casts (suc fuel) sym =
      let rest = strip_casts fuel (mem.operand sym) in
      if is_symbol_cast mem sym then rest else ok sym

  module _ (fuel : ℕ) where
    unfoldable pub write_ptr_symbol : PtrState → ℕ → Result PtrState
    unfolding strip_casts add
    write_ptr_symbol s sym = do
      sym' ← strip_casts fuel sym
      ok (record s { ptr_set = add sym' s.ptr_set })

    unfoldable pub flush_ptr_symbol : PtrState → ℕ → Result PtrState
    unfolding strip_casts remove
    flush_ptr_symbol s sym = do
      sym' ← strip_casts fuel sym
      ok (record s { ptr_set = remove sym' s.ptr_set })

    unfoldable pub write_ptr_region : PtrState → ℕ → Result PtrState
    unfolding is_symbolic_region write_ptr_symbol
    write_ptr_region s r =
        if r == 0
        then ok s
        else (if is_symbolic_region mem r then write_ptr_symbol s (mem.region_symbol r) else ok s)

    unfoldable pub flush_ptr_region : PtrState → ℕ → Result PtrState
    unfolding is_symbolic_region flush_ptr_symbol
    flush_ptr_region s r =
        if r == 0
        then ok s
        else (if is_symbolic_region mem r then flush_ptr_symbol s (mem.region_symbol r) else ok s)

    unfoldable pub write_partial_ptr : PtrState → ℕ → ℕ → Result PtrState
    unfolding write_ptr_symbol saved_regs
    write_partial_ptr s parent sub_region =
        if member parent s.ptr_set
        then ok s
        else (if mem.base_region sub_region == sub_region
            then write_ptr_symbol s parent
            else ok (record s {
              derived_sym_ptr =
                  insert parent (add sub_region (saved_regs s parent)) s.derived_sym_ptr;
            }))

    unfoldable pub flush_partial_ptr : PtrState → ℕ → ℕ → Result PtrState
    unfolding flush_ptr_symbol
    flush_partial_ptr s parent sub_region =
        if member parent s.ptr_set
        then flush_ptr_symbol s parent
        else (if mem.base_region sub_region == sub_region
            then flush_ptr_symbol s parent
            else ok (elim (lookup parent s.derived_sym_ptr) [
              | none ↦ s
              | some regs ↦ record s {
                derived_sym_ptr = insert parent (remove sub_region regs) s.derived_sym_ptr;
              }
            ]))

    -- The region of a lazy compound value and the symbol that is bound to it, if there is one.
    unfoldable pub lazy_binding : ℕ → Option (ℕ × ℕ)
    lazy_binding v = elim (mem.lazy_compound_region v) [
      | none ↦ none
      | some r ↦ elim (mem.default_binding v) [
        | none ↦ none
        | some b ↦ if mem.as_symbol b == 0 then none else some (mem.as_symbol b, r)
      ]
    ]

    unfoldable pub write_ptr : PtrState → ℕ → Result PtrState
    unfolding write_ptr_symbol write_ptr_region write_partial_ptr lazy_binding
    write_ptr s v =
        if mem.as_symbol v == 0
        then elim (lazy_binding v) [
          | some (sym, r) ↦ write_partial_ptr s sym r
          | none ↦ write_ptr_region s (mem.as_region v)
        ]
        else write_ptr_symbol s (mem.as_symbol v)

    unfoldable pub flush_ptr : PtrState → ℕ → Result PtrState
    unfolding flush_ptr_symbol flush_ptr_region flush_partial_ptr lazy_binding
    flush_ptr s v =
        if mem.as_symbol v == 0
        then elim (lazy_binding v) [
          | some (sym, r) ↦ flush_partial_ptr s sym r
          | none ↦ flush_ptr_region s (mem.as_region v)
        ]
        else flush_ptr_symbol s (mem.as_symbol v)
