-- ===== src/PtrX/Written.antt =====
-- lib/ptrxchecker/state_machine/Transitions.h: isPtrWritten, which follows regions, symbols and
-- values through one another. `fuel` bounds how deep it goes.
use nvmordering.Base.{
  ℕ, zero, suc, Bool, true, false, not, ◌==◌, ◌||◌, if◌then◌else◌, List, [], ◌∷◌, PtrSet, member,
  Result, ok, err, out_of_fuel, ◌>>=◌,
}
use nvmordering.Symbolic.Memory.{
  Memory, is_element_region, is_symbolic_region, is_sub_region, is_symbol_data, is_symbol_derived,
  is_symbol_region_value, is_symbol_cast,
}
use nvmordering.PtrX.State.{PtrState, saved_regs}

-- What isPtrWritten is asked about: its overloads.
pub data Target : Type 0 where
  region symbol value : ℕ → Target

-- `a || b`, where `a` may not end
abbrev pub or_else : Result Bool → Result Bool → Result Bool
or_else a b = a >>= λ x. if x then ok true else b

module _ (mem : Memory) where
  -- R->isSubRegionOf(I) for one of the regions
  unfoldable pub any_sub_region : ℕ → PtrSet → Bool
  any_sub_region r [] = false
  any_sub_region r (i ∷ regs) = mem.is_sub_region_of r i || any_sub_region r regs

  module _ (s : PtrState) (recur : Target → Result Bool) where
    unfoldable pub derived_written : ℕ → Result Bool
    unfolding is_symbol_derived any_sub_region saved_regs
    derived_written si =
        if is_symbol_derived mem si
        then or_else (recur (symbol (mem.parent_symbol si)))
            (ok (any_sub_region (mem.symbol_region si) (saved_regs s (mem.parent_symbol si))))
        else ok false

    unfoldable pub region_value_written : ℕ → Result Bool
    unfolding is_symbol_region_value
    region_value_written si =
        if is_symbol_region_value mem si then recur (region (mem.symbol_region si)) else ok false

    unfoldable pub cast_written : ℕ → Result Bool
    unfolding is_symbol_cast
    cast_written si = if is_symbol_cast mem si then recur (symbol (mem.operand si)) else ok false

    -- The body of the loop over the symbols that a symbol depends on.
    unfoldable pub one_written : ℕ → Result Bool
    unfolding derived_written region_value_written cast_written is_symbol_data
    one_written si =
        if not (is_symbol_data mem si)
        then ok false
        else (if member si s.ptr_set
            then ok true
            else or_else (derived_written si) (or_else (region_value_written si) (cast_written si)))

    unfoldable pub any_written : List ℕ → Result Bool
    unfolding one_written
    any_written [] = ok false
    any_written (si ∷ sis) = or_else (one_written si) (any_written sis)

    unfoldable pub region_written : ℕ → Result Bool
    unfolding is_element_region is_symbolic_region is_sub_region
    region_written r =
        if is_element_region mem r
        then or_else (recur (region (mem.super_region r))) (recur (value (mem.index r)))
        else (if is_symbolic_region mem r
            then recur (symbol (mem.region_symbol r))
            else (if is_sub_region mem r then recur (region (mem.super_region r)) else ok false))

    unfoldable pub written_at : Target → Result Bool
    unfolding region_written any_written
    written_at (region r) = if r == 0 then ok false else region_written r
    written_at (symbol sym) = if sym == 0 then ok false else any_written (mem.symbols sym)
    written_at (value v) =
        if mem.as_sym_expr v == 0
        then (if mem.as_region v == 0 then ok false else recur (region (mem.as_region v)))
        else recur (symbol (mem.as_sym_expr v))

  unfoldable pub is_ptr_written : ℕ → PtrState → Target → Result Bool
  unfolding written_at
  is_ptr_written zero s t = err out_of_fuel
  is_ptr_written (suc fuel) s t = written_at s (is_ptr_written fuel s) t
