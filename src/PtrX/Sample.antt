-- ===== src/PtrX/Sample.antt =====
-- States, ranks and sets of functions for the tests of the checker of persistent pointers on the
-- sample memory.
use nvmordering.Base.{
  ℕ, suc, ◌<◌, Bool, true, false, ◌==◌, ltb, if◌then◌else◌, List, [], ◌∷◌, PtrSet, member, add, ◌≡◌,
  ◌≢◌, inl, inr, refl, arith, ◌⊎◌, Bool-cases, subst,
}
use nvmordering.Symbolic.Engine.{Call}
use nvmordering.Symbolic.Memory.{
  is_element_region, is_symbolic_region, is_sub_region, is_symbol_derived, is_symbol_region_value,
}
use nvmordering.Symbolic.Sample.{sample_memory}
use nvmordering.PtrX.State.{PtrState}
use nvmordering.PtrX.Written.{Target, region, symbol, value}
use nvmordering.PtrX.Taint.{SymbolOf, IsRanked}
use nvmordering.PtrX.Walkers.{Identify}

abbrev pub region_rank : ℕ → ℕ
region_rank r =
    if r == 2
    then 1
    else (if r == 3
        then 3
        else (if r == 4
            then 4
            else (if r == 5 then 4 else (if r == 7 then 2 else (if r == 8 then 1 else 0)))))

abbrev pub symbol_rank : ℕ → ℕ
symbol_rank s = if s == 20 then 2 else (if s == 22 then 1 else (if s == 23 then 3 else 0))

abbrev pub sample_rank : Target → ℕ
sample_rank (region r) = region_rank r
sample_rank (symbol s) = symbol_rank s
sample_rank (value v) = if ltb v 20 then suc (region_rank v) else suc (symbol_rank v)

sample_symbols :
    (y si : ℕ) → SymbolOf si (sample_memory.symbols y) → (si ≡ y) ⊎ ((y ≡ 23) × (si ≡ 20))
sample_symbols y si m = elim (Bool-cases (y == 23)) [
  | inl e ↦ cast_case (ground arith) (subst (SymbolOf si) {y = 23 ∷ 20 ∷ []} (rw e refl) m)
  | inr e ↦ plain_case (subst (SymbolOf si) {y = y ∷ []} (rw e refl) m)
]
  where
    cast_case : y ≡ 23 → SymbolOf si (23 ∷ 20 ∷ []) → (si ≡ y) ⊎ ((y ≡ 23) × (si ≡ 20))
    cast_case q (inl e) = inl (ground arith)
    cast_case q (inr (inl e)) = inr (q, e)
    cast_case q (inr (inr e)) = absurd e

    plain_case : SymbolOf si (y ∷ []) → (si ≡ y) ⊎ ((y ≡ 23) × (si ≡ 20))
    plain_case (inl e) = inl e
    plain_case (inr e) = absurd e

sample_parent :
    (y si : ℕ)
    → y ≢ 0
    → SymbolOf si (sample_memory.symbols y)
    → is_symbol_derived sample_memory si ≡ true
    → sample_rank (symbol (sample_memory.parent_symbol si)) < sample_rank (symbol y)
unfolding is_symbol_derived
sample_parent y si n m d = ground (arith, sample_symbols y si m)

sample_region :
    (y si : ℕ)
    → y ≢ 0
    → SymbolOf si (sample_memory.symbols y)
    → is_symbol_region_value sample_memory si ≡ true
    → sample_rank (region (sample_memory.symbol_region si)) < sample_rank (symbol y)
unfolding is_symbol_region_value
sample_region y si n m d = ground (arith, sample_symbols y si m)

pub sample-IsRanked : IsRanked sample_memory sample_rank
unfolding is_element_region is_symbolic_region is_sub_region is_symbol_derived
    is_symbol_region_value
sample-IsRanked = record {
  of_super = λ r n e. ground arith;
  of_index = λ r n e. ground arith;
  of_symbol = λ r n e. ground arith;
  of_value_symbol = λ v n. ground arith;
  of_value_region = λ v n. ground arith;
  of_parent = λ y si n m d. sample_parent y si n m d;
  of_region = λ y si n m d. sample_region y si n m d;
}

abbrev pub empty_state : PtrState
empty_state = record { ptr_set = []; derived_sym_ptr = [] }

abbrev pub written_state : PtrState
written_state = record { ptr_set = 21 ∷ []; derived_sym_ptr = [] }

-- The sets are lists, and an insertion knows every declaration.
abbrev pub by_list : Identify PtrSet PtrSet
by_list = record {
  is_skip_frame = λ s fd. false;
  is_skip = λ s fd. false;
  is_flush_fence_fnc = λ s fd. member fd s;
  insert_fnc_if_known = add;
  insert_analyze = add;
  is_used_var = λ s nd. member nd s;
  insert_var_if_known = add;
}

abbrev pub gives_once : List (Call PtrState) → Bool
gives_once [] = true
gives_once (c ∷ cs) = false
