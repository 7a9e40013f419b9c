-- ===== src/PtrX/Decided.antt =====
-- lib/ptrxchecker/state_machine/Transitions.h: isPtrWritten ends and decides what the rules say.
use nvmordering.Base.{
  ℕ, zero, suc, ◌<◌, Bool, true, not, ◌==◌, List, [], ◌∷◌, member, Result, ◌≡◌, ◌⊎◌, inl, inr, refl,
  arith,
}
use nvmordering.Symbolic.Memory.{
  Memory, is_element_region, is_symbolic_region, is_sub_region, is_symbol_data, is_symbol_derived,
  is_symbol_region_value,
}
use nvmordering.PtrX.State.{PtrState, saved_regs}
use nvmordering.PtrX.Written.{
  Target, region, symbol, value, any_sub_region, derived_written, region_value_written,
  cast_written, one_written, any_written, region_written, written_at, is_ptr_written,
}
use nvmordering.PtrX.Taint.{
  SymbolOf, Written, by_super, by_index, by_symbol, by_outer, value_symbol, value_region, IsRanked,
  Decides, says_yes, says_no,
}
use nvmordering.PtrX.Inversion.{
  Decides-bool, Decides-if, Decides-map, Decides-or_else, Piece, data_is_no_cast, element_is_sub,
  element_of, eq_of_test, ne_of_test, no_data, not_both, not-false, not-true, outer_of, Piece-of,
  pieces_of, region_not_null, region_of_value, space_of, symbol_not_null, symbol_of_value,
  symbolic_of, value_not_null, Written-of,
}

module _ (mem : Memory) (s : PtrState) (rank : Target → ℕ) (recur : Target → Result Bool)
    (bound : ℕ) (ih : (t : Target) → rank t < bound → Decides (Written mem s t) (recur t)) where
  derived-Decides :
      (si : ℕ)
      → (is_symbol_derived mem si ≡ true → rank (symbol (mem.parent_symbol si)) < bound)
      → Decides
          ((is_symbol_derived mem si ≡ true) × Written mem s (symbol (mem.parent_symbol si))
            ⊎ (is_symbol_derived mem si ≡ true)
              × (any_sub_region mem (mem.symbol_region si) (saved_regs s (mem.parent_symbol si))
                  ≡ true))
          (derived_written mem s recur si)
  unfolding derived_written
  derived-Decides si small =
      Decides-if (is_symbol_derived mem si)
        (λ d.
          Decides-map (λ h. elim h [ inl w ↦ inl (d, w) | inr p ↦ inr (d, p) ])
            (λ h. elim h [ inl dw ↦ inl dw.1 | inr dp ↦ inr dp.1 ])
            (Decides-or_else (ih (symbol (mem.parent_symbol si)) (small d)) (Decides-bool _)))
        (λ n. says_no (λ h. elim h [ inl dw ↦ not_both dw.0 n | inr dp ↦ not_both dp.0 n ]))

  region_value-Decides :
      (si : ℕ)
      → (is_symbol_region_value mem si ≡ true → rank (region (mem.symbol_region si)) < bound)
      → Decides
          ((is_symbol_region_value mem si ≡ true) × Written mem s (region (mem.symbol_region si)))
          (region_value_written mem s recur si)
  unfolding region_value_written
  region_value-Decides si small =
      Decides-if (is_symbol_region_value mem si)
        (λ d. Decides-map (λ w. (d, w)) (λ dw. dw.1) (ih (region (mem.symbol_region si)) (small d)))
        (λ n. says_no (λ dw. not_both dw.0 n))

  -- A piece of data is no cast: the last test of the loop never holds.
  cast-Decides : (si : ℕ) → is_symbol_data mem si ≡ true → Decides ⊥ (cast_written mem s recur si)
  unfolding cast_written
  cast-Decides si d = rw (data_is_no_cast mem si d) (says_no (λ h. h))

  one-Decides :
      (si : ℕ)
      → (is_symbol_derived mem si ≡ true → rank (symbol (mem.parent_symbol si)) < bound)
      → (is_symbol_region_value mem si ≡ true → rank (region (mem.symbol_region si)) < bound)
      → Decides (Piece mem s si) (one_written mem s recur si)
  unfolding one_written Piece
  one-Decides si small small' =
      Decides-if (not (is_symbol_data mem si)) (λ n. says_no (λ h. no_data mem s si (not-true n) h))
        (λ d.
          Decides-if (member si s.ptr_set) (λ m. says_yes (inl (not-false d, m)))
            (λ m.
              Decides-map
                (λ h. inr (elim h [
                  | inl w ↦ inl w
                  | inr rest ↦ elim rest [ inl w ↦ inr w | inr no_cast ↦ absurd no_cast ]
                ]))
                (λ h. elim h [
                  | inl dm ↦ absurd (not_both dm.1 m)
                  | inr rest ↦ elim rest [ inl w ↦ inl w | inr w ↦ inr (inl w) ]
                ])
                (Decides-or_else (derived-Decides si small) (
                  Decides-or_else (region_value-Decides si small')
                    (cast-Decides si (not-false d))))))

  any-Decides :
      (sis : List ℕ)
      → ((si : ℕ)
          → SymbolOf si sis
          → is_symbol_derived mem si ≡ true
          → rank (symbol (mem.parent_symbol si)) < bound)
      → ((si : ℕ)
          → SymbolOf si sis
          → is_symbol_region_value mem si ≡ true
          → rank (region (mem.symbol_region si)) < bound)
      → Decides ((si : ℕ) × SymbolOf si sis × Piece mem s si) (any_written mem s recur sis)
  unfolding any_written
  any-Decides [] small small' = says_no (λ h. h.1)
  any-Decides (x ∷ sis) small small' =
      Decides-map
        (λ h. elim h [ inl w ↦ (x, inl refl, w) | inr rest ↦ (rest.0, inr rest.1, rest.2) ])
        (λ h. Piece-of mem s h.0 x sis h.1 h.2)
        (Decides-or_else (one-Decides x (small x (inl refl)) (small' x (inl refl)))
          (any-Decides sis (λ si h. small si (inr h)) (λ si h. small' si (inr h))))

  symbol-Decides :
      (y : ℕ)
      → IsRanked mem rank
      → rank (symbol y) < suc bound
      → Decides (Written mem s (symbol y)) (written_at mem s recur (symbol y))
  unfolding written_at
  symbol-Decides y ranked h =
      Decides-if (y == 0) (λ e. says_no (λ w. symbol_not_null mem s w (eq_of_test y e)))
        (λ n.
          Decides-map (λ h. Written-of mem s y (ne_of_test y n) h.0 h.1 h.2)
            (λ w. pieces_of mem s w)
            (any-Decides (mem.symbols y)
              (λ si m d. omega (arith, ranked.of_parent y si (ne_of_test y n) m d))
              (λ si m d. omega (arith, ranked.of_region y si (ne_of_test y n) m d))))

  value-Decides :
      (v : ℕ)
      → IsRanked mem rank
      → rank (value v) < suc bound
      → Decides (Written mem s (value v)) (written_at mem s recur (value v))
  unfolding written_at
  value-Decides v ranked h =
      Decides-if (mem.as_sym_expr v == 0)
        (λ e.
          Decides-if (mem.as_region v == 0)
            (λ e'. says_no (λ w. value_not_null mem s w (eq_of_test _ e) (eq_of_test _ e')))
            (λ n.
              Decides-map (value_region (eq_of_test _ e) (ne_of_test _ n))
                (λ w. region_of_value mem s w (eq_of_test _ e))
                (ih _ (omega (arith, ranked.of_value_region v (ne_of_test _ n))))))
        (λ n.
          Decides-map (value_symbol (ne_of_test _ n))
            (λ w. symbol_of_value mem s w (ne_of_test _ n))
            (ih _ (omega (arith, ranked.of_value_symbol v (ne_of_test _ n)))))

  region-Decides :
      (r : ℕ)
      → IsRanked mem rank
      → rank (region r) < suc bound
      → Decides (Written mem s (region r)) (written_at mem s recur (region r))
  unfolding written_at region_written
  region-Decides r ranked h =
      Decides-if (r == 0) (λ e. says_no (λ w. region_not_null mem s w (eq_of_test r e)))
        (λ n.
          Decides-if (is_element_region mem r)
            (λ e.
              Decides-map
                (λ w. elim w [
                  | inl a ↦ by_super (ne_of_test r n) e a
                  | inr b ↦ by_index (ne_of_test r n) e b
                ])
                (λ w. element_of mem s w e)
                (Decides-or_else
                  (ih _
                    (omega (arith, ranked.of_super r (ne_of_test r n) (element_is_sub mem r e))))
                  (ih _ (omega (arith, ranked.of_index r (ne_of_test r n) e)))))
            (λ ne.
              Decides-if (is_symbolic_region mem r)
                (λ y.
                  Decides-map (by_symbol (ne_of_test r n) y) (λ w. symbolic_of mem s w y)
                    (ih _ (omega (arith, ranked.of_symbol r (ne_of_test r n) y))))
                (λ ny.
                  Decides-if (is_sub_region mem r)
                    (λ u.
                      Decides-map (by_outer (ne_of_test r n) ny u) (λ w. outer_of mem s w ne ny)
                        (ih _ (omega (arith, ranked.of_super r (ne_of_test r n) u))))
                    (λ nu. says_no (λ w. space_of mem s w ne ny nu)))))

module _ (mem : Memory) (s : PtrState) (rank : Target → ℕ) (ranked : IsRanked mem rank) where
  -- Where what a target asks about is of a smaller rank, isPtrWritten ends for fuel above the rank of
  -- the target, and answers yes exactly where the rules say that the target is written.
  pub is_ptr_written-Decides :
      (fuel : ℕ) (t : Target)
      → rank t < fuel
      → Decides (Written mem s t) (is_ptr_written mem fuel s t)
  unfolding is_ptr_written
  is_ptr_written-Decides zero t h = elim h [ ]
  is_ptr_written-Decides (suc fuel) (region r) h =
      region-Decides mem s rank (is_ptr_written mem fuel s) fuel (is_ptr_written-Decides fuel) r
        ranked h
  is_ptr_written-Decides (suc fuel) (symbol y) h =
      symbol-Decides mem s rank (is_ptr_written mem fuel s) fuel (is_ptr_written-Decides fuel) y
        ranked h
  is_ptr_written-Decides (suc fuel) (value v) h =
      value-Decides mem s rank (is_ptr_written mem fuel s) fuel (is_ptr_written-Decides fuel) v
        ranked h
