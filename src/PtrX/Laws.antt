-- ===== src/PtrX/Laws.antt =====
-- lib/ptrxchecker/state_machine: writes and flushes against each other, and what they do to the
-- answers of isPtrWritten.
use nvmordering.Base.{
  ℕ, true, false, ◌==◌, [], ◌∷◌, PtrSet, add, remove, member, member-add, member-remove, ok, ◌>>=◌,
  ◌≡◌, ◌⊎◌, inl, inr, refl, arith, Bool-cases, ok-injective, subst, sym, >>=-eq-ok,
}
use nvmordering.Symbolic.Memory.{Memory, is_symbolic_region}
use nvmordering.PtrX.State.{
  PtrState, saved_regs, strip_casts, write_ptr_symbol, flush_ptr_symbol, write_ptr_region,
  flush_ptr_region,
}
use nvmordering.PtrX.Written.{Target, any_sub_region}
use nvmordering.PtrX.Taint.{
  Written, by_super, by_index, by_symbol, by_outer, value_symbol, value_region, in_set, by_parent,
  by_part, by_region,
}

-- What was added and is removed again leaves the set as it was.
remove-add : (k : ℕ) (s : PtrSet) → member k s ≡ false → remove k (add k s) ≡ s
unfolding remove add member
remove-add k [] h = ground arith
remove-add k (j ∷ s) h = ground (arith, remove-add k s, remove_absent k s)
  where
    remove_absent : (k : ℕ) (s : PtrSet) → member k s ≡ false → remove k s ≡ s
    remove_absent k [] h = refl
    remove_absent k (j ∷ s) h = ground (arith, remove_absent k s)

module _ (mem : Memory) (fuel : ℕ) where
  -- A write of a region whose symbol, without its casts, was not written, and a flush of the region
  -- give the state back.
  pub flush_ptr_region-write_ptr_region :
      (s : PtrState) (r y : ℕ)
      → strip_casts mem fuel (mem.region_symbol r) ≡ ok y
      → member y s.ptr_set ≡ false
      → (write_ptr_region mem fuel s r >>= λ s'. flush_ptr_region mem fuel s' r) ≡ ok s
  unfolding write_ptr_region flush_ptr_region write_ptr_symbol flush_ptr_symbol
  flush_ptr_region-write_ptr_region s r y e h = ground (arith, remove-add y s.ptr_set)

-- Where every written symbol and every part of one state is one of another.
record IsBelow (s t : PtrState) : Type 0 where
  symbols : (y : ℕ) → member y s.ptr_set ≡ true → member y t.ptr_set ≡ true
  parts : (y : ℕ) → saved_regs s y ≡ saved_regs t y

Written-mono :
    (mem : Memory) (s t : PtrState) → IsBelow s t → {x : Target} → Written mem s x → Written mem t x
Written-mono mem s t b (by_super n e w) = by_super n e (Written-mono mem s t b w)
Written-mono mem s t b (by_index n e w) = by_index n e (Written-mono mem s t b w)
Written-mono mem s t b (by_symbol n e w) = by_symbol n e (Written-mono mem s t b w)
Written-mono mem s t b (by_outer n e u w) = by_outer n e u (Written-mono mem s t b w)
Written-mono mem s t b (value_symbol n w) = value_symbol n (Written-mono mem s t b w)
Written-mono mem s t b (value_region e n w) = value_region e n (Written-mono mem s t b w)
Written-mono mem s t b (in_set si n m d e) = in_set si n m d (b.symbols si e)
Written-mono mem s t b (by_parent si n m d w) = by_parent si n m d (Written-mono mem s t b w)
Written-mono mem s t b (by_part si n m d e) = by_part si n m d (
    subst (λ regs. any_sub_region mem (mem.symbol_region si) regs ≡ true)
      (b.parts (mem.parent_symbol si)) e)
Written-mono mem s t b (by_region si n m d w) = by_region si n m d (Written-mono mem s t b w)

module _ (mem : Memory) (fuel : ℕ) (s s' : PtrState) where
  -- A write does nothing or adds the symbol under the casts of the region's one; a flush removes it.
  pub write_cases :
      (r : ℕ)
      → write_ptr_region mem fuel s r ≡ ok s'
      → (s' ≡ s)
        ⊎ ((y : ℕ) × (strip_casts mem fuel (mem.region_symbol r) ≡ ok y)
            × (s' ≡ record s { ptr_set = add y s.ptr_set }))
  unfolding write_ptr_region write_ptr_symbol
  write_cases r e = elim (Bool-cases (r == 0)) [
    | inl null ↦ inl (ground arith)
    | inr valid ↦ elim (Bool-cases (is_symbolic_region mem r)) [
      | inr n ↦ inl (ground arith)
      | inl y ↦
          let (z, e1, e2) =
            >>=-eq-ok (strip_casts mem fuel (mem.region_symbol r)) _ (write_step r valid y e) in
          inr (z, e1, sym (ok-injective e2))
    ]
  ]
    where
      write_step :
          (r : ℕ)
          → (r == 0) ≡ false
          → is_symbolic_region mem r ≡ true
          → write_ptr_region mem fuel s r ≡ ok s'
          → write_ptr_symbol mem fuel s (mem.region_symbol r) ≡ ok s'
      write_step r v y e = ground arith

  pub flush_cases :
      (r : ℕ)
      → flush_ptr_region mem fuel s r ≡ ok s'
      → (s' ≡ s)
        ⊎ ((y : ℕ) × (strip_casts mem fuel (mem.region_symbol r) ≡ ok y)
            × (s' ≡ record s { ptr_set = remove y s.ptr_set }))
  unfolding flush_ptr_region flush_ptr_symbol
  flush_cases r e = elim (Bool-cases (r == 0)) [
    | inl null ↦ inl (ground arith)
    | inr valid ↦ elim (Bool-cases (is_symbolic_region mem r)) [
      | inr n ↦ inl (ground arith)
      | inl y ↦
          let (z, e1, e2) =
            >>=-eq-ok (strip_casts mem fuel (mem.region_symbol r)) _ (flush_step r valid y e) in
          inr (z, e1, sym (ok-injective e2))
    ]
  ]
    where
      flush_step :
          (r : ℕ)
          → (r == 0) ≡ false
          → is_symbolic_region mem r ≡ true
          → flush_ptr_region mem fuel s r ≡ ok s'
          → flush_ptr_symbol mem fuel s (mem.region_symbol r) ≡ ok s'
      flush_step r v y e = ground arith

  -- A write makes no target clean and a flush makes none written: what the rules call written
  -- before the write is so after it, and what they call written after the flush was so before it.
  pub Written-monotone :
      (r : ℕ) (t : Target)
      → (write_ptr_region mem fuel s r ≡ ok s' → Written mem s t → Written mem s' t)
        × (flush_ptr_region mem fuel s r ≡ ok s' → Written mem s' t → Written mem s t)
  unfolding saved_regs
  Written-monotone r t = (
    λ e w. elim (write_cases r e) [
      | inl same ↦ subst (λ u. Written mem u t) (sym same) w
      | inr (y, _, same) ↦
          subst (λ u. Written mem u t) (sym same)
            (Written-mono mem s (record s { ptr_set = add y s.ptr_set })
              (record {
                symbols = λ z m. ground (arith, member-add z y s.ptr_set);
                parts = λ z. refl;
              })
              w)
    ],
    λ e w. elim (flush_cases r e) [
      | inl same ↦ subst (λ u. Written mem u t) same w
      | inr (y, _, same) ↦
          Written-mono mem (record s { ptr_set = remove y s.ptr_set }) s
            (record {
              symbols = λ z m. ground (arith, member-remove z y s.ptr_set);
              parts = λ z. refl;
            })
            (subst (λ u. Written mem u t) same w)
    ],
  )
