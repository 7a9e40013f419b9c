-- ===== src/PtrX/Protocol.antt =====
-- lib/ptrxchecker: the protocol of a pointer. It is written until it is flushed, but a part that was
-- written by itself stays so.
use nvmordering.Base.{
  ℕ, ◌<◌, Bool, true, false, ◌||◌, [], ◌∷◌, add, remove, member, member-add, member-remove, Result,
  ok, ◌>>=◌, ◌≡◌, ◌≢◌, inl, inr, refl, arith, subst, sym, ap, suc, PtrSet, lookup-insert, >>=-eq-ok,
  ok-injective,
}
use nvmordering.Symbolic.Memory.{
  Memory, is_symbolic_region, is_symbol_data, is_symbol_derived, is_symbol_region_value,
  other_symbol_data, is_symbol_cast,
}
use nvmordering.PtrX.State.{
  PtrState, saved_regs, strip_casts, write_ptr_symbol, flush_ptr_symbol, write_ptr_region,
  flush_ptr_region, write_partial_ptr,
}
use nvmordering.PtrX.Written.{Target, region, symbol, is_ptr_written, any_sub_region}
use nvmordering.PtrX.Taint.{
  SymbolOf, Written, by_symbol, by_part, in_set, by_parent, by_region, IsRanked, Decides, says_yes,
  says_no,
}
use nvmordering.PtrX.Inversion.{symbolic_of}
use nvmordering.PtrX.Decided.{is_ptr_written-Decides}

says_true : {P : Type 0} {r : Result Bool} → Decides P r → P → r ≡ ok true
says_true (says_yes p) q = refl
says_true (says_no n) q = absurd (n q)

says_false : {P : Type 0} {r : Result Bool} → Decides P r → ¬ P → r ≡ ok false
says_false (says_yes p) n = absurd (n p)
says_false (says_no m) n = refl

differ : {b : Bool} → b ≡ true → b ≡ false → ⊥
differ p q = cc

-- A symbol without parts, such as the result of a call: data that stands for itself alone.
pub record IsPlain (mem : Memory) (y : ℕ) : Type 0 where
  pub not_null : y ≢ 0
  pub kind : mem.symbol_kind y ≡ other_symbol_data
  pub alone : mem.symbols y ≡ y ∷ []

module _ (mem : Memory) (y : ℕ) (plain : IsPlain mem y) where
  plain_is_data : is_symbol_data mem y ≡ true
  unfolding is_symbol_data
  plain_is_data = ground (arith, plain.kind)

  plain_is_self : SymbolOf y (mem.symbols y)
  plain_is_self = rw (plain.alone) (inl refl)

  plain_is_no_cast : is_symbol_cast mem y ≡ false
  unfolding is_symbol_cast
  plain_is_no_cast = ground (arith, plain.kind)

  strip_plain : (k : ℕ) → strip_casts mem (suc k) y ≡ ok y
  unfolding strip_casts
  strip_plain k = rw plain_is_no_cast refl

  plain-Written : (s : PtrState) → member y s.ptr_set ≡ true → Written mem s (symbol y)
  plain-Written s m = in_set y plain.not_null plain_is_self plain_is_data m

  plain_is_not_derived : is_symbol_derived mem y ≡ false
  unfolding is_symbol_derived
  plain_is_not_derived = ground (arith, plain.kind)

  plain_is_no_value : is_symbol_region_value mem y ≡ false
  unfolding is_symbol_region_value
  plain_is_no_value = ground (arith, plain.kind)

  only_itself : (si z : ℕ) → SymbolOf si (mem.symbols z) → z ≡ y → si ≡ y
  only_itself si z o q =
      alone_in (subst (SymbolOf si) plain.alone (subst (λ x. SymbolOf si (mem.symbols x)) q o))
    where
      alone_in : SymbolOf si (y ∷ []) → si ≡ y
      alone_in (inl e) = e
      alone_in (inr e) = absurd e

  clean_of :
      (s : PtrState) → member y s.ptr_set ≡ false → {z : ℕ} → Written mem s (symbol z) → z ≡ y → ⊥
  clean_of s m {z} (in_set si n o d e) q =
      differ (subst (λ x. member x s.ptr_set ≡ true) (only_itself si z o q) e) m
  clean_of s m {z} (by_parent si n o d w) q =
      differ (subst (λ x. is_symbol_derived mem x ≡ true) (only_itself si z o q) d)
        plain_is_not_derived
  clean_of s m {z} (by_part si n o d e) q =
      differ (subst (λ x. is_symbol_derived mem x ≡ true) (only_itself si z o q) d)
        plain_is_not_derived
  clean_of s m {z} (by_region si n o d w) q =
      differ (subst (λ x. is_symbol_region_value mem x ≡ true) (only_itself si z o q) d)
        plain_is_no_value

module _ (mem : Memory) (rank : Target → ℕ) (ranked : IsRanked mem rank) (fuel k r : ℕ)
    (enough : rank (region r) < fuel) (valid : r ≢ 0) (symbolic : is_symbolic_region mem r ≡ true)
    (plain : IsPlain mem (mem.region_symbol r)) where
  write_plain :
      (s : PtrState)
      → write_ptr_region mem (suc k) s r
        ≡ ok (record s { ptr_set = add (mem.region_symbol r) s.ptr_set })
  unfolding write_ptr_region write_ptr_symbol
  write_plain s = ground (arith, strip_plain mem (mem.region_symbol r) plain k)

  flush_plain :
      (s : PtrState)
      → flush_ptr_region mem (suc k) s r
        ≡ ok (record s { ptr_set = remove (mem.region_symbol r) s.ptr_set })
  unfolding flush_ptr_region flush_ptr_symbol
  flush_plain s = ground (arith, strip_plain mem (mem.region_symbol r) plain k)

  -- The life of a pointer to a region whose symbol is plain, as the result of a call is, where the
  -- fuel is above the rank of the region: after a write isPtrWritten says yes, and after a flush no,
  -- whatever the state before was.
  pub is_ptr_written-write_flush :
      (s : PtrState)
      → ((write_ptr_region mem (suc k) s r >>= λ s'. is_ptr_written mem fuel s' (region r))
          ≡ ok true)
        × ((flush_ptr_region mem (suc k) s r >>= λ s'. is_ptr_written mem fuel s' (region r))
            ≡ ok false)
  is_ptr_written-write_flush s =
      let y = mem.region_symbol r in
      let s1 : PtrState = record s { ptr_set = add y s.ptr_set } in
      let s2 : PtrState = record s { ptr_set = remove y s.ptr_set } in
      (
        rw (write_plain s) (
            says_true (is_ptr_written-Decides mem s1 rank ranked fuel (region r) enough) (
              by_symbol valid symbolic
                (plain-Written mem y plain s1 (ground (arith, member-add y y s.ptr_set))))),
        rw (flush_plain s) (
            says_false (is_ptr_written-Decides mem s2 rank ranked fuel (region r) enough) (λ w.
              clean_of mem y plain s2 (ground (arith, member-remove y y s.ptr_set))
                (symbolic_of mem s2 w symbolic) refl)),
      )

-- Whether a region lies in one of the others, after one was added.
any_sub_region-add :
    (mem : Memory) (r sub : ℕ) (regs : PtrSet)
    → any_sub_region mem r (add sub regs)
      ≡ (mem.is_sub_region_of r sub || any_sub_region mem r regs)
unfolding any_sub_region add
any_sub_region-add mem r sub [] = refl
any_sub_region-add mem r sub (j ∷ regs) =
    ground (arith, any_sub_region-add mem r sub regs, ap (mem.is_sub_region_of r))

flush_saved_regs :
    (mem : Memory) (k : ℕ) (s1 s2 : PtrState) (y : ℕ)
    → flush_ptr_symbol mem k s1 y ≡ ok s2
    → saved_regs s2 y ≡ saved_regs s1 y
unfolding flush_ptr_symbol saved_regs
flush_saved_regs mem k s1 s2 y e =
    let (z, e1, e2) = >>=-eq-ok (strip_casts mem k y) _ e in rw (sym (ok-injective e2)) refl

partial_saved_regs :
    (mem : Memory) (k : ℕ) (s s1 : PtrState) (y sub : ℕ)
    → member y s.ptr_set ≡ false
    → mem.base_region sub ≢ sub
    → write_partial_ptr mem k s y sub ≡ ok s1
    → saved_regs s1 y ≡ add sub (saved_regs s y)
unfolding write_partial_ptr saved_regs
partial_saved_regs mem k s s1 y sub m b e =
    ground (arith, lookup-insert y y (add sub (saved_regs s y)) s.derived_sym_ptr)

-- A part that was written by itself, for a symbol that was not written as a whole, stays written when
-- the whole symbol is flushed: the set of written regions of the symbol is not touched.
pub flush_keeps_parts :
    (mem : Memory) (k : ℕ) (s s1 s2 : PtrState) (y z sub : ℕ)
    → member y s.ptr_set ≡ false
    → mem.base_region sub ≢ sub
    → write_partial_ptr mem k s y sub ≡ ok s1
    → flush_ptr_symbol mem k s1 y ≡ ok s2
    → z ≢ 0
    → SymbolOf z (mem.symbols z)
    → is_symbol_derived mem z ≡ true
    → mem.parent_symbol z ≡ y
    → mem.is_sub_region_of (mem.symbol_region z) sub ≡ true
    → Written mem s2 (symbol z)
flush_keeps_parts mem k s s1 s2 y z sub m b e1 e2 n o d q i = by_part z n o d (
    rw q (
      rw (flush_saved_regs mem k s1 s2 y e2) (
        rw (partial_saved_regs mem k s s1 y sub m b e1)
          (rw (any_sub_region-add mem (mem.symbol_region z) sub (saved_regs s y)) (ground arith)))))
