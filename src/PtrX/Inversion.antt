-- ===== src/PtrX/Inversion.antt =====
-- lib/ptrxchecker/state_machine/Transitions.h: the rules for what is written, read
-- backwards, and answers put together as the code puts them together.
use nvmordering.Base.{
  ℕ, Bool, true, false, not, ◌==◌, if◌then◌else◌, List, ◌∷◌, member, Result, ok, ◌≡◌, ◌≢◌, ◌⊎◌, inl,
  inr, refl, arith, subst,
}
use nvmordering.Symbolic.Memory.{
  Memory, is_element_region, is_symbolic_region, is_sub_region, is_symbol_data, is_symbol_derived,
  is_symbol_region_value, is_symbol_cast,
}
use nvmordering.PtrX.State.{PtrState, saved_regs}
use nvmordering.PtrX.Written.{region, symbol, value, or_else, any_sub_region}
use nvmordering.PtrX.Taint.{
  SymbolOf, Written, by_super, by_index, by_symbol, by_outer, value_symbol, value_region, in_set,
  by_parent, by_part, by_region, Decides, says_yes, says_no,
}

module _ {P Q : Type 0} where
  pub Decides-map : {r : Result Bool} → (P → Q) → (Q → P) → Decides P r → Decides Q r
  Decides-map f g (says_yes d) = says_yes (f d)
  Decides-map f g (says_no d) = says_no (λ q. d (g q))

  pub Decides-or_else :
      {a b : Result Bool} → Decides P a → Decides Q b → Decides (P ⊎ Q) (or_else a b)
  Decides-or_else (says_yes p) q = says_yes (inl p)
  Decides-or_else (says_no p) (says_yes q) = says_yes (inr q)
  Decides-or_else (says_no p) (says_no q) = says_no (λ h. elim h [ inl x ↦ p x | inr y ↦ q y ])

module _ {P : Type 0} where
  pub Decides-if :
      (b : Bool) {r r' : Result Bool}
      → (b ≡ true → Decides P r)
      → (b ≡ false → Decides P r')
      → Decides P (if b then r else r')
  Decides-if true f g = f refl
  Decides-if false f g = g refl

pub Decides-bool : (b : Bool) → Decides (b ≡ true) (ok b)
Decides-bool true = says_yes refl
Decides-bool false = says_no (λ e. cc)

pub ne_of_test : (n : ℕ) → (n == 0) ≡ false → n ≢ 0
ne_of_test n h = ground arith

pub eq_of_test : (n : ℕ) → (n == 0) ≡ true → n ≡ 0
eq_of_test n h = ground arith

pub not_both : {b : Bool} → b ≡ true → b ≡ false → ⊥
not_both p q = cc

pub not-true : {b : Bool} → not b ≡ true → b ≡ false
not-true {b} h = ground arith

pub not-false : {b : Bool} → not b ≡ false → b ≡ true
not-false {b} h = ground arith

-- Why one piece of data is written.
unfoldable pub Piece : Memory → PtrState → ℕ → Type 0
Piece mem s si =
    (is_symbol_data mem si ≡ true) × (member si s.ptr_set ≡ true)
    ⊎ (((is_symbol_derived mem si ≡ true) × Written mem s (symbol (mem.parent_symbol si))
          ⊎ (is_symbol_derived mem si ≡ true)
            × (any_sub_region mem (mem.symbol_region si) (saved_regs s (mem.parent_symbol si))
                ≡ true))
        ⊎ (is_symbol_region_value mem si ≡ true) × Written mem s (region (mem.symbol_region si)))

pub derived_is_data :
    (mem : Memory) (si : ℕ) → is_symbol_derived mem si ≡ true → is_symbol_data mem si ≡ true
unfolding is_symbol_derived is_symbol_data
derived_is_data mem si h = ground arith

pub region_value_is_data :
    (mem : Memory) (si : ℕ) → is_symbol_region_value mem si ≡ true → is_symbol_data mem si ≡ true
unfolding is_symbol_region_value is_symbol_data
region_value_is_data mem si h = ground arith

pub data_is_no_cast :
    (mem : Memory) (si : ℕ) → is_symbol_data mem si ≡ true → is_symbol_cast mem si ≡ false
unfolding is_symbol_cast is_symbol_data
data_is_no_cast mem si h = ground arith

pub no_data :
    (mem : Memory) (s : PtrState) (si : ℕ) → is_symbol_data mem si ≡ false → Piece mem s si → ⊥
unfolding Piece
no_data mem s si n (inl (d, m)) = not_both d n
no_data mem s si n (inr (inl (inl (d, w)))) = not_both (derived_is_data mem si d) n
no_data mem s si n (inr (inl (inr (d, w)))) = not_both (derived_is_data mem si d) n
no_data mem s si n (inr (inr (d, w))) = not_both (region_value_is_data mem si d) n

pub element_is_sub :
    (mem : Memory) (r : ℕ) → is_element_region mem r ≡ true → is_sub_region mem r ≡ true
unfolding is_element_region is_sub_region
element_is_sub mem r h = ground arith

pub element_not_symbolic :
    (mem : Memory) (r : ℕ) → is_element_region mem r ≡ true → is_symbolic_region mem r ≡ false
unfolding is_element_region is_symbolic_region
element_not_symbolic mem r h = ground arith

module _ (mem : Memory) (s : PtrState) where
  pub Piece-of :
      (si x : ℕ) (sis : List ℕ)
      → SymbolOf si (x ∷ sis)
      → Piece mem s si
      → Piece mem s x ⊎ ((sj : ℕ) × SymbolOf sj sis × Piece mem s sj)
  Piece-of si x sis (inl e) p = inl (subst (Piece mem s) e p)
  Piece-of si x sis (inr h) p = inr (si, h, p)

  pub symbol_not_null : {y : ℕ} → Written mem s (symbol y) → y ≢ 0
  symbol_not_null (in_set si n m d e) = n
  symbol_not_null (by_parent si n m d w) = n
  symbol_not_null (by_part si n m d e) = n
  symbol_not_null (by_region si n m d w) = n

  pub Written-of :
      (y : ℕ)
      → y ≢ 0
      → (si : ℕ) → SymbolOf si (mem.symbols y)
      → Piece mem s si
      → Written mem s (symbol y)
  unfolding Piece
  Written-of y n si m (inl (d, e)) = in_set si n m d e
  Written-of y n si m (inr (inl (inl (d, w)))) = by_parent si n m d w
  Written-of y n si m (inr (inl (inr (d, e)))) = by_part si n m d e
  Written-of y n si m (inr (inr (d, w))) = by_region si n m d w

  pub pieces_of :
      {y : ℕ} → Written mem s (symbol y) → (si : ℕ) × SymbolOf si (mem.symbols y) × Piece mem s si
  unfolding Piece
  pieces_of (in_set si n m d e) = (si, m, inl (d, e))
  pieces_of (by_parent si n m d w) = (si, m, inr (inl (inl (d, w))))
  pieces_of (by_part si n m d e) = (si, m, inr (inl (inr (d, e))))
  pieces_of (by_region si n m d w) = (si, m, inr (inr (d, w)))

  pub value_not_null :
      {v : ℕ} → Written mem s (value v) → mem.as_sym_expr v ≡ 0 → mem.as_region v ≡ 0 → ⊥
  value_not_null (value_symbol n w) e e' = n e
  value_not_null (value_region e n w) e' e'' = n e''

  pub region_of_value :
      {v : ℕ}
      → Written mem s (value v)
      → mem.as_sym_expr v ≡ 0
      → Written mem s (region (mem.as_region v))
  region_of_value (value_symbol n w) e = absurd (n e)
  region_of_value (value_region e n w) e' = w

  pub symbol_of_value :
      {v : ℕ}
      → Written mem s (value v)
      → mem.as_sym_expr v ≢ 0
      → Written mem s (symbol (mem.as_sym_expr v))
  symbol_of_value (value_symbol n w) e = w
  symbol_of_value (value_region e n w) e' = absurd (e' e)

  pub region_not_null : {r : ℕ} → Written mem s (region r) → r ≢ 0
  region_not_null (by_super n e w) = n
  region_not_null (by_index n e w) = n
  region_not_null (by_symbol n e w) = n
  region_not_null (by_outer n e u w) = n

  pub element_of :
      {r : ℕ}
      → Written mem s (region r)
      → is_element_region mem r ≡ true
      → Written mem s (region (mem.super_region r)) ⊎ Written mem s (value (mem.index r))
  element_of (by_super n e w) d = inl w
  element_of (by_index n e w) d = inr w
  element_of {r} (by_symbol n e w) d = absurd (not_both e (element_not_symbolic mem r d))
  element_of (by_outer n e u w) d = inl w

  pub symbolic_of :
      {r : ℕ}
      → Written mem s (region r)
      → is_symbolic_region mem r ≡ true
      → Written mem s (symbol (mem.region_symbol r))
  symbolic_of {r} (by_super n e w) d = absurd (not_both d (element_not_symbolic mem r e))
  symbolic_of {r} (by_index n e w) d = absurd (not_both d (element_not_symbolic mem r e))
  symbolic_of (by_symbol n e w) d = w
  symbolic_of (by_outer n e u w) d = absurd (not_both d e)

  pub outer_of :
      {r : ℕ}
      → Written mem s (region r)
      → is_element_region mem r ≡ false
      → is_symbolic_region mem r ≡ false
      → Written mem s (region (mem.super_region r))
  outer_of (by_super n e w) ne ny = w
  outer_of (by_index n e w) ne ny = absurd (not_both e ne)
  outer_of (by_symbol n e w) ne ny = absurd (not_both e ny)
  outer_of (by_outer n e u w) ne ny = w

  pub space_of :
      {r : ℕ}
      → Written mem s (region r)
      → is_element_region mem r ≡ false
      → is_symbolic_region mem r ≡ false
      → is_sub_region mem r ≡ false
      → ⊥
  space_of (by_super n e w) ne ny nu = not_both e ne
  space_of (by_index n e w) ne ny nu = not_both e ne
  space_of (by_symbol n e w) ne ny nu = not_both e ny
  space_of (by_outer n e u w) ne ny nu = not_both u nu
