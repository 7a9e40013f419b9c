-- ===== src/Walk/Tree.antt =====
-- The shape of the ConstStmtVisitor classes: `visit` what stands at a statement, then go through its
-- children that are not null, as VisitChildren does. `fuel` bounds the depth.
use nvmordering.Base.{
  ℕ, zero, suc, ◌<◌, Bool, true, false, ◌||◌, ◌==◌, if◌then◌else◌, List, [], ◌∷◌, Result, ok, err,
  out_of_fuel, ◌>>=◌, fold_result, ◌≡◌, ◌≢◌, ◌⊎◌, inl, inr, refl, arith, Bool-cases, sym, ◌∙◌,
  subst,
}
use nvmordering.Clang.{Ast}

module _ {S : Type 0} where
  -- One child of VisitChildren.
  unfoldable pub visit_child : (ℕ → S → Result S) → ℕ → S → Result S
  visit_child recur child st = if child == 0 then ok st else recur child st

  unfoldable pub walk : Ast → (ℕ → S → Result S) → ℕ → ℕ → S → Result S
  unfolding visit_child fold_result
  walk ast visit zero s st = err out_of_fuel
  walk ast visit (suc fuel) s st =
      visit s st >>= fold_result (visit_child (walk ast visit fuel)) (ast.children s)

-- A statement of the list.
abbrev pub ChildOf : ℕ → List ℕ → Type 0
ChildOf c [] = ⊥
ChildOf c (x ∷ xs) = (c ≡ x) ⊎ ChildOf c xs

-- A statement and everything below it.
pub data Within (ast : Ast) : ℕ → ℕ → Type 0 where
  itself : {s : ℕ} → Within ast s s
  below : {s n : ℕ} (c : ℕ) → c ≢ 0 → ChildOf c (ast.children s) → Within ast c n → Within ast s n

-- Children are of a smaller rank, as in a tree.
abbrev pub IsTree : Ast → (ℕ → ℕ) → Type 0
IsTree ast rank = (s c : ℕ) → c ≢ 0 → ChildOf c (ast.children s) → rank c < rank s

-- Some statement of the tree meets the test.
abbrev pub Finds : Ast → (ℕ → Bool) → ℕ → Type 0
Finds ast test s = (n : ℕ) × Within ast s n × (test n ≡ true)

-- Some statement of the trees below the list of children meets it.
FindsBelow : Ast → (ℕ → Bool) → List ℕ → Type 0
FindsBelow ast test cs = (c : ℕ) × (c ≢ 0) × ChildOf c cs × Finds ast test c

-- A flag that is up if it was, or if something is found.
pub record Raises (before after : Bool) (Found : Type 0) : Type 0 where
  pub up : (before ≡ true) ⊎ Found → after ≡ true
  pub reason : after ≡ true → (before ≡ true) ⊎ Found

pub test_ne : (c : ℕ) → (c == 0) ≡ false → c ≢ 0
test_ne c h = ground arith

module _ (ast : Ast) (test : ℕ → Bool) where
  skip_null :
      (c : ℕ) (cs : List ℕ)
      → (c == 0) ≡ true
      → FindsBelow ast test (c ∷ cs)
      → FindsBelow ast test cs
  unfolding FindsBelow
  skip_null c cs null (d, n, inl e, f) = absurd (n (ground arith))
  skip_null c cs null (d, n, inr m, f) = (d, n, m, f)

  first_or_rest :
      (d c : ℕ) (cs : List ℕ)
      → d ≢ 0
      → ChildOf d (c ∷ cs)
      → Finds ast test d
      → Finds ast test c ⊎ FindsBelow ast test cs
  unfolding FindsBelow
  first_or_rest d c cs n (inl e) f = inl (subst (Finds ast test) e f)
  first_or_rest d c cs n (inr m) f = inr (d, n, m, f)

  here_or_below :
      (s n : ℕ)
      → Within ast s n
      → test n ≡ true
      → (test s ≡ true) ⊎ FindsBelow ast test (ast.children s)
  unfolding FindsBelow
  here_or_below s _ itself t = inl t
  here_or_below s n (below c v m w) t = inr (c, v, m, (n, w, t))

module _ {F G : Type 0} where
  pub Raises-map : {a b : Bool} → (F → G) → (G → F) → Raises a b F → Raises a b G
  Raises-map f g r = record {
    up = λ h. elim h [ inl e ↦ r.up (inl e) | inr y ↦ r.up (inr (g y)) ];
    reason = λ e. elim (r.reason e) [ inl h ↦ inl h | inr x ↦ inr (f x) ];
  }

  pub Raises-trans : {a b c : Bool} → Raises a b F → Raises b c G → Raises a c (F ⊎ G)
  Raises-trans p q = record {
    up = λ h. elim h [
      | inl e ↦ q.up (inl (p.up (inl e)))
      | inr fg ↦ elim fg [ inl x ↦ q.up (inl (p.up (inr x))) | inr y ↦ q.up (inr y) ]
    ];
    reason = λ e. elim (q.reason e) [
      | inl h ↦ elim (p.reason h) [ inl k ↦ inl k | inr x ↦ inr (inl x) ]
      | inr y ↦ inr (inr y)
    ];
  }

pub Raises-none : {a : Bool} {F : Type 0} → ¬ F → Raises a a F
Raises-none no_f = record { up = λ h. elim h [ inl e ↦ e | inr f ↦ absurd (no_f f) ]; reason = inl }

pub Raises-test : {a b t : Bool} → b ≡ (a || t) → Raises a b (t ≡ true)
Raises-test {a} {b} {t} e = record {
  up = λ h. elim h [ inl p ↦ ground arith | inr p ↦ ground arith ];
  reason = λ h. or_reason a t (sym e ∙ h);
}
  where
    or_reason : (a t : Bool) → (a || t) ≡ true → (a ≡ true) ⊎ (t ≡ true)
    or_reason true t h = inl refl
    or_reason false t h = inr h

module _ {S : Type 0} (ast : Ast) (visit : ℕ → S → Result S) (flag : S → Bool) (test : ℕ → Bool)
    (rank : ℕ → ℕ) (tree : IsTree ast rank)
    (step : (s : ℕ) (st : S)
      → (st' : S) × (visit s st ≡ ok st') × (flag st' ≡ (flag st || test s))) where
  walk_children :
      (fuel : ℕ)
      → ((s : ℕ) (st : S)
          → rank s < fuel
          → (st' : S) × (walk ast visit fuel s st ≡ ok st')
            × Raises (flag st) (flag st') (Finds ast test s))
      → (cs : List ℕ) → ((c : ℕ) → c ≢ 0 → ChildOf c cs → rank c < fuel)
      → (st : S)
      → (st' : S) × (fold_result (visit_child (walk ast visit fuel)) cs st ≡ ok st')
        × Raises (flag st) (flag st') (FindsBelow ast test cs)
  unfolding fold_result visit_child FindsBelow
  walk_children fuel ih [] small st = (st, refl, Raises-none (λ f. f.2))
  walk_children fuel ih (c ∷ cs) small st = elim (Bool-cases (c == 0)) [
    | inl null ↦
        let (st', e, r) = walk_children fuel ih cs (λ d n m. small d n (inr m)) st in
        (
          st',
          rw null e,
          Raises-map (λ f. (f.0, f.1, inr f.2, f.3)) (skip_null ast test c cs null) r,
        )
    | inr valid ↦
        let n = λ (e : c ≡ 0). test_ne c valid e in
        let (st1, e1, r1) = ih c st (small c n (inl refl)) in
        let (st2, e2, r2) = walk_children fuel ih cs (λ d n m. small d n (inr m)) st1 in
        (
          st2,
          rw (valid, e1) e2,
          Raises-map
              (λ h. elim h [ inl f ↦ (c, n, inl refl, f) | inr f ↦ (f.0, f.1, inr f.2, f.3) ])
              (λ f. first_or_rest ast test f.0 c cs f.1 f.2 f.3) (Raises-trans r1 r2),
        )
  ]

  -- A walk of a tree ends for fuel above the rank of its root, and its flag is up at the end exactly
  -- if it was at the start or some statement of the tree meets the test by which a visit raises it.
  pub walk-Raises :
      (fuel s : ℕ) (st : S)
      → rank s < fuel
      → (st' : S) × (walk ast visit fuel s st ≡ ok st')
        × Raises (flag st) (flag st') (Finds ast test s)
  unfolding walk FindsBelow
  walk-Raises zero s st h = elim h [ ]
  walk-Raises (suc fuel) s st h =
      let (st1, e1, f1) = step s st in
      let (st2, e2, r2) =
        walk_children fuel (walk-Raises fuel) (ast.children s)
          (λ c n m. omega (arith, tree s c n m)) st1 in
      (
        st2,
        rw e1 e2,
        Raises-map
            (λ h. elim h [
              | inl t ↦ (s, itself, t)
              | inr f ↦ (f.3.0, below f.0 f.1 f.2 f.3.1, f.3.2)
            ])
            (λ f. here_or_below ast test s f.0 f.1 f.2) (Raises-trans (Raises-test f1) r2),
      )
