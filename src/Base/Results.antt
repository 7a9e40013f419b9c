-- ===== src/Base/Results.antt =====
-- Code that can stop the checker: a failed `assert`, `llvm::report_fatal_error`, a read through
-- a null pointer. `out_of_fuel` stands for a loop or a recursion that has not ended yet.
use mathlib.Core.Path.{◌≡◌, refl, subst}
use mathlib.Core.Bool.{Bool, true, false}
use mathlib.Core.List.{List, [], ◌∷◌}

pub data Fault : Type 0 where
  assert_failed fatal_error null_deref out_of_fuel : Fault

pub data Result {ℓ} (Value : Type ℓ) : Type ℓ where
  err : Fault → Result Value
  ok : Value → Result Value

-- What comes behind a step runs if the step does not fault.
abbrev pub ◌>>=◌ {ℓ κ} : {S : Type ℓ} {T : Type κ} → Result S → (S → Result T) → Result T
err fault >>= rest = err fault
ok mid >>= rest = rest mid

abbrev pub ◌>>◌ {ℓ} : {T : Type ℓ} → Result (Unit {0}) → Result T → Result T
check >> rest = check >>= λ _. rest

infixl 5 ◌>>=◌ ◌>>◌
abbrev pub guard : Bool → Fault → Result (Unit {0})
guard true e = ok tt
guard false e = err e

-- The loop `for (auto x : xs) s = body(x, s)` whose body can fault.
unfoldable pub fold_result {ℓ κ} :
    {A : Type ℓ} {S : Type κ} → (A → S → Result S) → List A → S → Result S
fold_result body [] s = ok s
fold_result body (x ∷ xs) s = body x s >>= fold_result body xs

module _ {ℓ κ} {A : Type ℓ} {B : Type κ} {out : B} where
  -- A chain that ends without a fault has a first step that does.
  pub >>=-eq-ok :
      (step : Result A) (rest : A → Result B)
      → (step >>= rest) ≡ ok out
      → (mid : A) × (step ≡ ok mid) × (rest mid ≡ ok out)
  >>=-eq-ok (ok mid) rest runs = (mid, refl, runs)
  >>=-eq-ok (err fault) rest runs = cc

pub ok-injective {ℓ} : {A : Type ℓ} {a b : A} → ok a ≡ ok b → a ≡ b
ok-injective e = cc

-- An invariant of a loop's body holds when the loop has ended.
pub fold_result-keeps {ℓ κ μ} :
    {A : Type ℓ} {S : Type κ} (P : S → Type μ) (body : A → S → Result S)
    → ((x : A) (s s' : S) → body x s ≡ ok s' → P s → P s')
    → (xs : List A) (s s' : S) → fold_result body xs s ≡ ok s'
    → P s
    → P s'
unfolding fold_result
fold_result-keeps P body keep [] s s' e h = subst P (ok-injective e) h
fold_result-keeps P body keep (x ∷ xs) s s' e h =
    let (m, e1, e2) = >>=-eq-ok (body x s) (fold_result body xs) e in
    fold_result-keeps P body keep xs m s' e2 (keep x s m e1 h)
