-- ===== src/Dataflow/ListMaps.antt =====
-- Containers for the analysis that find a key where its order puts no key before the other, as a list
-- that is searched. For contexts those are equal keys.
use nvmordering.Base.{
  ℕ, suc, Bool, true, false, ◌&&◌, ◌||◌, not, ◌==◌, if◌then◌else◌, List, [], ◌∷◌, ◌≡◌, ◌≢◌, sym,
  refl, ap, arith, Bool-cases, inl, inr,
}
use nvmordering.Dataflow.Location.{PlContext, lt_context}
use nvmordering.Dataflow.Contexts.{FunctionContext, ContextMaps}
use nvmordering.Dataflow.Analysis.Keeps.{IsMap}

abbrev pub is_equivalent : PlContext → PlContext → Bool
is_equivalent c d = not (lt_context c d) && not (lt_context d c)

abbrev pub is_equivalent_pair : FunctionContext → FunctionContext → Bool
is_equivalent_pair (f, c) (g, d) = f == g && is_equivalent c d

unfoldable pub find_in {ℓ} : {K : Type ℓ} → (K → K → Bool) → K → List K → ℕ × List K
find_in eq k [] = (0, k ∷ [])
find_in eq k (j ∷ js) =
    let rest = find_in eq k js in if eq j k then (0, j ∷ js) else (suc rest.0, j ∷ rest.1)

unfoldable pub is_in : FunctionContext → List FunctionContext → Bool
is_in c [] = false
is_in c (d ∷ ds) = is_equivalent_pair d c || is_in c ds

unfoldable pub without : FunctionContext → List FunctionContext → List FunctionContext
without c [] = []
without c (d ∷ ds) = let rest = without c ds in if is_equivalent_pair d c then rest else d ∷ rest

abbrev pub list_maps : ContextMaps (List PlContext) (List FunctionContext) (List FunctionContext)
list_maps = record {
  no_results = [];
  find_results = find_in is_equivalent;
  no_callers = [];
  find_callers = find_in is_equivalent_pair;
  no_contexts = [];
  contains = is_in;
  insert_context = λ c s. if is_in c s then s else c ∷ s;
  erase_context = without;
  elements = λ s. s;
}

abbrev rest_of {ℓ} : {K : Type ℓ} → List K → List K
rest_of [] = []
rest_of (k ∷ ks) = ks

not_empty {ℓ} : {K : Type ℓ} (k : K) → k ∷ [] ≢ []
not_empty k e = cc

module _ {ℓ} {K : Type ℓ} (eq : K → K → Bool) (same : (k : K) → eq k k ≡ true) where
  find_in-again : (k : K) (t : List K) → find_in eq k (find_in eq k t).1 ≡ find_in eq k t
  unfolding find_in
  find_in-again k [] = rw (same k) refl
  find_in-again k (j ∷ js) = elim (Bool-cases (eq j k)) [
    | inl e ↦ rw e (rw e refl)
    | inr e ↦ rw e (rw (e, find_in-again k js) refl)
  ]

  find_in-unmoved :
      (k d : K) (n : ℕ) (t : List K)
      → find_in eq k t ≡ (n, t)
      → find_in eq k (find_in eq d t).1 ≡ (n, (find_in eq d t).1)
  unfolding find_in
  find_in-unmoved k d n [] h = absurd (not_empty k (ap (λ (p : ℕ × List K). p.1) h))
  find_in-unmoved k d n (j ∷ js) h = elim (Bool-cases (eq j k)) [
    | inl e ↦
        let at_0 : n ≡ 0 = sym (ap (λ (p : ℕ × List K). p.0) (rw e at h)) in
        elim (Bool-cases (eq j d)) [ inl f ↦ rw (f, e, at_0) refl | inr f ↦ rw (f, e, at_0) refl ]
    | inr e ↦
        let r = find_in eq k js in
        let at_n : suc r.0 ≡ n = ap (λ (p : ℕ × List K). p.0) (rw e at h) in
        let same_js : r.1 ≡ js = ap (λ (p : ℕ × List K). rest_of p.1) (rw e at h) in
        let later = find_in-unmoved k d r.0 js (ap (λ (t : List K). (r.0, t)) same_js) in
        elim (Bool-cases (eq j d)) [
          | inl f ↦ rw (f, e, sym at_n, same_js) refl
          | inr f ↦ rw (f, e, later, sym at_n) refl
        ]
  ]

is_equivalent_refl : (c : PlContext) → is_equivalent c c ≡ true
unfolding lt_context
is_equivalent_refl c = ground arith

pub list_maps-IsMap : IsMap list_maps
list_maps-IsMap = record {
  found = find_in-again is_equivalent is_equivalent_refl;
  unmoved = find_in-unmoved is_equivalent is_equivalent_refl;
}
