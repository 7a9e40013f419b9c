-- ===== src/Dataflow/Merge/Order.antt =====
-- What the merge of states gives, where `meet` gives its argument back.
use nvmordering.Base.{
  ℕ, ◌==◌, ◌<◌, if◌then◌else◌, ◌≡◌, refl, ok, [], ◌∷◌, Map, insert, lookup, lookup-insert, has_key,
  arith, Bool-cases, inl, inr, none,
}
use nvmordering.Dataflow.Manager.{Manager}
use nvmordering.Dataflow.Merge.{merge_in_state}

module _ {ℓ} {V : Type ℓ} where
  -- The keys of a map ascend.
  abbrev pub Above : ℕ → Map V → Type 0
  Above k [] = Unit
  Above k ((j, v) ∷ es) = (k < j) × Above k es

  abbrev pub Ascending : Map V → Type 0
  Ascending [] = Unit
  Ascending ((k, v) ∷ es) = Above k es × Ascending es

  lookup-Above : (k : ℕ) (es : Map V) → Above k es → lookup k es ≡ none
  unfolding lookup
  lookup-Above k [] a = refl
  lookup-Above k ((j, v) ∷ es) (lt, a) = ground (arith, lookup-Above k es a)

module _ {ℓ κ} {V : Type ℓ} {M : Type κ} (m : Manager V M) where
  -- `meet` gives each value of a state back.
  abbrev pub AllMeet : Map V → Type ℓ
  AllMeet [] = Unit
  AllMeet ((k, v) ∷ es) = (m.meet v ≡ ok v) × AllMeet es

  -- Where `meet` gives the values of a state back, merging the state into another one ends without
  -- a fault, and overwrites the values of the other one, which is left as it is elsewhere.
  pub merge_in_state-overwrites :
      (out es : Map V)
      → Ascending es
      → AllMeet es
      → (merged : Map V) × (merge_in_state m out es ≡ ok merged)
        × ((j : ℕ) → lookup j merged ≡ (if has_key j es then lookup j es else lookup j out))
  unfolding merge_in_state has_key lookup
  merge_in_state-overwrites out [] a h = (out, refl, λ j. refl)
  merge_in_state-overwrites out ((k, v) ∷ es) (above, a) (meets, h) =
      let (merged, runs, law) = merge_in_state-overwrites (insert k v out) es a h in
      let chosen : (if has_key k out then m.meet v else ok v) ≡ ok v =
        elim (Bool-cases (has_key k out)) [ inl e ↦ rw e meets | inr e ↦ rw e refl ] in
      (
        merged,
        rw chosen runs,
        λ j. elim (Bool-cases (k == j)) [
          | inl e ↦ ground (arith, law j, lookup-Above k es above, lookup-insert j k v out)
          | inr e ↦ ground (arith, law j, lookup-insert j k v out)
        ],
      )
