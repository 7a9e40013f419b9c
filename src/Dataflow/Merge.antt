-- ===== src/Dataflow/Merge.antt =====
-- include/dataflow_util/DataflowAnalysis.h: the merge of states and their comparison.
pub mod Order
use nvmordering.Base.{
  ℕ, suc, Bool, true, false, ◌&&◌, ◌==◌, if◌then◌else◌, Result, ok, ◌>>=◌, List, [], ◌∷◌, Map,
  insert, lookup, has_key,
}
use nvmordering.Dataflow.Manager.{Manager}

module _ {ℓ κ} {V : Type ℓ} {M : Type κ} (m : Manager V M) where
  -- The loop of `mergeInState(out, in)`. `outVal.meet(inVal)` is a static function of `inVal`.
  unfoldable pub merge_in_state : Map V → Map V → Result (Map V)
  merge_in_state out [] = ok out
  merge_in_state out ((var, val) ∷ rest) =
      (if has_key var out then m.meet val else ok val) >>= λ new_val.
      merge_in_state (insert var new_val out) rest

  abbrev pub size : Map V → ℕ
  size [] = 0
  size (e ∷ es) = suc (size es)

  -- `operator==` of std::map: the sizes, and then the entries in their order.
  unfoldable pub eq_entries : Map V → Map V → Result Bool
  eq_entries ((i, v) ∷ xs) ((j, w) ∷ ys) = (if i == j then m.eq_value v w else ok false) >>= λ same.
      if same then eq_entries xs ys else ok false
  eq_entries _ _ = ok true

  unfoldable pub eq_state : Map V → Map V → Result Bool
  eq_state xs ys = if size xs == size ys then eq_entries xs ys else ok false
