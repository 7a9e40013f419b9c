-- ===== src/PtrX/Callbacks.antt =====
-- lib/ptrxchecker/PtrChecker.cpp: what the callbacks report, and the states that a path goes on with.
use nvmordering.Base.{
  ℕ, ◌<◌, Bool, true, List, [], ◌∷◌, Map, PtrSet, ok, err, fatal_error, ◌≡◌, ◌≢◌, refl, arith,
}
use nvmordering.Symbolic.Engine.{
  CheckerContext, Call, add_new_state, push, successors, reports, context_at,
}
use nvmordering.Symbolic.Memory.{Memory}
use nvmordering.Symbolic.Regions.{get_top_base_mem_reg_unsafe}
use nvmordering.PtrX.State.{PtrState, same_set, same_map, same_state, flush_ptr_region}
use nvmordering.PtrX.Walkers.{Identify}
use nvmordering.PtrX.Checker.{CallEvent, handle_flush_fence_fnc}

same_set_sound : (s t : PtrSet) → same_set s t ≡ true → s ≡ t
unfolding same_set
same_set_sound [] [] h = refl
same_set_sound [] (y ∷ ys) h = cc
same_set_sound (x ∷ xs) [] h = cc
same_set_sound (x ∷ xs) (y ∷ ys) h = ground (arith, same_set_sound xs ys)

same_map_sound : (s t : Map PtrSet) → same_map s t ≡ true → s ≡ t
unfolding same_map
same_map_sound [] [] h = refl
same_map_sound [] (y ∷ ys) h = cc
same_map_sound (x ∷ xs) [] h = cc
same_map_sound ((k, v) ∷ xs) ((j, w) ∷ ys) h =
    ground (arith, same_map_sound xs ys, same_set_sound v w)

same_state_sound : (s t : PtrState) → same_state s t ≡ true → s ≡ t
unfolding same_state
same_state_sound s t h =
    ground (
      arith,
      same_set_sound s.ptr_set t.ptr_set,
      same_map_sound s.derived_sym_ptr t.derived_sym_ptr,
    )

-- A callback that has called nothing goes on with the new state, whether it is another one or not.
pub new_state_successors :
    (gives : List (Call PtrState) → Bool) (top : Bool) (d : ℕ) (s s' : PtrState)
    → successors (add_new_state same_state s s' (context_at gives top d s)) ≡ s' ∷ []
unfolding successors add_new_state push
new_state_successors gives top d s s' = ground (arith, same_state_sound s' s)

pub new_state_reports :
    (gives : List (Call PtrState) → Bool) (top : Bool) (d : ℕ) (s s' : PtrState)
    → reports (add_new_state same_state s s' (context_at gives top d s)).calls ≡ []
unfolding reports add_new_state push
new_state_reports gives top d s s' = ground arith

module _ (gives : List (Call PtrState) → Bool) (top : Bool) (d : ℕ) (s : PtrState) where
  -- A flush of a value with a base region: the path goes on with the state in which that region is
  -- flushed, and with no other; nothing is reported. With more than three arguments the checker
  -- stops with its fatal error instead.
  pub handle_flush_fence_fnc_lem :
      {Fnc Var : Type 0} (identify : Identify Fnc Var) (fncs : Fnc) (mem : Memory) (fuel : ℕ)
      (call : CallEvent) (mr : ℕ) (s' : PtrState)
      → get_top_base_mem_reg_unsafe mem fuel (call.arg_sval 0) ≡ ok mr
      → mr ≢ 0
      → flush_ptr_region mem fuel s mr ≡ ok s'
      → (call.num_args < 4
          → (c : CheckerContext PtrState) × (handle_flush_fence_fnc identify fncs mem fuel call
                (context_at gives top d s)
              ≡ ok c)
            × (successors c ≡ s' ∷ [])
            × (reports c.calls ≡ []))
        × (3 < call.num_args
            → handle_flush_fence_fnc identify fncs mem fuel call (context_at gives top d s)
              ≡ err fatal_error)
  unfolding handle_flush_fence_fnc
  handle_flush_fence_fnc_lem identify fncs mem fuel call mr s' e n f = (
    λ few. (
      add_new_state same_state s s' (context_at gives top d s),
      ground arith,
      new_state_successors gives top d s s',
      new_state_reports gives top d s s',
    ),
    λ many. ground arith,
  )
