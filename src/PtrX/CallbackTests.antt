-- ===== src/PtrX/CallbackTests.antt =====
-- lib/ptrxchecker/PtrChecker.cpp on the sample memory: the callbacks.
use nvmordering.Base.{
  ℕ, ◌<◌, Bool, true, false, ◌==◌, if◌then◌else◌, List, [], ◌∷◌, none, ok, err, ◌≡◌, ◌≢◌, inl, inr,
  refl, arith, fatal_error, subst, sym,
}
use nvmordering.Clang.{Ast, other_stmt}
use nvmordering.Symbolic.Engine.{CheckerContext, context_at, successors, reports, transitions}
use nvmordering.Symbolic.Decls.{get_func_decl}
use nvmordering.Symbolic.Regions.{
  get_top_base_mem_reg_unsafe, get_top_base_mem_reg_l_or_r, get_mem_field_decl_at,
}
use nvmordering.Symbolic.Sample.{sample_memory, sample_decls}
use nvmordering.PtrX.State.{PtrState, write_ptr_region, flush_ptr_region, same_state}
use nvmordering.PtrX.Written.{region}
use nvmordering.PtrX.Taint.{SymbolOf, Written}
use nvmordering.PtrX.Walkers.{is_alloc_used}
use nvmordering.PtrX.Checker.{
  CallEvent, not_flushed, handle_flush_fence_fnc, check_begin_function, check_bind,
}
use nvmordering.PtrX.Callbacks.{handle_flush_fence_fnc_lem}
use nvmordering.PtrX.Params.{new_states, IsWrite, check_begin_function-new_states}
use nvmordering.PtrX.Binds.{check_bind-Written}
use nvmordering.PtrX.Sample.{
  sample_rank, sample-IsRanked, empty_state, written_state, by_list, gives_once,
}

abbrev flush_call : CallEvent
flush_call = record { decl = 52; num_args = 2; arg_sval = λ i. 8 }

base_8 : get_top_base_mem_reg_unsafe sample_memory 5 8 ≡ ok 8
unfolding get_top_base_mem_reg_unsafe
base_8 = refl

flush_8 : flush_ptr_region sample_memory 5 written_state 8 ≡ ok empty_state
unfolding flush_ptr_region
flush_8 = refl

handle_flush_fence_fnc_lem_example :
    (flush_call.num_args < 4
      → (c : CheckerContext PtrState) × (handle_flush_fence_fnc by_list [] sample_memory 5
            flush_call
            (context_at gives_once false 50 written_state)
          ≡ ok c)
        × (successors c ≡ empty_state ∷ [])
        × (reports c.calls ≡ []))
    × (3 < flush_call.num_args
        → handle_flush_fence_fnc by_list [] sample_memory 5 flush_call
            (context_at gives_once false 50 written_state)
          ≡ err fatal_error)
handle_flush_fence_fnc_lem_example =
    handle_flush_fence_fnc_lem gives_once false 50 written_state by_list [] sample_memory 5
      flush_call 8 empty_state base_8 (omega arith) flush_8

-- The states of the two parameters of a function.
abbrev after_write : ℕ → PtrState
after_write loc =
    if loc == 8 then written_state else record { ptr_set = 20 ∷ []; derived_sym_ptr = [] }

abbrev two_params : ℕ → List ℕ
two_params fd = 8 ∷ 3 ∷ []

IsWrite-8 : IsWrite sample_memory 5 empty_state (λ loc. loc) after_write 8
unfolding get_top_base_mem_reg_unsafe write_ptr_region
IsWrite-8 = record { has_top = refl; not_null = omega arith; write = refl }

IsWrite-3 : IsWrite sample_memory 5 empty_state (λ loc. loc) after_write 3
unfolding get_top_base_mem_reg_unsafe write_ptr_region
IsWrite-3 = record { has_top = refl; not_null = omega arith; write = refl }

both_writes :
    (loc : ℕ)
    → SymbolOf loc (two_params (get_func_decl sample_decls 50))
    → IsWrite sample_memory 5 empty_state (λ loc. loc) after_write loc
both_writes loc (inl e) =
    subst (IsWrite sample_memory 5 empty_state (λ l. l) after_write) (sym e) IsWrite-8
both_writes loc (inr (inl e)) =
    subst (IsWrite sample_memory 5 empty_state (λ l. l) after_write) (sym e) IsWrite-3
both_writes loc (inr (inr e)) = absurd e

function_50 : get_func_decl sample_decls 50 ≢ 0
unfolding get_func_decl
function_50 = omega arith

check_begin_function-new_states_example :
    (c : CheckerContext PtrState) × (check_begin_function by_list [] sample_memory 5 sample_decls
        two_params
        (context_at gives_once true 50 empty_state)
      ≡ ok c)
    × (transitions c.calls
        ≡ new_states empty_state after_write (two_params (get_func_decl sample_decls 50)))
check_begin_function-new_states_example =
    check_begin_function-new_states by_list [] sample_memory 5 sample_decls two_params gives_once 50
      empty_state (λ loc. loc) after_write refl function_50 both_writes

-- Two parameters, two states, each with one of the two writes.
two_states : new_states empty_state after_write (8 ∷ 3 ∷ []) ≡ after_write 8 ∷ after_write 3 ∷ []
unfolding new_states same_state
two_states = refl

-- A statement 70 without calls that stores the value 8 in the field at 4.
abbrev no_syntax : Ast
no_syntax = record {
  kind = λ s. other_stmt;
  children = λ s. [];
  is_assignment_op = λ s. false;
  lhs = λ s. 0;
  rhs = λ s. 0;
  sub_expr = λ s. 0;
  arg = λ s i. 0;
  direct_callee = λ s. 0;
  member_decl = λ s. 0;
  found_decl = λ s. 0;
  has_body = λ s. false;
  body = λ s. 0;
  identifier = λ s. none;
  annotations = λ s. [];
  qualified_name = λ s. "f";
  enclosing_function = λ s. 50;
  contains = λ a b. false;
  rsplit = λ a. (a, a);
}

abbrev no_new : ℕ → Bool
no_new s = false

abbrev itself : ℕ → List ℕ
itself s = s ∷ []

no_alloc : is_alloc_used no_syntax no_new itself 70 ≡ ok false
unfolding is_alloc_used
no_alloc = refl

field_4 : get_mem_field_decl_at sample_memory sample_decls 5 4 ≡ ok 41
unfolding get_mem_field_decl_at
field_4 = refl

left_4 : get_top_base_mem_reg_l_or_r sample_memory 5 4 8 true ≡ ok 3
unfolding get_top_base_mem_reg_l_or_r
left_4 = refl

abbrev both_state : PtrState
both_state = record { ptr_set = 20 ∷ 21 ∷ []; derived_sym_ptr = [] }

store_written : write_ptr_region sample_memory 5 written_state 3 ≡ ok both_state
unfolding write_ptr_region
store_written = refl

check_bind-Written_example :
    (c : CheckerContext PtrState) × (check_bind by_list
        (41 ∷ [])
        sample_memory
        5
        sample_decls
        no_syntax
        no_new
        itself
        4
        8
        70
        (context_at gives_once false 50 written_state)
      ≡ ok c)
    × ((by_list.is_used_var (41 ∷ []) 41 ≡ true)
          × (◌≢◌ {A = ℕ} 8 0)
          × Written sample_memory written_state (region 8)
        → reports c.calls ≡ (if gives_once [] then not_flushed ∷ [] else []))
    × (¬ (
          (by_list.is_used_var (41 ∷ []) 41 ≡ true)
          × (◌≢◌ {A = ℕ} 8 0)
          × Written sample_memory written_state (region 8))
        → (reports c.calls ≡ []) × (successors c ≡ both_state ∷ []))
check_bind-Written_example =
    check_bind-Written by_list (41 ∷ []) sample_memory 5 sample_decls gives_once false 50
      written_state sample_rank sample-IsRanked no_syntax no_new itself 4 8 70 41 8 3 false
      both_state no_alloc field_4 base_8 (omega arith) left_4 store_written
